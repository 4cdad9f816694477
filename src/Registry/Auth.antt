-- ===== src/Registry/Auth.antt =====
-- The state of OCI::Registry::Client, and its `auth`, `authHeaders` and `from_json` of a token, of
-- src/lib/OCI/Registry/Client.cpp.
use oci_tool.Prelude.{
  ℕ, zero, suc, Bool, true, false, not, ◌&&◌, Option, none, some, List, [], ◌∷◌, ◌++◌, Text,
  text_eq, nat_eq, codes, ◌==◌, if◌then◌else◌, Exec, returns, diverges, runtime_error, parse_error,
  json_error, throw, pure, modify, in_range, ◌>>=◌, ◌>>◌,
}
use oci_tool.Json.{JsonLib}
use oci_tool.Registry.Challenge.{challenge}
use oci_tool.Registry.Net.{Net, Server, Request, Response, Method}

module _ (J : JsonLib) (N : Net J) where
  -- The token is the struct TokenResponse. `follow` is set by `set_follow_location` on `cli`.
  pub record Client : Type 0 where
    pub domain : Text
    pub username : Text
    pub password : Text
    pub proxy : Text
    pub proxy_port : ℕ
    pub secure : Bool
    pub cli : Server
    pub follow : Bool
    pub patch_cli : Option Server
    pub last_offset : ℕ
    pub patch_location : Text
    pub token : Text
    pub expires_in : N.Seconds
    pub issued_at : N.Time
    pub refresh_token : Text
    pub auth_retry : Bool
    pub world : N.World

  -- A client that was made by default. The real one has no `cli`, which each constructor sets before
  -- any use.
  abbrev pub blank : N.World → Client
  blank w = record {
    domain = [];
    username = [];
    password = [];
    proxy = [];
    proxy_port = 8080;
    secure = false;
    cli = record { https = false; host = []; port = 0; credentials = none; proxy = none };
    follow = false;
    patch_cli = none;
    last_offset = 0;
    patch_location = [];
    token = [];
    expires_in = N.unset_seconds;
    issued_at = N.epoch;
    refresh_token = [];
    auth_retry = true;
    world = w;
  }

  -- `if ( not proxy_.empty() )` the proxy is set.
  unfoldable pub via : Client → Option (Text × ℕ)
  via c = if c.proxy == [] then none else some (c.proxy, c.proxy_port)

  abbrev pub set_token : Text → Client → Client
  set_token t c = record c { token = t }

  abbrev pub set_auth_retry : Bool → Client → Client
  set_auth_retry b c = record c { auth_retry = b }

  abbrev pub request : Server → Request → Exec Client (Option Response)
  request s q c = (returns (N.send s q c.world).0, record c { world = (N.send s q c.world).1 })

  abbrev clock : Exec Client N.Time
  clock c = (returns (N.now c.world).0, record c { world = (N.now c.world).1 })

  -- `json::parse`
  unfoldable pub parse_json : Text → Exec Client J.Json
  parse_json body c = elim (N.parse body) [ none ↦ throw parse_error c | some j ↦ pure j c ]

  abbrev text_of : J.Json → Exec Client Text
  text_of j c = elim (J.get_text j) [ none ↦ throw json_error c | some t ↦ pure t c ]

  abbrev seconds_of : J.Json → Exec Client N.Seconds
  seconds_of j c = elim (N.get_seconds j) [ none ↦ throw json_error c | some t ↦ pure t c ]

  -- `from_json( j, TokenResponse & )`, a part for each field
  unfoldable pub read_token : Option J.Json → Exec Client (Unit {0})
  read_token none = pure tt
  read_token (some j) = do t ← text_of j; modify (set_token t)

  unfoldable pub read_access_token : Option J.Json → Exec Client (Unit {0})
  unfolding read_token
  read_access_token o c = if c.token == [] then read_token o c else pure tt c

  unfoldable pub read_expires_in : Option J.Json → Exec Client (Unit {0})
  read_expires_in none = modify (λ c. record c { expires_in = N.minute })
  read_expires_in (some j) = do s ← seconds_of j; modify (λ c. record c { expires_in = s })

  unfoldable pub read_issued_at : Option J.Json → Exec Client (Unit {0})
  read_issued_at none = do t ← clock; modify (λ c. record c { issued_at = t })
  read_issued_at (some j) = do t ← text_of j; modify (λ c. record c { issued_at = N.read_time t })

  unfoldable pub read_refresh_token : Option J.Json → Exec Client (Unit {0})
  read_refresh_token none = pure tt
  read_refresh_token (some j) = do t ← text_of j; modify (λ c. record c { refresh_token = t })

  unfoldable pub token_from_json : J.Obj → Exec Client (Unit {0})
  unfolding read_token read_access_token read_expires_in read_issued_at read_refresh_token
  token_from_json o = do
    read_token (J.find o (codes "token"))
    read_access_token (J.find o (codes "access_token"))
    read_expires_in (J.find o (codes "expires_in"))
    read_issued_at (J.find o (codes "issued_at"))
    read_refresh_token (J.find o (codes "refresh_token"))

  -- The header of a token that has not expired at that time.
  unfoldable pub valid_header : N.Time → Exec Client (List (Text × Text))
  valid_header t c =
      if N.is_past (N.after c.issued_at c.expires_in) t
      then pure [] c
      else pure ((codes "Authorization", codes "Bearer " ++ c.token) ∷ []) c

  unfoldable pub auth_headers : Exec Client (List (Text × Text))
  unfolding valid_header
  auth_headers c = if c.token == [] then pure [] c else (clock >>= valid_header) c

  -- The server that hands out tokens, and what it is asked.
  unfoldable pub token_server : Text → Text → Client → Server
  token_server proto domain c = record {
    https = proto == codes "https";
    host = domain;
    port = if proto == codes "https" then 443 else 5000;
    credentials =
        if not (c.username == []) && not (c.password == [])
        then some (c.username, c.password)
        else none;
    proxy = via c;
  }

  abbrev pub plain : Method → Text → List (Text × Text) → Bool → Request
  plain m location headers follow = record {
    method = m;
    location = location;
    follow = follow;
    headers = headers;
    body = [];
    content_type = [];
  }

  unfoldable pub keep_token : Option J.Obj → Exec Client (Unit {0})
  unfolding token_from_json
  keep_token none = pure tt
  keep_token (some o) = elim (J.find o (codes "token")) [
    | none ↦ pure tt
    | some j ↦ token_from_json o
  ]

  unfoldable pub take_token : Text → Exec Client (Unit {0})
  unfolding keep_token parse_json
  take_token body = parse_json body >>= λ j. keep_token (J.get_object j)

  unfoldable pub answer : Exec Client (Unit {0}) → Text → Option Response → Exec Client (Unit {0})
  unfolding take_token
  answer again location none c =
      throw
        (runtime_error
          (codes "OCI::Registry::Client::auth recieved NULL '" ++ location ++ codes "'"))
        c
  answer again location (some r) c =
      if r.status == 200
      then take_token r.body c
      else if r.status == 503
      then again c
      else pure tt c

  unfoldable pub ask_token : Exec Client (Unit {0}) → Text × Text × Text → Exec Client (Unit {0})
  unfolding token_server answer
  ask_token again (proto, domain, location) c =
      (do
        r ← request (token_server proto domain c) (plain Method.get location [] false)
        answer again location r)
        c

  unfoldable pub attempt : Exec Client (Unit {0}) → Text → Option Text → Exec Client (Unit {0})
  unfolding ask_token
  attempt again scope none = pure tt
  attempt again scope (some www_auth) = do
    parts ← in_range (challenge www_auth scope)
    ask_token again parts

  -- `auth`, which asks again as long as the service is unavailable, at most as often as the fuel says.
  unfoldable pub auth : ℕ → (Text → Option Text) → Text → Exec Client (Unit {0})
  unfolding attempt
  auth zero header scope c = (diverges, c)
  auth (suc n) header scope c =
      attempt (auth n header scope) scope (header (codes "Www-Authenticate")) c
