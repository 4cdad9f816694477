-- ===== src/Registry/Lifecycle.antt =====
-- The constructors, copies, moves, assignments and swap of src/lib/OCI/Registry/Client.cpp.
pub mod Made
use oci_tool.Prelude.{
  ℕ, ◌+◌, ◌%◌, Bool, true, false, not, Option, none, some, List, [], ◌∷◌, ◌++◌, Text, text_eq,
  nat_eq, codes, ◌==◌, if◌then◌else◌, Exec, Outcome, returns, pure, get, modify, in_range, ◌>>=◌,
  ◌>>◌,
}
use oci_tool.Prelude.Strings.{find, substr, substr_n, size_mod, npos}
use oci_tool.Json.{JsonLib}
use oci_tool.Registry.Location.{domain_of}
use oci_tool.Registry.Net.{Net, Server}
use oci_tool.Registry.Auth.{Client, blank, via}
use oci_tool.Registry.Queries.{ping}

module _ (J : JsonLib) (N : Net J) where
  abbrev Calls : Type 0 → Type 0
  Calls A = Exec (Client J N) A

  -- The value of a variable of the environment, where an unset one is empty.
  abbrev or_unset : Option Text → Text
  or_unset none = []
  or_unset (some v) = v

  first_set : Option Text → Option Text → Text
  first_set none second = or_unset second
  first_set (some v) second = v

  unfoldable pub proxy_value : Text
  unfolding first_set
  proxy_value = first_set (N.getenv (codes "http_proxy")) (N.getenv (codes "https_proxy"))

  -- The port stays 8080 where none is named.
  set_port : Text → Calls (Unit {0})
  set_port digits =
      if digits == []
      then pure tt
      else (do n ← in_range (N.stoi_port digits); modify (λ c. record c { proxy_port = n }))

  read_port : Text → Calls (Unit {0})
  unfolding set_port
  read_port address = if find address b':' == npos then pure tt else (do
    digits ← in_range (substr address ((find address b':' + 1) % size_mod))
    set_port digits)

  unfoldable pub read_proxy : Text → Calls (Unit {0})
  unfolding read_port
  read_proxy value = if value == [] then pure tt else (do
    address ← in_range (substr value ((find value b'/' + 2) % size_mod))
    read_port address
    host ← in_range (substr_n address 0 (find address b':'))
    modify (λ c. record c { proxy = host }))

  -- A new httplib::Client for the domain, which does not follow redirects yet.
  abbrev pub server_of : Bool → Option (Text × ℕ) → Text → Server
  server_of secure proxy domain = record {
    https = secure;
    host = domain;
    port = if secure then 443 else 5000;
    credentials = none;
    proxy = proxy;
  }

  unfoldable pub connect : Bool → Calls (Unit {0})
  connect secure =
      modify (λ c. record c { cli = server_of secure (via J N c) c.domain; follow = false })

  -- Without an answer on either port an exception is made, and not thrown.
  unfoldable pub fall_back : Bool → Calls (Unit {0})
  unfolding connect
  fall_back true = modify (λ c. record c { secure = true })
  fall_back false = do connect false; answered ← ping J N; pure tt

  -- https is tried, then http.
  unfoldable pub probe : Calls (Unit {0})
  unfolding connect fall_back
  probe = do
    connect true
    answered ← ping J N
    fall_back answered
    modify (λ c. record c { follow = true })

  unfoldable pub construct : Text → Calls (Unit {0})
  unfolding read_proxy probe
  construct location = do
    domain ← in_range (domain_of location)
    modify (λ c. record c { domain = domain })
    read_proxy proxy_value
    probe

  -- The constructors of a location, without and with a user.
  unfoldable pub new_client : Text → N.World → Outcome (Unit {0}) × Client J N
  unfolding construct
  new_client location w = construct location (blank J N w)

  unfoldable pub login : Text → Text → Text → N.World → Outcome (Unit {0}) × Client J N
  unfolding new_client
  login location username password w =
      ((λ (c : Client J N). new_client location c.world) >>= λ made.
      modify (λ c. record c { username = username; password = password }))
        (blank J N w)

  -- `Client( other )`: the proxy of the new client is looked at, which is still empty.
  unfoldable pub copy_of : Client J N → Client J N
  copy_of other = record (blank J N other.world) {
    domain = other.domain;
    username = other.username;
    password = other.password;
    secure = other.secure;
    cli = server_of other.secure none other.domain;
    follow = true;
  }

  -- `Client( std::move( other ) )`
  unfoldable pub moved : Client J N → Client J N
  moved other = record (blank J N other.world) {
    domain = other.domain;
    username = other.username;
    password = other.password;
    token = other.token;
    expires_in = other.expires_in;
    issued_at = other.issued_at;
    refresh_token = other.refresh_token;
    cli = other.cli;
    follow = other.follow;
  }

  -- `swap`: the first client as it is afterwards; the second follows from the order of arguments.
  unfoldable pub swapped : Client J N → Client J N → Client J N
  swapped this other = record this {
    domain = other.domain;
    username = other.username;
    password = other.password;
    cli = other.cli;
    follow = other.follow;
  }

  -- `this = other`, and `this = std::move( other )`
  unfoldable pub assign : Client J N → Client J N → Client J N
  unfolding copy_of swapped
  assign this other = swapped this (copy_of other)

  unfoldable pub assign_moved : Client J N → Client J N → Client J N
  assign_moved this other = record this {
    domain = other.domain;
    username = other.username;
    password = other.password;
    token = other.token;
    expires_in = other.expires_in;
    issued_at = other.issued_at;
    refresh_token = other.refresh_token;
    cli = other.cli;
    follow = other.follow;
  }
