-- ===== src/Registry/Manifests/Retry.antt =====
-- That `fetchManifest` asks for a token at most once, and that `auth` touches only the token.
use oci_tool.Prelude.{
  ℕ, zero, suc, ◌≡◌, refl, Bool, false, Option, Option-cases, inl, inr, none, some, List, [], ◌++◌,
  Text, text_eq, nat_eq, codes, Exec, bind-keeps, bind-agree, ◌>>=◌, arith, in_range,
}
use oci_tool.Json.{JsonLib}
use oci_tool.Registry.Challenge.{challenge}
use oci_tool.Registry.Net.{Net, Response, Method}
use oci_tool.Registry.Manifests.{fetch_text, fetch_round, on_answer, renew, manifest_at}
use oci_tool.Registry.Auth.{
  set_auth_retry, plain, token_server, keep_token, take_token, parse_json, answer, ask_token,
  attempt, Client, auth, auth_headers, read_token, read_access_token, read_expires_in,
  read_issued_at, read_refresh_token, token_from_json,
}
use oci_tool.Registry.Queries.{ask}

module _ (J : JsonLib) (N : Net J) where
  abbrev Kept : Bool → Client J N → Type 0
  Kept b c = c.auth_retry ≡ b

  -- What `auth` asks and reads leaves `auth_retry_` alone.
  read_token-Kept :
      (b : Bool) (o : Option J.Json) (c : Client J N) → Kept b c → Kept b (read_token J N o c).1
  unfolding read_token
  read_token-Kept b o c kept = ground arith

  read_access_token-Kept :
      (b : Bool) (o : Option J.Json) (c : Client J N)
      → Kept b c
      → Kept b (read_access_token J N o c).1
  unfolding read_access_token
  read_access_token-Kept b o c kept = ground (arith, read_token-Kept b o c kept)

  read_expires_in-Kept :
      (b : Bool) (o : Option J.Json) (c : Client J N)
      → Kept b c
      → Kept b (read_expires_in J N o c).1
  unfolding read_expires_in
  read_expires_in-Kept b o c kept = ground arith

  read_issued_at-Kept :
      (b : Bool) (o : Option J.Json) (c : Client J N) → Kept b c → Kept b (read_issued_at J N o c).1
  unfolding read_issued_at
  read_issued_at-Kept b o c kept = ground arith

  read_refresh_token-Kept :
      (b : Bool) (o : Option J.Json) (c : Client J N)
      → Kept b c
      → Kept b (read_refresh_token J N o c).1
  unfolding read_refresh_token
  read_refresh_token-Kept b o c kept = ground arith

  auth_headers-Kept : (b : Bool) (c : Client J N) → Kept b c → Kept b (auth_headers J N c).1
  unfolding auth_headers
  auth_headers-Kept b c kept = ground arith

  then-Kept :
      {A B : Type 0} (b : Bool) (m : Exec (Client J N) A) (f : A → Exec (Client J N) B)
      → ((c : Client J N) → Kept b c → Kept b (m c).1)
      → ((a : A) (c : Client J N) → Kept b c → Kept b (f a c).1)
      → (c : Client J N) → Kept b c
      → Kept b ((m >>= f) c).1
  then-Kept b m f first next c kept =
      bind-keeps (Kept b) m f c (first c kept) λ a. next a (m c).1 (first c kept)

  in_range-Kept :
      {A : Type 0} (b : Bool) (o : Option A) (c : Client J N)
      → Kept b c
      → Kept b (in_range {S = Client J N} o c).1
  in_range-Kept b none c kept = kept
  in_range-Kept b (some a) c kept = kept

  token_from_json-Kept :
      (b : Bool) (o : J.Obj) (c : Client J N) → Kept b c → Kept b (token_from_json J N o c).1
  unfolding token_from_json
  token_from_json-Kept b o =
      then-Kept b (read_token J N (J.find o (codes "token"))) _ (read_token-Kept b _) λ _.
        then-Kept b (read_access_token J N (J.find o (codes "access_token"))) _
          (read_access_token-Kept b _)
          λ _.
            then-Kept b (read_expires_in J N (J.find o (codes "expires_in"))) _
              (read_expires_in-Kept b _)
              λ _.
                then-Kept b (read_issued_at J N (J.find o (codes "issued_at"))) _
                  (read_issued_at-Kept b _) λ _. read_refresh_token-Kept b _

  keep_token-Kept :
      (b : Bool) (o : Option J.Obj) (c : Client J N) → Kept b c → Kept b (keep_token J N o c).1
  unfolding keep_token
  keep_token-Kept b none c kept = kept
  keep_token-Kept b (some o) c kept = ground (arith, token_from_json-Kept b o c kept)

  take_token-Kept :
      (b : Bool) (body : Text) (c : Client J N) → Kept b c → Kept b (take_token J N body c).1
  unfolding take_token parse_json
  take_token-Kept b body =
      then-Kept b (parse_json J N body) _ parsed-Kept λ j. keep_token-Kept b (J.get_object j)
    where
      parsed-Kept : (c : Client J N) → Kept b c → Kept b (parse_json J N body c).1
      parsed-Kept c kept = elim (Option-cases (N.parse body)) [
        | inl none_there ↦ rw (none_there, parse_json) kept
        | inr (j, at) ↦ rw (at, parse_json) kept
      ]

  module _ (b : Bool) (again : Exec (Client J N) (Unit {0}))
      (again-Kept : (c : Client J N) → Kept b c → Kept b (again c).1) where
    answer-Kept :
        (location : Text) (r : Option Response) (c : Client J N)
        → Kept b c
        → Kept b (answer J N again location r c).1
    unfolding answer
    answer-Kept location none c kept = kept
    answer-Kept location (some r) c kept =
        ground (arith, take_token-Kept b r.body c kept, again-Kept c kept)

    ask_token-Kept :
        (parts : Text × Text × Text) (c : Client J N)
        → Kept b c
        → Kept b (ask_token J N again parts c).1
    unfolding ask_token
    ask_token-Kept (proto, domain, location) c kept =
        answer-Kept location
          (N.send (token_server J N proto domain c) (plain J N Method.get location [] false)
            c.world).0
          _ kept

    attempt-Kept :
        (scope : Text) (h : Option Text) (c : Client J N)
        → Kept b c
        → Kept b (attempt J N again scope h c).1
    unfolding attempt
    attempt-Kept scope none c kept = kept
    attempt-Kept scope (some www_auth) c kept =
        then-Kept b (in_range (challenge www_auth scope)) _
          (in_range-Kept b (challenge www_auth scope)) ask_token-Kept c kept

  pub auth-Kept :
      (n : ℕ) (b : Bool) (header : Text → Option Text) (scope : Text) (c : Client J N)
      → Kept b c
      → Kept b (auth J N n header scope c).1
  unfolding auth
  auth-Kept zero b header scope c kept = kept
  auth-Kept (suc n) b header scope c kept =
      attempt-Kept b (auth J N n header scope) (auth-Kept n b header scope) scope _ c kept

  ask-Kept :
      (b : Bool) (m : Method) (location : Text) (more : List (Text × Text)) (c : Client J N)
      → Kept b c
      → Kept b (ask J N m location more c).1
  ask-Kept b m location more =
      then-Kept b (auth_headers J N) _ (auth_headers-Kept b) λ _ c kept. kept

  on_answer-last :
      (m k : Exec (Client J N) Text) (fuel : ℕ) (resource target location : Text)
      (res : Option Response) (c : Client J N)
      → Kept false c
      → on_answer J N m fuel resource target location res c
        ≡ on_answer J N k fuel resource target location res c
  unfolding on_answer renew
  on_answer-last m k fuel resource target location none c kept = refl
  on_answer-last m k fuel resource target location (some r) c kept = ground arith

  -- With no retry left the call of itself is not made.
  fetch_round-last :
      (m k : Exec (Client J N) Text) (fuel : ℕ) (media_type resource target : Text) (c : Client J N)
      → Kept false c
      → fetch_round J N m fuel media_type resource target c
        ≡ fetch_round J N k fuel media_type resource target c
  unfolding fetch_round
  fetch_round-last m k fuel media_type resource target c kept =
      bind-agree (ask J N Method.get _ _) _ _ c
        λ res. on_answer-last m k fuel resource target _ res _ (ask-Kept false _ _ _ c kept)

  module _ (last : Exec (Client J N) Text) (n fuel : ℕ) (media_type resource target : Text) where
    rounds-answer :
        (res : Option Response) (c : Client J N)
        → on_answer J N
            (fetch_text J N (suc n) fuel media_type resource target)
            fuel
            resource
            target
            (manifest_at J N resource target)
            res
            c
          ≡ on_answer J N
              (fetch_round J N last fuel media_type resource target)
              fuel
              resource
              target
              (manifest_at J N resource target)
              res
              c
    unfolding on_answer renew fetch_text
    rounds-answer none c = refl
    rounds-answer (some r) c = ground (
      arith,
      bind-agree (auth J N fuel r.header (codes "repository:" ++ resource ++ codes ":pull"))
          (λ _. fetch_text J N (suc n) fuel media_type resource target)
          (λ _. fetch_round J N last fuel media_type resource target) (set_auth_retry J N false c)
          (λ _.
            fetch_round-last _ last fuel media_type resource target _
              (auth-Kept fuel false _ _ _ refl)),
    )

    -- `fetchManifest` of a media type calls itself at most once: with two rounds or more it does
    -- what it does when any other computation stands in place of a third call, whatever the
    -- network answers, and whatever `auth` does.
    pub fetch_text-twice :
        (c : Client J N)
        → fetch_text J N (suc (suc n)) fuel media_type resource target c
          ≡ fetch_round J N
              (fetch_round J N last fuel media_type resource target)
              fuel
              media_type
              resource
              target
              c
    unfolding fetch_text fetch_round
    fetch_text-twice c = bind-agree (ask J N Method.get _ _) _ _ c λ res. rounds-answer res _
