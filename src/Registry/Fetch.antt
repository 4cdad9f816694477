-- ===== src/Registry/Fetch.antt =====
-- `fetchBlob` of src/lib/OCI/Registry/Client.cpp: where the blob is, and its bytes for a callback. The fuel
-- is for `auth`.
pub mod Told
use oci_tool.Prelude.{
  ℕ, zero, suc, Bool, true, false, not, ◌||◌, Option, none, some, List, [], ◌∷◌, ◌++◌, Text,
  text_eq, nat_eq, codes, ◌==◌, if◌then◌else◌, Exec, Outcome, returns, throws, diverges, throw,
  pure, get, in_range, ◌>>=◌, ◌>>◌,
}
use oci_tool.Json.{JsonLib}
use oci_tool.Registry.Location.{split_location}
use oci_tool.Registry.Net.{Net, Server, Request, Response, Method}
use oci_tool.Registry.Auth.{Client, request, plain, auth, auth_headers}
use oci_tool.Registry.Queries.{ask, redirected}

module _ (J : JsonLib) (N : Net J) where
  abbrev Calls : Type 0 → Type 0
  Calls A = Exec (Client J N) A

  -- The client to ask for the blob, whether it follows redirects, and the path.
  abbrev pub Place : Type 0
  Place = Server × Bool × Text

  abbrev blob_at : Text → Text → Text
  blob_at rsrc sha = codes "/v2/" ++ rsrc ++ codes "/blobs/" ++ sha

  renew_head : ℕ → Text → Text → Response → Calls (Option Response)
  renew_head fuel rsrc sha r c =
      if r.status == 401 || r.status == 403
      then (auth J N fuel r.header (codes "repository:" ++ rsrc ++ codes ":pull")
            >> ask J N Method.head (blob_at rsrc sha) [])
          c
      else pure (some r) c

  redirect : Text × Text × Text → Calls Place
  redirect (proto, domain, location) c =
      (returns ((redirected J N proto domain c).0, (redirected J N proto domain c).1, location), c)

  place_of : Text → Response → Calls Place
  unfolding redirect
  place_of location r c = elim (r.header (codes "Location")) [
    | none ↦ pure (c.cli, c.follow, location) c
    | some l ↦ (in_range (split_location l) >>= redirect) c
  ]

  -- `none` where a Head has no answer.
  located : Text → Option Response → Calls (Option Place)
  unfolding place_of
  located location none = pure none
  located location (some r) = do p ← place_of location r; pure (some p)

  head_again : ℕ → Text → Text → Option Response → Calls (Option Place)
  unfolding renew_head located
  head_again fuel rsrc sha none = pure none
  head_again fuel rsrc sha (some r) = do
    second ← renew_head fuel rsrc sha r
    located (blob_at rsrc sha) second

  unfoldable pub locate : ℕ → Text → Text → Calls (Option Place)
  unfolding head_again
  locate fuel rsrc sha = do
    first ← ask J N Method.head (blob_at rsrc sha) []
    head_again fuel rsrc sha first

  -- A call beside the state of the callback.
  abbrev Told : Type 0 → Type 0 → Type 0
  Told S A = Exec (Client J N × S) A

  -- A part that does not concern the callback.
  abbrev pub aside : {S A : Type 0} → Calls A → Told S A
  aside m (c, s) = ((m c).0, ((m c).1, s))

  abbrev with_client :
      {S A : Type 0} → Client J N → Outcome A × (N.World × S) → Outcome A × (Client J N × S)
  with_client c (o, (w, s)) = (o, (record c { world = w }, s))

  unfoldable pub get_blob :
      {S : Type 0} → Place → (List ℕ → Exec S Bool) → List (Text × Text) → Told S (Option Response)
  get_blob (server, follow, location) call_back headers (c, s) =
      with_client c
        (N.fetch server (plain J N Method.get location headers follow) call_back (c.world, s))

  unfoldable pub try_get : {S : Type 0} → Place → (List ℕ → Exec S Bool) → Told S (Option Response)
  unfolding get_blob
  try_get p call_back = aside (auth_headers J N) >>= get_blob p call_back

  -- `do ... while ( not res and ++retries != 3 )`, with the number of tries after the next one
  unfoldable pub unless_answered :
      {S : Type 0} → Told S (Option Response) → Option Response → Told S (Option Response)
  unless_answered again none = again
  unless_answered again (some r) = pure (some r)

  unfoldable pub get_loop :
      {S : Type 0} → ℕ → Place → (List ℕ → Exec S Bool) → Told S (Option Response)
  unfolding try_get unless_answered
  get_loop zero p call_back = try_get p call_back
  get_loop (suc n) p call_back = try_get p call_back >>= unless_answered (get_loop n p call_back)

  unfoldable pub is_fetched : Option Response → Bool
  is_fetched none = false
  is_fetched (some r) = r.status == 200 || r.status == 302

  unfoldable pub fetch_from : {S : Type 0} → Option Place → (List ℕ → Exec S Bool) → Told S Bool
  unfolding get_loop is_fetched
  fetch_from none call_back x = pure false x
  fetch_from (some p) call_back x =
      if not (N.is_valid p.0)
      then pure false x
      else (get_loop 2 p call_back >>= λ res. pure (is_fetched res)) x

  -- ToggleLocationGuard, as in `hasBlob`.
  unfoldable pub unredirected : {S A : Type 0} → Told S A → Told S A
  unredirected m (c, s) =
      let (o, x) = m (record c { follow = false }, s) in (o, (record (x.0) { follow = true }, x.1))

  unfoldable pub fetch_blob : {S : Type 0} → ℕ → Text → Text → (List ℕ → Exec S Bool) → Told S Bool
  unfolding locate fetch_from unredirected
  fetch_blob fuel rsrc sha call_back =
      unredirected (aside (locate fuel rsrc sha) >>= λ p. fetch_from p call_back)
