-- ===== src/Registry/Queries.antt =====
-- `ping`, `pingResource` and `hasBlob` of src/lib/OCI/Registry/Client.cpp. The last two are
-- given the fuel for `auth`.
use oci_tool.Prelude.{
  ℕ, Bool, true, false, ◌||◌, Option, none, some, List, [], ◌++◌, Text, text_eq, nat_eq, codes,
  ◌==◌, if◌then◌else◌, Exec, runtime_error, null_result, throw, pure, get, in_range, ◌>>=◌, ◌>>◌,
}
use oci_tool.Json.{JsonLib}
use oci_tool.Schema1.{LegacyManifest}
use oci_tool.Schema2.{ImageManifest}
use oci_tool.Registry.Location.{split_location}
use oci_tool.Registry.Net.{Net, Server, Response, Method}
use oci_tool.Registry.Auth.{Client, request, plain, auth, auth_headers, via}

module _ (J : JsonLib) (N : Net J) where
  abbrev Calls : Type 0 → Type 0
  Calls A = Exec (Client J N) A

  -- A request of `cli_` with the headers of `authHeaders` and more.
  abbrev pub ask : Method → Text → List (Text × Text) → Calls (Option Response)
  ask m location more = do
    headers ← auth_headers J N
    c ← get
    request J N c.cli (plain J N m location (headers ++ more) c.follow)

  abbrev pub status_of : Option Response → Calls Response
  status_of none = throw null_result
  status_of (some r) = pure r

  unfoldable pub api_version : Option Response → Bool
  api_version none = false
  api_version (some r) = elim (r.header (codes "Docker-Distribution-Api-Version")) [
    | none ↦ false
    | some v ↦ v == codes "registry/2.0"
  ]

  unfoldable pub ping : Calls Bool
  unfolding api_version
  ping = do
    c ← get
    res ← request J N c.cli (plain J N Method.get (codes "/v2/") [] c.follow)
    pure (api_version res)

  -- The answer to a second request, if the first was refused for want of a token.
  authorized : ℕ → Text → Calls (Option Response) → Response → Calls (Option Response)
  authorized fuel scope again r c =
      if r.status == 401 then (auth J N fuel r.header scope >> again) c else pure (some r) c

  unfoldable pub ping_resource : ℕ → Text → Calls Bool
  unfolding authorized
  ping_resource fuel rsrc = do
    first ← ask Method.get (codes "/v2/" ++ rsrc) []
    r ← status_of first
    second ←
        authorized fuel (codes "repository:" ++ rsrc ++ codes ":pull")
          (ask Method.get (codes "/v2/" ++ rsrc) []) r
    s ← status_of second
    pure (s.status == 200)

  -- The client of the address to which a blob is redirected.
  abbrev pub redirected : Text → Text → Client J N → Server × Bool
  redirected proto domain c = if domain == c.domain then (c.cli, c.follow) else (
    record {
      https = proto == codes "https";
      host = domain;
      port = if proto == codes "https" then 443 else 5000;
      credentials = none;
      proxy = via J N c;
    },
    false,
  )

  redirect : Text × Text × Text → Calls (Option Response)
  redirect (proto, domain, location) = do
    headers ← auth_headers J N
    c ← get
    request J N (redirected proto domain c).0
        (plain J N Method.head location headers (redirected proto domain c).1)

  follow_location : Response → Calls (Option Response)
  unfolding redirect
  follow_location r c = elim (r.header (codes "Location")) [
    | none ↦ pure (some r) c
    | some l ↦ (in_range (split_location l) >>= redirect) c
  ]

  -- `present` is what the method makes of the first result.
  head_blob : (Option Response → Calls Response) → ℕ → Text → Text → Calls Bool
  unfolding authorized follow_location
  head_blob present fuel name location = do
    first ← ask Method.head location []
    r ← present first
    second ←
        authorized fuel (codes "repository:" ++ name ++ codes ":pull") (ask Method.head location [])
          r
    s ← status_of second
    third ← follow_location s
    t ← status_of third
    pure (t.status == 200 || t.status == 302)

  present_at : Text → Option Response → Calls Response
  present_at location none = throw (
      runtime_error (
        codes "OCI::Registry::Client::hasBlob recieved NULL requested head on '"
        ++ location
        ++ codes "'"))
  present_at location (some r) = pure r

  abbrev blob_location : Text → Text → Text
  blob_location name sha = codes "/v2/" ++ name ++ codes "/blobs/" ++ sha

  -- ToggleLocationGuard: redirects are not followed inside, and are followed afterwards, also when
  -- an exception leaves.
  guarded : {A : Type 0} → Calls A → Calls A
  guarded m c = (
    (m (record c { follow = false })).0,
    record ((m (record c { follow = false })).1) { follow = true },
  )

  unfoldable pub has_blob : ℕ → ImageManifest → Text → Calls Bool
  unfolding head_blob guarded present_at
  has_blob fuel im sha =
      guarded (
        head_blob (present_at (blob_location im.name sha)) fuel im.name (blob_location im.name sha))

  -- For schema 1, where the first result is used without a test.
  unfoldable pub has_legacy_blob : ℕ → LegacyManifest → Text → Calls Bool
  unfolding head_blob guarded
  has_legacy_blob fuel im sha =
      guarded (head_blob status_of fuel im.name (blob_location im.name sha))
