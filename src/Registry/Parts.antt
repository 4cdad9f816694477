-- ===== src/Registry/Parts.antt =====
-- `initiateUpload` of src/lib/OCI/Registry/Client.cpp, for schema 2. It is given the rounds of its loop and
-- the fuel for `auth`; messages of runtime_error are shortened.
pub mod Unlocated
use oci_tool.Prelude.{
  ℕ, zero, suc, ◌+◌, ◌-◌, ◌%◌, ◌^◌, ◌≡◌, Bool, true, false, not, ◌&&◌, ◌||◌, ltb, Option, none,
  some, List, [], ◌∷◌, ◌++◌, Text, text_eq, nat_eq, codes, length, ◌==◌, if◌then◌else◌, Exec,
  Exception, Outcome, returns, throws, diverges, runtime_error, throw, pure, get, modify, in_range,
  ◌>>=◌, ◌>>◌,
}
use oci_tool.Prelude.Strings.{find, substr, substr_n, size_mod, npos}
use oci_tool.Json.{JsonLib}
use oci_tool.Registry.Location.{split_location}
use oci_tool.Registry.Net.{Net, Server, Request, Response, Method}
use oci_tool.Registry.Auth.{Client, request, plain, auth, auth_headers, via}
use oci_tool.Registry.Uploads.{UploadRequest, header_value, push_scope, patch_server, upload_status}

module _ (J : JsonLib) (N : Net J) where
  abbrev Calls : Type 0 → Type 0
  Calls A = Exec (Client J N) A

  abbrev failed : {A : Type 0} → Text → Calls A
  failed what = throw (runtime_error what)

  unfoldable pub post_upload : UploadRequest → Calls (Option Response)
  post_upload ur = do
    headers ← auth_headers J N
    c ← get
    request J N c.cli (
        plain J N Method.post (codes "/v2/" ++ ur.name ++ codes "/blobs/uploads/")
          (headers ++ (codes "Host", c.domain) ∷ []) c.follow)

  -- The port behind the colon, as a std::uint16_t, and the domain before it.
  unfoldable pub alt_port : Text → ℕ → Calls (Text × ℕ)
  alt_port domain port = if find domain b':' == npos then pure (domain, port) else (do
    digits ← in_range (substr domain ((find domain b':' + 1) % size_mod))
    n ← in_range (N.stoul digits)
    host ← in_range (substr_n domain 0 (find domain b':'))
    pure (host, n % 2 ^ 16))

  unfoldable pub connect : Text → Text → Calls (Unit {0})
  unfolding alt_port
  connect proto domain = do
    address ← alt_port domain (if proto == codes "https" then 443 else 80)
    modify (λ c. record c {
      patch_cli = some (record {
        https = proto == codes "https";
        host = address.0;
        port = address.1;
        credentials = none;
        proxy = via J N c;
      });
    })

  unfoldable pub connect_once : Text → Text → Option Server → Calls (Unit {0})
  unfolding connect
  connect_once proto domain none = connect proto domain
  connect_once proto domain (some s) = pure tt

  unfoldable pub set_location : Text × Text × Text → Calls (Unit {0})
  unfolding connect_once
  set_location (proto, domain, location) c =
      connect_once proto domain c.patch_cli (record c { patch_location = location })

  unfoldable pub accept_upload : Response → Calls (Unit {0})
  unfolding set_location
  accept_upload r = do
    parts ← in_range (split_location (header_value J N r (codes "Location")))
    set_location parts

  -- `while ( res and patch_location_.empty() )`, with the rest of the loop
  unfoldable pub unless_located : Calls (Unit {0}) → Calls (Unit {0})
  unless_located again c = if c.patch_location == [] then again c else pure tt c

  renew_upload :
      (Option Response → Calls (Unit {0})) → ℕ → UploadRequest → Response → Calls (Unit {0})
  unfolding post_upload
  renew_upload again fuel ur r = do
    auth J N fuel r.header (push_scope J N ur)
    res ← post_upload ur
    again res

  unfoldable pub on_upload :
      (Option Response → Calls (Unit {0})) → ℕ → UploadRequest → Response → Calls (Unit {0})
  unfolding accept_upload renew_upload
  on_upload again fuel ur r c =
      if r.status == 202
      then (accept_upload r >> again (some r)) c
      else if r.status == 401
      then renew_upload again fuel ur r c
      else failed (codes "OCI::Registry::Client::initiateUpload") c

  unfoldable pub upload_loop : ℕ → ℕ → UploadRequest → Option Response → Calls (Unit {0})
  unfolding unless_located on_upload
  upload_loop n fuel ur none c = pure tt c
  upload_loop zero fuel ur (some r) c = unless_located (λ c. (diverges, c)) c
  upload_loop (suc n) fuel ur (some r) c =
      unless_located (on_upload (upload_loop n fuel ur) fuel ur r) c

  unfoldable pub first_upload : ℕ → ℕ → UploadRequest → Option Response → Calls (Unit {0})
  unfolding upload_loop
  first_upload n fuel ur none =
      failed (codes "OCI::Registry::Client::initiateUpload received NULL starting " ++ ur.blob_sha)
  first_upload n fuel ur (some r) = upload_loop n fuel ur (some r)

  unfoldable pub initiate_upload : ℕ → ℕ → UploadRequest → Calls (Unit {0})
  unfolding post_upload first_upload
  initiate_upload n fuel ur = do res ← post_upload ur; first_upload n fuel ur res
