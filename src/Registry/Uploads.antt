-- ===== src/Registry/Uploads.antt =====
-- `initiateUpload`, `uploadStatus` and `putBlob` of src/lib/OCI/Registry/Client.cpp, for schema 2. Each
-- is given the rounds of its loop and the fuel for `auth`.
pub mod Status
use oci_tool.Prelude.{
  ℕ, zero, suc, ◌+◌, ◌-◌, ◌%◌, ◌≡◌, Bool, true, false, not, ◌&&◌, ◌||◌, Option, none, some, List,
  [], ◌∷◌, ◌++◌, Text, text_eq, nat_eq, codes, length, ◌==◌, if◌then◌else◌, Exec, Exception,
  Outcome, returns, throws, diverges, runtime_error, null_result, logic_error, throw, pure, get,
  modify, in_range, ◌>>=◌, ◌>>◌,
}
use oci_tool.Prelude.Strings.{find, substr, substr_n, size_mod, npos}
use oci_tool.Json.{JsonLib}
use oci_tool.Schema2.{ImageManifest}
use oci_tool.Registry.Location.{split_location}
use oci_tool.Registry.Net.{Net, Server, Request, Response, Method}
use oci_tool.Registry.Auth.{Client, request, plain, auth, auth_headers}

-- `UploadRequest`, without the target, which only messages name
pub record UploadRequest : Type 0 where
  pub name : Text
  pub blob_sha : Text

module _ (J : JsonLib) (N : Net J) where
  abbrev Calls : Type 0 → Type 0
  Calls A = Exec (Client J N) A

  abbrev failed : {A : Type 0} → Text → Calls A
  failed what = throw (runtime_error what)

  unfoldable pub push_scope : UploadRequest → Text
  push_scope ur = codes "repository:" ++ ur.name ++ codes ":pull,push"

  abbrev or_empty : Option Text → Text
  or_empty none = []
  or_empty (some v) = v

  -- `res->get_header_value( k )`
  abbrev pub header_value : Response → Text → Text
  header_value r k = or_empty (r.header k)

  abbrev or_null : Option Server → Calls Server
  or_null none = throw null_result
  or_null (some s) = pure s

  -- A std::unique_ptr that is used without a test.
  abbrev pub patch_server : Calls Server
  patch_server c = or_null c.patch_cli c

  unfoldable pub get_status : Calls (Option Response)
  get_status = do
    headers ← auth_headers J N
    c ← get
    s ← patch_server
    request J N s
        (plain J N Method.get c.patch_location (headers ++ (codes "Host", c.domain) ∷ []) false)

  -- The end of the range that the server has.
  unfoldable pub range_end : Response → Calls ℕ
  range_end r = do
    e ← in_range (
        substr (header_value r (codes "Range"))
          ((find (header_value r (codes "Range")) b'-' + 1) % size_mod))
    in_range (N.stoul e)

  unfoldable pub renew_status : (Option Response → Calls ℕ) → ℕ → UploadRequest → Response → Calls ℕ
  unfolding get_status push_scope
  renew_status again fuel ur r = do
    auth J N fuel r.header (push_scope ur)
    res ← get_status
    again res

  -- One round of the loop over an answer: it is read again while it says that nothing was received.
  unfoldable pub on_status : (Option Response → Calls ℕ) → ℕ → UploadRequest → Response → Calls ℕ
  unfolding range_end renew_status
  on_status again fuel ur r c =
      if r.status == 204 || r.status == 202
      then (do n ← range_end r; (if n == 0 then again (some r) else pure n)) c
      else if r.status == 401
      then renew_status again fuel ur r c
      else failed (codes "OCI::Registry::Client::uploadStatus") c

  unfoldable pub status_loop : ℕ → ℕ → UploadRequest → Option Response → Calls ℕ
  unfolding on_status
  status_loop n fuel ur none c = pure 0 c
  status_loop zero fuel ur (some r) c = (diverges, c)
  status_loop (suc n) fuel ur (some r) c = on_status (status_loop n fuel ur) fuel ur r c

  unfoldable pub first_status : ℕ → ℕ → UploadRequest → Option Response → Calls ℕ
  unfolding status_loop
  first_status n fuel ur none c =
      failed (codes "OCI::Registry::Client::uploadStatus received NULL starting " ++ ur.blob_sha) c
  first_status n fuel ur (some r) c = status_loop n fuel ur (some r) c

  unfoldable pub upload_status : ℕ → ℕ → UploadRequest → Calls ℕ
  unfolding first_status get_status
  upload_status n fuel ur = do res ← get_status; first_status n fuel ur res
