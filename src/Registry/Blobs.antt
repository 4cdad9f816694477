-- ===== src/Registry/Blobs.antt =====
-- `putBlob` of src/lib/OCI/Registry/Client.cpp, for schema 2. It is given the rounds of its loop and the
-- fuel for `auth`; messages of runtime_error are shortened.
pub mod Bounds
use oci_tool.Prelude.{
  ℕ, zero, suc, ◌+◌, ◌-◌, ◌%◌, ◌^◌, ◌≡◌, Bool, true, false, not, ◌&&◌, ◌||◌, ltb, Option, none,
  some, List, [], ◌∷◌, ◌++◌, Text, text_eq, nat_eq, codes, length, ◌==◌, if◌then◌else◌, Exec,
  Exception, Outcome, returns, throws, diverges, runtime_error, throw, pure, get, modify, in_range,
  ◌>>=◌, ◌>>◌,
}
use oci_tool.Prelude.Strings.{find, substr, substr_n, size_mod, npos}
use oci_tool.Json.{JsonLib}
use oci_tool.Registry.Net.{Net, Server, Request, Response, Method}
use oci_tool.Registry.Auth.{Client, request, plain, auth, auth_headers}
use oci_tool.Registry.Uploads.{UploadRequest, header_value, push_scope, patch_server, upload_status}
use oci_tool.Registry.Parts.{initiate_upload}

module _ (J : JsonLib) (N : Net J) where
  abbrev Calls : Type 0 → Type 0
  Calls A = Exec (Client J N) A

  abbrev failed : {A : Type 0} → Text → Calls A
  failed what = throw (runtime_error what)

  -- `last_offset` is an int, which takes part in the arithmetic of uint64_t.
  unfoldable pub as_int : ℕ → ℕ
  as_int v = if ltb (v % 2 ^ 32) (2 ^ 31) then v % 2 ^ 32 else v % 2 ^ 32 + (2 ^ 64 - 2 ^ 32)

  content_range : ℕ → ℕ → Text → Text
  content_range from offset part =
      N.to_string from
      ++ codes "-"
      ++ N.to_string (
          if offset == 0
          then (length part + (size_mod - 1)) % size_mod
          else (offset + length part) % size_mod)

  unfoldable pub is_final : ℕ → ℕ → Text → Bool
  is_final offset total part = (offset + length part) % size_mod == total || length part == total

  unfoldable pub part_request :
      UploadRequest → ℕ → ℕ → Text → List (Text × Text) → Client J N → Request
  unfolding content_range is_final
  part_request ur offset total part headers c =
      if is_final offset total part
      then record {
        method = Method.put;
        location = c.patch_location ++ codes "?digest=" ++ ur.blob_sha;
        follow = false;
        headers = headers ++ (codes "Host", c.domain) ∷ [];
        body = part;
        content_type = codes "application/octet-stream";
      }
      else record {
        method = Method.patch;
        location = c.patch_location;
        follow = false;
        headers = headers ++ (codes "Content-Range", content_range c.last_offset offset part) ∷ [];
        body = part;
        content_type = codes "application/octet-stream";
      }

  send_part : UploadRequest → ℕ → ℕ → Text → List (Text × Text) → Calls (Option Response)
  unfolding part_request
  send_part ur offset total part headers = do
    c ← get
    s ← patch_server J N
    request J N s (
        part_request ur offset total part
          (headers ++ (codes "Content-Length", N.to_string (length part)) ∷ []) c)

  created : Calls Bool
  created c = pure true (record c { patch_cli = none; patch_location = []; last_offset = 0 })

  renew_part : (List (Text × Text) → Calls Bool) → ℕ → UploadRequest → Response → Calls Bool
  renew_part again fuel ur r = do
    auth J N fuel r.header (push_scope J N ur)
    headers ← auth_headers J N
    again headers

  on_part : (List (Text × Text) → Calls Bool) → ℕ → UploadRequest → Option Response → Calls Bool
  unfolding created renew_part
  on_part again fuel ur none c =
      failed (codes "OCI::Registry::Client::putBlob received NULL starting " ++ ur.blob_sha) c
  on_part again fuel ur (some r) c =
      if r.status == 401
      then renew_part again fuel ur r c
      else if r.status == 201
      then created c
      else if r.status == 202 || r.status == 204
      then pure true c
      else failed (codes "OCI::Registry::Client Patch Status") c

  part_loop : ℕ → ℕ → UploadRequest → ℕ → ℕ → Text → List (Text × Text) → Calls Bool
  unfolding send_part on_part
  part_loop zero fuel ur offset total part headers c = (diverges, c)
  part_loop (suc n) fuel ur offset total part headers c =
      (send_part ur offset total part headers
          >>= on_part (part_loop n fuel ur offset total part) fuel ur)
        c

  start_part : ℕ → ℕ → UploadRequest → Calls ℕ
  unfolding as_int
  start_part n fuel ur c =
      if c.patch_location == []
      then (initiate_upload J N n fuel ur >> pure 0) c
      else (upload_status J N n fuel ur >>= λ v. pure (as_int v)) c

  unknown_location : UploadRequest → Calls (Unit {0})
  unknown_location ur c = elim c.patch_cli [
    | none ↦
        failed (codes "OCI::Registry::Client::putBlob patch location is unknown! " ++ ur.blob_sha) c
    | some s ↦ pure tt c
  ]

  unfoldable pub put_blob_part : ℕ → ℕ → UploadRequest → ℕ → Text → Calls Bool
  unfolding part_loop start_part unknown_location
  put_blob_part n fuel ur total part = do
    headers ← auth_headers J N
    offset ← start_part n fuel ur
    unknown_location ur
    part_loop n fuel ur offset total part headers
