-- ===== src/Registry/Blobs/Bounds.antt =====
-- The offset of an upload as an `int`, in `putBlob` of src/lib/OCI/Registry/Client.cpp.
use oci_tool.Prelude.{Bool, Option, Exec, ◌>>=◌, text_eq, ℕ, ◌≡◌, Text, nat_eq}
use oci_tool.Json.{JsonLib}
use oci_tool.Registry.Net.{Net, Server, Request, Response, Method}
use oci_tool.Registry.Auth.{Client, request}
use oci_tool.Registry.Uploads.{UploadRequest}
use oci_tool.Registry.Blobs.{put_blob_part}

module _ (J : JsonLib) (N : Net J) where
  -- What `putBlob` does with a part once it has asked for the offset begins with this request.
  abbrev pub Sends :
      ℕ → ℕ → UploadRequest → ℕ → Text → Client J N → Server → Client J N → Method → Type 0
  Sends n fuel ur total part c s c1 method =
      (q : Request) × (rest : Option Response → Exec (Client J N) Bool) × (put_blob_part J N n fuel
          ur total part c
        ≡ (request J N s q >>= rest) c1)
      × (q.method ≡ method)
      × (q.body ≡ part)
