-- ===== src/Registry/Parts/Unlocated.antt =====
-- That `initiateUpload` never ends on a server that accepts an upload and names no location for it.
use oci_tool.Prelude.{
  ℕ, zero, suc, ◌≡◌, none, some, [], text_eq, text_beq, codes, ◌==◌, Bool-cases, inl, inr, returns,
  diverges, bind-returns, ap, ◌∙◌, arith,
}
use oci_tool.Prelude.Strings.{find}
use oci_tool.Json.{JsonLib}
use oci_tool.Registry.Location.{split_location}
use oci_tool.Registry.Net.{Net, Server, Request, Response}
use oci_tool.Registry.Auth.{Client, auth_headers, valid_header}
use oci_tool.Registry.Uploads.{UploadRequest}
use oci_tool.Registry.Parts.{
  post_upload, alt_port, connect, connect_once, set_location, accept_upload, unless_located,
  on_upload, upload_loop, first_upload, initiate_upload,
}

module _ (J : JsonLib) (N : Net J) where
  connect_once-returns : (c : Client J N) → (connect_once J N [] [] c.patch_cli c).0 ≡ returns tt
  unfolding connect_once connect alt_port find
  connect_once-returns c = ground arith

  connect_once-location :
      (c : Client J N) → (connect_once J N [] [] c.patch_cli c).1.patch_location ≡ c.patch_location
  unfolding connect_once connect alt_port find
  connect_once-location c = ground arith

  accept_upload-unlocated :
      (r : Response) (c : Client J N)
      → r.header (codes "Location") ≡ none
      → accept_upload J N r c
        ≡ connect_once J N [] [] c.patch_cli (record c { patch_location = [] })
  unfolding accept_upload split_location set_location
  accept_upload-unlocated r c absent = simp (absent)

  upload_loop-unlocated :
      (n fuel : ℕ) (ur : UploadRequest) (r : Response) (c : Client J N)
      → r.status ≡ 202
      → r.header (codes "Location") ≡ none
      → c.patch_location ≡ []
      → (upload_loop J N n fuel ur (some r) c).0 ≡ diverges
  unfolding upload_loop unless_located on_upload text_beq
  upload_loop-unlocated zero fuel ur r c ok absent empty = simp (empty)
  upload_loop-unlocated (suc n) fuel ur r c ok absent empty =
      simp (empty, ok, accept_upload-unlocated r c absent)
        (ap (λ o. o.0)
            (bind-returns (connect_once J N [] [] c.patch_cli)
              (λ _. upload_loop J N n fuel ur (some r)) (record c { patch_location = [] }) tt
              (connect_once-returns (record c { patch_location = [] })))
          ∙ upload_loop-unlocated n fuel ur r _ ok absent
              (connect_once-location (record c { patch_location = [] })))

  post_upload-answer :
      (ur : UploadRequest) (r : Response) (c : Client J N)
      → ((s : Server) (q : Request) (w : N.World) → (N.send s q w).0 ≡ some r)
      → (post_upload J N ur c).0 ≡ returns (some r)
  unfolding post_upload auth_headers valid_header
  post_upload-answer ur r c answer = elim (Bool-cases (c.token == [])) [
    | inl e ↦ simp (e, answer)
    | inr e ↦ elim (Bool-cases (N.is_past (N.after c.issued_at c.expires_in) (N.now c.world).0)) [
      | inl p ↦ simp (e, p, answer)
      | inr p ↦ simp (e, p, answer)
    ]
  ]

  post_upload-location :
      (ur : UploadRequest) (c : Client J N)
      → (post_upload J N ur c).1.patch_location ≡ c.patch_location
  unfolding post_upload auth_headers valid_header
  post_upload-location ur c = ground arith

  -- On a server that accepts every request and names no location, no number of rounds is enough
  -- for the loop of `initiateUpload`, in a client that has no location for the upload.
  pub initiate_upload-diverges :
      (n fuel : ℕ) (ur : UploadRequest) (r : Response) (c : Client J N)
      → c.patch_location ≡ []
      → ((s : Server) (q : Request) (w : N.World) → (N.send s q w).0 ≡ some r)
      → r.status ≡ 202
      → r.header (codes "Location") ≡ none
      → (initiate_upload J N n fuel ur c).0 ≡ diverges
  unfolding initiate_upload first_upload
  initiate_upload-diverges n fuel ur r c empty answer ok absent =
      ap (λ o. o.0)
        (bind-returns (post_upload J N ur) (first_upload J N n fuel ur) c (some r)
          (post_upload-answer ur r c answer))
      ∙ upload_loop-unlocated n fuel ur r _ ok absent (post_upload-location ur c ∙ empty)
