-- ===== src/Registry/Uploads/Status.antt =====
-- That `uploadStatus` never ends on a server that has received at most one byte.
use oci_tool.Prelude.{
  Bool-cases, [], ap, arith, bind-returns, codes, diverges, inl, inr, nat_eq, refl, returns, some,
  suc, text_eq, zero, ℕ, ◌==◌, ◌∙◌, ◌≡◌, ◌⊎◌,
}
use oci_tool.Prelude.Strings.{find, substr}
use oci_tool.Json.{JsonLib}
use oci_tool.Registry.Net.{Net, Server, Request, Response}
use oci_tool.Registry.Auth.{Client, auth_headers, valid_header}
use oci_tool.Registry.Uploads.{
  UploadRequest, upload_status, first_status, status_loop, on_status, range_end, get_status,
}

module _ (J : JsonLib) (N : Net J) where
  range_end-zero :
      (r : Response) (c : Client J N)
      → r.header (codes "Range") ≡ some (codes "0-0")
      → N.stoul (codes "0") ≡ some 0
      → range_end J N r c ≡ (returns 0, c)
  unfolding range_end codes find substr
  range_end-zero r c range zero_read = ground (arith, range, zero_read)

  status_loop-zero :
      (n fuel : ℕ) (ur : UploadRequest) (r : Response) (c : Client J N)
      → (r.status ≡ 202) ⊎ (r.status ≡ 204)
      → r.header (codes "Range") ≡ some (codes "0-0")
      → N.stoul (codes "0") ≡ some 0
      → status_loop J N n fuel ur (some r) c ≡ (diverges, c)
  unfolding status_loop on_status
  status_loop-zero zero fuel ur r c ok range zero_read = refl
  status_loop-zero (suc n) fuel ur r c ok range zero_read =
      ground (
        arith,
        range_end-zero r c range zero_read,
        status_loop-zero n fuel ur r c ok range zero_read,
      )

  get_status-answer :
      (s : Server) (r : Response) (c : Client J N)
      → c.patch_cli ≡ some s
      → ((q : Request) (w : N.World) → (N.send s q w).0 ≡ some r)
      → (get_status J N c).0 ≡ returns (some r)
  unfolding get_status auth_headers valid_header
  get_status-answer s r c cli answer = elim (Bool-cases (c.token == [])) [
    | inl e ↦ simp (e, cli, answer)
    | inr e ↦ elim (Bool-cases (N.is_past (N.after c.issued_at c.expires_in) (N.now c.world).0)) [
      | inl p ↦ simp (e, p, cli, answer)
      | inr p ↦ simp (e, p, cli, answer)
    ]
  ]

  -- On a server that gives every request the same answer, accepted or no content, with the range
  -- 0-0, and a `std::stoul` that reads 0 as zero, no number of rounds is enough for the loop of
  -- `uploadStatus`.
  pub upload_status-diverges :
      (n fuel : ℕ) (ur : UploadRequest) (s : Server) (r : Response) (c : Client J N)
      → c.patch_cli ≡ some s
      → ((q : Request) (w : N.World) → (N.send s q w).0 ≡ some r)
      → (r.status ≡ 202) ⊎ (r.status ≡ 204)
      → r.header (codes "Range") ≡ some (codes "0-0")
      → N.stoul (codes "0") ≡ some 0
      → (upload_status J N n fuel ur c).0 ≡ diverges
  unfolding upload_status first_status
  upload_status-diverges n fuel ur s r c cli answer ok range zero_read =
      ap (λ result. result.0)
        (bind-returns (get_status J N) (first_status J N n fuel ur) c (some r)
          (get_status-answer s r c cli answer))
      ∙ ap (λ result. result.0) (status_loop-zero n fuel ur r _ ok range zero_read)
