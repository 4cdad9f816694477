-- ===== src/Dir/Blobs/Transfer.antt =====
-- A blob that goes from one directory tree to another, as in the copy of a layer:
-- `fetchBlob` of the one with `putBlob` of the other for its callback.
use oci_tool.Prelude.{
  ℕ, ◌%◌, ◌<◌, ◌≡◌, ap, ◌∙◌, ◌==◌, Bool, true, some, List, [], ◌∷◌, Text, codes, length, flatten,
  All, Outcome, returns, throws, runtime_error, arith, if◌then◌else◌, nat_eq,
}
use oci_tool.Prelude.Strings.{size_mod}
use oci_tool.Prelude.Dict.{lookup}
use oci_tool.Filesystem.{Disk, file}
use oci_tool.Filesystem.Paths.{join}
use oci_tool.Schema2.{ImageManifest}
use oci_tool.Dir.{Dir, Host, address, gen_uuid}
use oci_tool.Dir.Blobs.{buffer_size, fetch_blob, image_dir, make_image_dir, put_blob}
use oci_tool.Dir.Blobs.Parts.{deliver, IsReady, Uploaded}
use oci_tool.Dir.Blobs.Upload.{put_blob-deliver}
use oci_tool.Dir.Blobs.Fetch.{pieces, pieces-filled, read_end, fetch_blob-pieces}

-- How the transfer of `n` bytes ends.
abbrev pub ending : ℕ → Outcome Bool
ending n =
    if n % buffer_size == 0 then throws (runtime_error (codes "read failed")) else returns true

module _ (sha256_hex : List ℕ → Text) (im : ImageManifest) (target sha : Text) where
  send_pieces :
      (ps : List (List ℕ)) (b u : List ℕ) (us : List (List ℕ)) (h h1 : Host)
      → flatten ps ≡ b
      → All (λ p. 0 < length p) ps
      → 0 < length b
      → length b < size_mod
      → sha ≡ address sha256_hex b
      → make_image_dir (image_dir h.dir im target) h ≡ (returns tt, h1)
      → h1.dir ≡ h.dir
      → h1.draws ≡ u ∷ us
      → IsReady im target sha (join h1.temp_dir (gen_uuid u)) h1
      → (h' : Host) × (deliver (put_blob sha256_hex im target sha (length b)) ps h
          ≡ (returns true, h'))
        × Uploaded im target sha (join h1.temp_dir (gen_uuid u)) b h1 h'
  unfolding flatten
  send_pieces [] b u us h h1 whole filled some_bytes small named made same drawn r =
      absurd (omega (arith, ap length whole))
  send_pieces (p ∷ ps) b u us h h1 whole (_, filled) some_bytes small named made same drawn r =
      let (h', sent, up) =
        put_blob-deliver im target sha sha256_hex (length b) u p us ps h h1 made same drawn r filled
          (rw whole small) (ap length whole) (rw whole named) in
      (h', sent, rw whole at up)

  -- `Dir::fetchBlob` on a tree that has a blob of some bytes, with the `putBlob` of another tree
  -- for its callback, under the conditions of an upload: the other tree then has the blob with the
  -- same bytes and a client that is ready again, and the call returns true, or throws a
  -- runtime_error if the size is a multiple of 4096.
  pub transfer :
      (from : Dir) (disk : Disk) (b u : List ℕ) (us : List (List ℕ)) (h h1 : Host)
      → lookup (join (join from.tree_root (codes "blobs")) sha) disk.nodes ≡ some (file b)
      → 0 < length b
      → length b < size_mod
      → sha ≡ address sha256_hex b
      → make_image_dir (image_dir h.dir im target) h ≡ (returns tt, h1)
      → h1.dir ≡ h.dir
      → h1.draws ≡ u ∷ us
      → IsReady im target sha (join h1.temp_dir (gen_uuid u)) h1
      → (h' : Host) × (fetch_blob from disk sha (put_blob sha256_hex im target sha (length b)) h
          ≡ (ending (length b), h'))
        × Uploaded im target sha (join h1.temp_dir (gen_uuid u)) b h1 h'
  unfolding read_end
  transfer from disk b u us h h1 there some_bytes small named made same drawn r =
      let (whole, fetched) =
        fetch_blob-pieces from disk sha b (put_blob sha256_hex im target sha (length b)) h there in
      let (h', sent, up) =
        send_pieces (pieces buffer_size b) b u us h h1 whole
          (pieces-filled buffer_size (omega arith) b) some_bytes small named made same drawn r in
      (h', fetched ∙ rw sent (ground arith), up)
