-- ===== src/Dir/Blobs/Integrity.antt =====
-- The blob directory is addressed by content, and `putBlob` keeps it so.
use oci_tool.Prelude.{
  ℕ, ◌≡◌, sym, ◌∙◌, ◌==◌, inl, inr, Bool, true, false, List, [], Text, text_eq, text_beq_iff, ◌>>=◌,
  Bool-cases, bind-keeps, pure, nat_eq, not, ◌&&◌,
}
use oci_tool.Filesystem.{exists, copy_file}
use oci_tool.Filesystem.Laws.{
  remove_file-files, remove_file-draws, remove_file-full, copy_file-files, copy_file-draws,
  copy_file-full,
}
use oci_tool.Filesystem.Paths.{IsName, join-injective}
use oci_tool.Schema2.{ImageManifest}
use oci_tool.Dir.{Host, set_disk, on_disk, validate_file, address}
use oci_tool.Dir.Blobs.{
  blob_path, make_image_dir, open_temp, write_part, clean_up, copy_temp, commit, settle, receive,
  take_part, finish, image_dir, has_blob, put_part, put_blob,
}
use oci_tool.Dir.Blobs.Sound.{
  set_disk-IsSound, forget_temp-IsSound, make_image_dir-IsSound, open_temp-IsSound,
  write_part-IsSound, IsSoundIf, IsSound, Named,
}

module _ {sha256_hex : List ℕ → Text} {full : Bool} where
  copied-IsSound :
      (sha : Text) (h : Host)
      → Named sha256_hex sha
      → validate_file sha256_hex sha h.temp_file h.disk ≡ true
      → IsSoundIf sha256_hex full h
      → IsSoundIf sha256_hex full (set_disk (copy_file h.temp_file (blob_path h sha) h.disk).1 h)
  unfolding validate_file
  copied-IsSound sha h n valid v = record {
    space = copy_file-full h.temp_file (blob_path h sha) h.disk ∙ v.space;
    blobs = v.blobs;
    temp = v.temp;
    named = v.named;
    drawn = rw (copy_file-draws h.temp_file (blob_path h sha) h.disk) v.drawn;
    addressed = λ r s b m e.
        elim (copy_file-files h.temp_file (blob_path h sha) _ b h.disk (v.space ∙ r) e) [
          | inl old ↦ v.addressed r s b m old
          | inr (here, copy) ↦
              let own =
                (text_beq_iff sha (address sha256_hex b)).0 (rw (copy, validate_file) at valid) in
              sym (join-injective h.blobs_dir sha s (n b own) m.0 here) ∙ own
        ];
  }

  copy_temp-IsSound :
      (sha : Text) (h : Host)
      → Named sha256_hex sha
      → validate_file sha256_hex sha h.temp_file h.disk ≡ true
      → IsSoundIf sha256_hex full h
      → IsSoundIf sha256_hex full (copy_temp sha256_hex sha h).1
  unfolding copy_temp
  copy_temp-IsSound sha h n valid v =
      let copied = copied-IsSound sha h n valid v in
      bind-keeps (IsSoundIf sha256_hex full) (on_disk (copy_file h.temp_file (blob_path h sha)))
        (λ _. pure true) h copied (λ _. copied)

  commit-IsSound :
      (sha : Text) (h : Host)
      → Named sha256_hex sha
      → IsSoundIf sha256_hex full h
      → IsSoundIf sha256_hex full (commit sha256_hex sha h).1
  unfolding commit
  commit-IsSound sha h n v = elim (Bool-cases (validate_file sha256_hex sha h.temp_file h.disk)) [
    | inr dirty ↦ rw dirty v
    | inl valid ↦ rw valid (elim (Bool-cases (exists h.disk (blob_path h sha))) [
      | inl old ↦ rw old v
      | inr new ↦ rw new (copy_temp-IsSound sha h n valid v)
    ])
  ]

  settle-IsSound :
      (sha : Text) (total : ℕ) (good : Bool) (h : Host)
      → Named sha256_hex sha
      → IsSoundIf sha256_hex full h
      → IsSoundIf sha256_hex full (settle sha256_hex sha total good h).1
  unfolding settle
  settle-IsSound sha total good h n v = elim (Bool-cases (h.bytes_written == total)) [
    | inl complete ↦ rw complete (
        let committed = commit-IsSound sha h n v in
        bind-keeps (IsSoundIf sha256_hex full) (commit sha256_hex sha)
          (λ valid. pure (true, good && valid)) h committed (λ _. committed))
    | inr partial ↦ rw partial v
  ]

  receive-IsSound :
      (sha : Text) (total : ℕ) (part : List ℕ) (h : Host)
      → Named sha256_hex sha
      → IsSoundIf sha256_hex full h
      → IsSoundIf sha256_hex full (receive sha256_hex sha total part h).1
  unfolding receive
  receive-IsSound sha total part h n v =
      let opened = open_temp-IsSound h v in
      let written = write_part-IsSound part _ opened in
      bind-keeps (IsSoundIf sha256_hex full) open_temp
        (λ _. write_part part >>= settle sha256_hex sha total) h opened
        (λ _.
          bind-keeps (IsSoundIf sha256_hex full) (write_part part) (settle sha256_hex sha total) _
            written (λ good. settle-IsSound sha total good _ n written))

  clean_up-IsSound :
      (h : Host) → IsSoundIf sha256_hex full h → IsSoundIf sha256_hex full (clean_up h).1
  unfolding clean_up
  clean_up-IsSound h v = elim (Bool-cases (not (h.temp_file == []) && exists h.disk h.temp_file)) [
    | inl left ↦ rw left (
        forget_temp-IsSound _ (
          set_disk-IsSound h _ (remove_file-draws h.temp_file h.disk)
            (remove_file-full h.temp_file h.disk)
            (λ s b n e. remove_file-files h.temp_file _ b h.disk e) v))
    | inr nothing ↦ rw nothing (forget_temp-IsSound h v)
  ]

  take_part-IsSound :
      (sha : Text) (total : ℕ) (part : List ℕ) (h : Host)
      → Named sha256_hex sha
      → IsSoundIf sha256_hex full h
      → IsSoundIf sha256_hex full (take_part sha256_hex sha total part h).1
  unfolding take_part
  take_part-IsSound sha total part h n v = elim (Bool-cases (has_blob sha h)) [
    | inl old ↦ rw old v
    | inr new ↦ rw new (receive-IsSound sha total part h n v)
  ]

  finish-IsSound :
      (r : Bool × Bool) (h : Host)
      → IsSoundIf sha256_hex full h
      → IsSoundIf sha256_hex full (finish sha256_hex r h).1
  unfolding finish
  finish-IsSound (true, good) h v =
      let cleaned = clean_up-IsSound h v in
      bind-keeps (IsSoundIf sha256_hex full) clean_up (λ _. pure good) h cleaned (λ _. cleaned)
  finish-IsSound (false, good) h v = v

  put_part-IsSound :
      (im : ImageManifest) (target sha : Text) (total : ℕ) (part : List ℕ) (h : Host)
      → Named sha256_hex sha
      → IsSoundIf sha256_hex full h
      → IsSoundIf sha256_hex full (put_part sha256_hex im target sha total part h).1
  unfolding put_part
  put_part-IsSound im target sha total part h n v =
      let made = make_image_dir-IsSound (image_dir h.dir im target) h v in
      let taken = take_part-IsSound sha total part _ n made in
      bind-keeps (IsSoundIf sha256_hex full) (make_image_dir (image_dir h.dir im target))
        (λ _. take_part sha256_hex sha total part >>= finish sha256_hex) h made
        (λ _.
          bind-keeps (IsSoundIf sha256_hex full) (take_part sha256_hex sha total part)
            (finish sha256_hex) _ taken (λ r. finish-IsSound r _ taken))

  pub put_blob_keeps :
      (im : ImageManifest) (target sha : Text) (total : ℕ) (part : List ℕ) (h : Host)
      → Named sha256_hex sha
      → IsSoundIf sha256_hex full h
      → IsSoundIf sha256_hex full (put_blob sha256_hex im target sha total part h).1
  unfolding put_blob
  put_blob_keeps im target sha total part h n v = elim (Bool-cases (h.blobs_dir == [])) [
    | inl unset ↦ rw unset v
    | inr set ↦ rw set (elim (Bool-cases (h.directory == [])) [
      | inl unset ↦ rw unset v
      | inr set ↦ rw set (put_part-IsSound im target sha total part h n v)
    ])
  ]

-- Whatever part `Dir::putBlob` is given, for a digest that is a file name, and whether it returns
-- or throws, on a disk with room: if before the call each file among the blobs with a digest for
-- its name was named after the SHA-256 of its contents, and the temporary file was unset or a name
-- in the temporary directory, then so it is after the call.
pub put_blob-IsSound :
    (sha256_hex : List ℕ → Text) (im : ImageManifest) (target sha : Text) (total : ℕ)
    (part : List ℕ) (h : Host)
    → IsName sha
    → IsSound sha256_hex h
    → IsSound sha256_hex (put_blob sha256_hex im target sha total part h).1
put_blob-IsSound sha256_hex im target sha total part h n v =
    put_blob_keeps im target sha total part h (λ b e. n) v
