-- ===== src/Dir/Blobs/Roots.antt =====
-- `putBlob` leaves the tree that a client works on as it is.
use oci_tool.Prelude.{ℕ, ◌≡◌, Bool, List, [], ◌∷◌, Text, text_eq, bind-keeps, ◌>>=◌, arith, nat_eq}
use oci_tool.Schema2.{ImageManifest}
use oci_tool.Filesystem.Paths.{join}
use oci_tool.Dir.{Host, set_temp, set_disk, gen_uuid}
use oci_tool.Dir.Blobs.{
  make_image_dir, choose_temp, open_temp, append_temp, note_written, write_part, clean_up,
  copy_temp, commit, settle, receive, take_part, finish, image_dir, put_part, put_blob,
}

module _ (root : Text) where
  abbrev In : Host → Type 0
  In h = h.tree_root ≡ root

  choose_temp-In : (us : List (List ℕ)) (h : Host) → In h → In (choose_temp us h).1
  unfolding choose_temp
  choose_temp-In [] h i = i
  choose_temp-In (u ∷ us) h i =
      let p = join h.temp_dir (gen_uuid u) in
      let h' = set_temp p (set_disk (record (h.disk) { draws = us }) h) in
      ground (arith, choose_temp-In us h' i)

  open_temp-In : (h : Host) → In h → In (open_temp h).1
  unfolding open_temp
  open_temp-In h i = ground (arith, choose_temp-In h.draws h i)

  write_part-In : (part : List ℕ) (h : Host) → In h → In (write_part part h).1
  unfolding write_part append_temp note_written
  write_part-In part h i = ground arith

  make_image_dir-In : (p : Text) (h : Host) → In h → In (make_image_dir p h).1
  unfolding make_image_dir
  make_image_dir-In p h i = ground arith

  module _ (sha256_hex : List ℕ → Text) where
    settle-In :
        (sha : Text) (total : ℕ) (good : Bool) (h : Host)
        → In h
        → In (settle sha256_hex sha total good h).1
    unfolding settle commit copy_temp
    settle-In sha total good h i = ground arith

    receive-In :
        (sha : Text) (total : ℕ) (part : List ℕ) (h : Host)
        → In h
        → In (receive sha256_hex sha total part h).1
    unfolding receive
    receive-In sha total part h i =
        let opened = open_temp-In h i in
        bind-keeps In open_temp (λ _. write_part part >>= settle sha256_hex sha total) h opened
          λ _.
            let written = write_part-In part (open_temp h).1 opened in
            bind-keeps In (write_part part) (settle sha256_hex sha total) (open_temp h).1 written
              λ good. settle-In sha total good _ written

    take_part-In :
        (sha : Text) (total : ℕ) (part : List ℕ) (h : Host)
        → In h
        → In (take_part sha256_hex sha total part h).1
    unfolding take_part
    take_part-In sha total part h i = ground (arith, receive-In sha total part h i)

    finish-In : (r : Bool × Bool) (h : Host) → In h → In (finish sha256_hex r h).1
    unfolding finish clean_up
    finish-In (clean, good) h i = ground arith

    put_part-In :
        (im : ImageManifest) (target sha : Text) (total : ℕ) (part : List ℕ) (h : Host)
        → In h
        → In (put_part sha256_hex im target sha total part h).1
    unfolding put_part
    put_part-In im target sha total part h i =
        let made = make_image_dir-In (image_dir h.dir im target) h i in
        bind-keeps In (make_image_dir (image_dir h.dir im target)) _ h made λ _.
          let taken =
            take_part-In sha total part (make_image_dir (image_dir h.dir im target) h).1 made in
          bind-keeps In (take_part sha256_hex sha total part) (finish sha256_hex) _ taken
            λ r. finish-In r _ taken

    pub put_blob-In :
        (im : ImageManifest) (target sha : Text) (total : ℕ) (part : List ℕ) (h : Host)
        → In h
        → In (put_blob sha256_hex im target sha total part h).1
    unfolding put_blob
    put_blob-In im target sha total part h i =
        ground (arith, put_part-In im target sha total part h i)
