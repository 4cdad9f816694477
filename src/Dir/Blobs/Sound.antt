-- ===== src/Dir/Blobs/Sound.antt =====
-- A tree that is addressed by content, and the first steps of `Dir::putBlob` of
-- src/lib/OCI/Extensions/Dir.cpp, which keep it so.
use oci_tool.Prelude.{
  ◌++◌, ℕ, ◌≡◌, refl, sym, ap, ◌∙◌, ◌==◌, ◌≢◌, ◌⊎◌, inl, inr, Bool, true, false, some, List, [],
  ◌∷◌, Text, text_eq, codes, length, All, append-eq-nil, arith, Bool-cases, bind-keeps, nat_eq,
}
use oci_tool.Prelude.Dict.{lookup}
use oci_tool.Filesystem.{Disk, file, exists}
use oci_tool.Filesystem.Laws.{
  create_directories-files, create_directories-draws, create_directories-full, append_file-full,
  append_file-draws, append_file-other,
}
use oci_tool.Filesystem.Paths.{join, IsName, join-ne_sibling, join-relative, stem}
use oci_tool.Dir.{Host, set_disk, set_temp, set_written, gen_uuid, address}
use oci_tool.Dir.Uuid.{gen_uuid-IsName}
use oci_tool.Dir.Blobs.{
  make_image_dir, choose_temp, open_temp, append_temp, note_written, write_part,
}

-- A file name as blobs have them.
abbrev pub IsDigest : Text → Type 0
IsDigest s = IsName s × (x : Text) × (s ≡ codes "sha256:" ++ x)

-- The two directories of the tree, the temporary file in its own, draws of 48 characters; and, unless
-- the disk is full, each file among the blobs that is named by a digest is named after its contents.
pub record IsSoundIf (sha256_hex : List ℕ → Text) (full : Bool) (h : Host) : Type 0 where
  pub space : h.full ≡ full
  pub blobs : h.blobs_dir ≡ join h.tree_root (codes "blobs")
  pub temp : h.temp_dir ≡ join h.tree_root (codes "temp")
  pub named : (h.temp_file ≡ []) ⊎ ((u : Text) × IsName u × (h.temp_file ≡ join h.temp_dir u))
  pub drawn : All (λ u. length u ≡ 48) h.draws
  pub addressed :
      full ≡ false
      → (s : Text) (b : List ℕ) → IsDigest s
      → lookup (join h.blobs_dir s) h.nodes ≡ some (file b)
      → s ≡ address sha256_hex b

-- The same on a disk with room.
abbrev pub IsSound : (List ℕ → Text) → Host → Type 0
IsSound sha256_hex h = IsSoundIf sha256_hex false h

pub blob-ne_temp :
    (r s u : Text)
    → IsName s
    → IsName u
    → join (join r (codes "blobs")) s ≢ join (join r (codes "temp")) u
unfolding codes
blob-ne_temp r s u n m = join-ne_sibling r b'b' b't' _ _ s u (omega arith) refl refl refl refl n m

pub join-ne-nil : (p s : Text) → IsName s → join p s ≢ []
join-ne-nil p s n e = n.0 (append-eq-nil (stem p) s (sym (join-relative p s n) ∙ e))

-- A digest is a file name, if some contents have it.
abbrev pub Named : (List ℕ → Text) → Text → Type 0
Named sha256_hex sha = (b : List ℕ) → sha ≡ address sha256_hex b → IsName sha

module _ {sha256_hex : List ℕ → Text} {full : Bool} where
  temp_file-ne_blob :
      (h : Host) (s : Text)
      → IsSoundIf sha256_hex full h
      → IsName s
      → h.temp_file ≢ join h.blobs_dir s
  temp_file-ne_blob h s v n e = elim v.named [
    | inl none_yet ↦ join-ne-nil h.blobs_dir s n (sym e ∙ none_yet)
    | inr (u, m, at) ↦
        blob-ne_temp h.tree_root s u n m
          (ap (λ x. join x s) (sym v.blobs) ∙ sym e ∙ at ∙ ap (λ x. join x u) v.temp)
  ]

  -- A change of the disk that makes no file among the blobs, and uses up no draw.
  pub set_disk-IsSound :
      (h : Host) (d : Disk)
      → d.draws ≡ h.draws
      → d.full ≡ h.full
      → ((s : Text) (b : List ℕ)
          → IsName s
          → lookup (join h.blobs_dir s) d.nodes ≡ some (file b)
          → lookup (join h.blobs_dir s) h.nodes ≡ some (file b))
      → IsSoundIf sha256_hex full h
      → IsSoundIf sha256_hex full (set_disk d h)
  set_disk-IsSound h d same room kept v = record {
    space = room ∙ v.space;
    blobs = v.blobs;
    temp = v.temp;
    named = v.named;
    drawn = rw same v.drawn;
    addressed = λ r s b n e. v.addressed r s b n (kept s b n.0 e);
  }

  set_written-IsSound :
      (n : ℕ) (h : Host) → IsSoundIf sha256_hex full h → IsSoundIf sha256_hex full (set_written n h)
  set_written-IsSound n h v = record {
    space = v.space;
    blobs = v.blobs;
    temp = v.temp;
    named = v.named;
    drawn = v.drawn;
    addressed = v.addressed;
  }

  pub forget_temp-IsSound :
      (h : Host)
      → IsSoundIf sha256_hex full h
      → IsSoundIf sha256_hex full (set_written 0 (set_temp [] h))
  forget_temp-IsSound h v = record {
    space = v.space;
    blobs = v.blobs;
    temp = v.temp;
    named = inl refl;
    drawn = v.drawn;
    addressed = v.addressed;
  }

  pub make_image_dir-IsSound :
      (p : Text) (h : Host)
      → IsSoundIf sha256_hex full h
      → IsSoundIf sha256_hex full (make_image_dir p h).1
  unfolding make_image_dir
  make_image_dir-IsSound p h v = elim (Bool-cases (exists h.disk p)) [
    | inl old ↦ rw old v
    | inr new ↦ rw new (
        set_disk-IsSound h _ (create_directories-draws p h.disk) (create_directories-full p h.disk)
          (λ s b n e. create_directories-files p _ b h.disk e) v)
  ]

  choose_temp-IsSound :
      (us : List (List ℕ)) (h : Host)
      → All (λ u. length u ≡ 48) us
      → IsSoundIf sha256_hex full h
      → IsSoundIf sha256_hex full (choose_temp us h).1
  unfolding choose_temp
  choose_temp-IsSound [] h a v = v
  choose_temp-IsSound (u ∷ us) h (a, as') v =
      ground (arith, next, choose_temp-IsSound us _ as' next)
    where
      next :
          IsSoundIf sha256_hex full
            (set_temp (join h.temp_dir (gen_uuid u)) (set_disk (record (h.disk) { draws = us }) h))
      next = record {
        space = v.space;
        blobs = v.blobs;
        temp = v.temp;
        named = inr (gen_uuid u, gen_uuid-IsName u a, refl);
        drawn = as';
        addressed = v.addressed;
      }

  pub open_temp-IsSound :
      (h : Host) → IsSoundIf sha256_hex full h → IsSoundIf sha256_hex full (open_temp h).1
  unfolding open_temp
  open_temp-IsSound h v = elim (Bool-cases (h.temp_file == [])) [
    | inl fresh ↦ rw fresh (choose_temp-IsSound h.draws h v.drawn v)
    | inr taken ↦ rw taken v
  ]

  append_temp-IsSound :
      (part : List ℕ) (h : Host)
      → IsSoundIf sha256_hex full h
      → IsSoundIf sha256_hex full (append_temp part h).1
  unfolding append_temp
  append_temp-IsSound part h v =
      set_disk-IsSound h _ (append_file-draws h.temp_file part h.disk)
        (append_file-full h.temp_file part h.disk)
        (λ s b n e.
          sym (append_file-other h.temp_file _ part h.disk (temp_file-ne_blob h s v n)) ∙ e)
        v

  note_written-IsSound :
      (part : List ℕ) (good : Bool) (h : Host)
      → IsSoundIf sha256_hex full h
      → IsSoundIf sha256_hex full (note_written part good h).1
  unfolding note_written
  note_written-IsSound part true h v = set_written-IsSound _ h v
  note_written-IsSound part false h v = v

  pub write_part-IsSound :
      (part : List ℕ) (h : Host)
      → IsSoundIf sha256_hex full h
      → IsSoundIf sha256_hex full (write_part part h).1
  unfolding write_part
  write_part-IsSound part h v =
      let appended = append_temp-IsSound part h v in
      bind-keeps (IsSoundIf sha256_hex full) (append_temp part) (note_written part) h appended
        (λ good. note_written-IsSound part good _ appended)
