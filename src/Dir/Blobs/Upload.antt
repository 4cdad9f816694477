-- ===== src/Dir/Blobs/Upload.antt =====
-- A blob that is sent in parts to `Dir::putBlob` of src/lib/OCI/Extensions/Dir.cpp.
use oci_tool.Prelude.{
  ℕ, ◌<◌, ◌≡◌, refl, sym, ap, subst, ◌∙◌, ◌==◌, true, false, List, [], ◌∷◌, ◌++◌, Text, text_eq,
  text_beq_iff, All, flatten, append-nil, append_assoc, length, length-append, returns, arith,
}
use oci_tool.Prelude.Strings.{size_mod}
use oci_tool.Filesystem.{exists, is_directory, can_write}
use oci_tool.Filesystem.Paths.{join}
use oci_tool.Schema2.{ImageManifest}
use oci_tool.Dir.{Dir, Host, set_disk, set_temp, address, gen_uuid}
use oci_tool.Dir.Blobs.{image_dir, make_image_dir, has_blob, put_blob}
use oci_tool.Dir.Blobs.Parts.{
  deliver, grown, stored, Receives, IsReady, Uploaded, grown-Receives, stored-Uploaded,
  Uploaded-grown, put_blob_middle, put_blob_last,
}

module _ (im : ImageManifest) (target sha : Text) (sha256_hex : List ℕ → Text) (total : ℕ) where
  put_rest :
      (t : Text) (got part all : List ℕ) (parts : List (List ℕ)) (h : Host)
      → Receives im target sha t got h
      → All (λ p. 0 < length p) parts
      → all ≡ (got ++ part) ++ flatten parts
      → length all < size_mod
      → length all ≡ total
      → sha ≡ address sha256_hex all
      → (h' : Host) × (deliver (put_blob sha256_hex im target sha total) (part ∷ parts) h
          ≡ (returns true, h'))
        × Uploaded im target sha t all h h'
  unfolding deliver flatten
  put_rest t got part all [] h v filled e small complete named =
      let whole = e ∙ append-nil (got ++ part) in
      let done =
        put_blob_last im target sha sha256_hex total t got part h v (rw whole at small)
          (rw whole at complete) (rw whole at named) in
      (
        stored sha t (got ++ part) h,
        rw done refl,
        rw whole (stored-Uploaded im target sha t got (got ++ part) h v),
      )
  put_rest t got part all (next ∷ parts) h v (full, filled) e small complete named =
      let lengths = ap length e ∙ length-append (got ++ part) (next ++ flatten parts) in
      let more =
        put_blob_middle im target sha sha256_hex total t got part h v (omega (arith, lengths))
          (omega (arith, lengths, length-append next (flatten parts))) in
      let (h', sent, u) =
        put_rest t (got ++ part) next all parts (grown t (got ++ part) h)
          (grown-Receives im target sha t got (got ++ part) h v) filled
          (e ∙ sym (append_assoc (got ++ part) next (flatten parts))) small complete named in
      (h', rw more sent, Uploaded-grown im target sha t (got ++ part) all h h' u)

  abbrev opened : Text → List (List ℕ) → Host → Host
  opened t us h = set_temp t (set_disk (record (h.disk) { draws = us }) h)

  opened-Receives :
      (t : Text) (us : List (List ℕ)) (h : Host)
      → IsReady im target sha t h
      → Receives im target sha t [] (opened t us h)
  unfolding can_write exists is_directory image_dir
  opened-Receives t us h r = record {
    configured = r.configured;
    image = r.image;
    absent = r.absent;
    room = r.room;
    temp = refl;
    temp_named = r.temp_named;
    temp_apart = r.temp_apart;
    writable = ground (arith, r.free, r.writable);
    space = r.space;
    kept = rw r.free;
    written = r.idle.1;
  }

  put_blob_after_make :
      (part : List ℕ) (h h1 : Host)
      → make_image_dir (image_dir h.dir im target) h ≡ (returns tt, h1)
      → h1.dir ≡ h.dir
      → exists h1.disk (image_dir h1.dir im target) ≡ true
      → ((h1.blobs_dir == []) ≡ false) × ((h1.directory == []) ≡ false)
      → put_blob sha256_hex im target sha total part h
        ≡ put_blob sha256_hex im target sha total part h1
  unfolding put_blob
  put_blob_after_make part h h1 made same there (set, set') = rw (
    subst (λ (d : Dir). (d.blobs_dir == []) ≡ false) same set,
    subst (λ (d : Dir). (d.directory == []) ≡ false) same set',
    made,
    set,
    set',
    made_again,
  )
    where
      made_again : make_image_dir (image_dir h1.dir im target) h1 ≡ (returns tt, h1)
      made_again = unfold make_image_dir in rw there refl

  put_blob_first :
      (u part : List ℕ) (us : List (List ℕ)) (h : Host)
      → h.draws ≡ u ∷ us
      → IsReady im target sha (join h.temp_dir (gen_uuid u)) h
      → put_blob sha256_hex im target sha total part h
        ≡ put_blob sha256_hex im target sha total part (opened (join h.temp_dir (gen_uuid u)) us h)
  unfolding put_blob has_blob exists make_image_dir image_dir
  put_blob_first u part us h drawn r =
      ground (arith, text_beq_iff [] [], text_beq_iff h.temp_file [])

  -- For a blob that `Dir::putBlob` is sent in non-empty parts, to a client that is between two
  -- blobs, with a free temporary name, room on the disk, an image directory that is there or can
  -- be made, and a digest and a total size that fit the parts: each part is accepted; afterwards
  -- the blob lies under its digest and holds the parts one behind the other, the temporary file is
  -- gone, the client is ready for the next blob, and every other path is as it was when the
  -- directory had been made.
  pub put_blob-deliver :
      (u part : List ℕ) (us parts : List (List ℕ)) (h h1 : Host)
      → make_image_dir (image_dir h.dir im target) h ≡ (returns tt, h1)
      → h1.dir ≡ h.dir
      → h1.draws ≡ u ∷ us
      → IsReady im target sha (join h1.temp_dir (gen_uuid u)) h1
      → All (λ p. 0 < length p) parts
      → length (part ++ flatten parts) < size_mod
      → length (part ++ flatten parts) ≡ total
      → sha ≡ address sha256_hex (part ++ flatten parts)
      → (h' : Host) × (deliver (put_blob sha256_hex im target sha total) (part ∷ parts) h
          ≡ (returns true, h'))
        × Uploaded im target sha (join h1.temp_dir (gen_uuid u)) (part ++ flatten parts) h1 h'
  unfolding deliver
  put_blob-deliver u part us parts h h1 made same drawn r filled small complete named =
      let t = join h1.temp_dir (gen_uuid u) in
      let first =
        put_blob_after_make part h h1 made same r.image r.configured
        ∙ put_blob_first u part us h1 drawn r in
      let (h', sent, up) =
        put_rest t [] part (part ++ flatten parts) parts (opened t us h1)
          (opened-Receives t us h1 r) filled refl small complete named in
      (
        h',
        rw first sent,
        record {
          blob = up.blob;
          swept = up.swept;
          others = up.others;
          ready = up.ready;
          same_dir = up.same_dir;
        },
      )
