-- ===== src/Dir/Blobs/Parts.antt =====
-- A client that receives a blob in parts, and what `Dir::putBlob` of src/lib/OCI/Extensions/Dir.cpp does
-- with a part in the middle and with the last one.
use oci_tool.Prelude.{
  ℕ, ◌<◌, ◌≡◌, refl, ◌∙◌, ◌==◌, ◌≢◌, Bool, true, false, none, some, List, [], ◌∷◌, ◌++◌, Text,
  text_eq, text_beq_iff, length, length-append, Exec, returns, ◌>>=◌, pure, arith, if◌then◌else◌,
}
use oci_tool.Prelude.Strings.{size_mod}
use oci_tool.Prelude.Dict.{lookup, lookup-insert, lookup-erase}
use oci_tool.Filesystem.{
  file, contents, exists, is_directory, can_write, append_file, copy_file, put_node, remove_file,
}
use oci_tool.Filesystem.Laws.{exists-put_node, is_directory-put_node, can_write-put_node}
use oci_tool.Filesystem.Paths.{join, parent_path}
use oci_tool.Schema2.{ImageManifest}
use oci_tool.Dir.{Host, set_disk, set_temp, set_written, address, validate_file}
use oci_tool.Dir.Blobs.{image_dir, make_image_dir, has_blob, put_blob}

-- A caller that sends the parts one by one and stops where one is refused, as `fetchBlob` does.
unfoldable pub deliver : {S : Type 0} → (List ℕ → Exec S Bool) → List (List ℕ) → Exec S Bool
deliver call_back [] s = pure true s
deliver call_back (part ∷ parts) s =
    (do accepted ← call_back part; if accepted then deliver call_back parts else pure false) s

-- The host once a further part has been appended.
abbrev pub grown : Text → List ℕ → Host → Host
grown t got h = set_written (length got) (set_disk (put_node t (file got) h.disk) h)

-- The disk once the blob is complete: the copy is there and the temporary file is gone.
abbrev pub stored : Text → Text → List ℕ → Host → Host
stored sha t all h =
    let kept = put_node (join h.blobs_dir sha) (file all) (put_node t (file all) h.disk) in
    set_written 0 (set_temp [] (set_disk (remove_file t kept) h))

module _ (im : ImageManifest) (target sha : Text) where
  -- The client has received `got`, kept in the temporary file `t`.
  pub record Receives (t : Text) (got : List ℕ) (h : Host) : Type 0 where
    pub configured : ((h.blobs_dir == []) ≡ false) × ((h.directory == []) ≡ false)
    pub image : exists h.disk (image_dir h.dir im target) ≡ true
    pub absent : lookup (join h.blobs_dir sha) h.nodes ≡ none
    pub room : is_directory h.disk (parent_path (join h.blobs_dir sha)) ≡ true
    pub temp : h.temp_file ≡ t
    pub temp_named : (t == []) ≡ false
    pub temp_apart : (t == join h.blobs_dir sha) ≡ false
    pub writable : can_write h.disk t ≡ true
    pub space : h.full ≡ false
    pub kept : contents (lookup t h.nodes) ≡ got
    pub written : h.bytes_written ≡ length got

  -- A client between two blobs, with a free temporary name to come, and a tree that has room for a
  -- new blob.
  pub record IsReady (t : Text) (h : Host) : Type 0 where
    pub configured : ((h.blobs_dir == []) ≡ false) × ((h.directory == []) ≡ false)
    pub image : exists h.disk (image_dir h.dir im target) ≡ true
    pub absent : lookup (join h.blobs_dir sha) h.nodes ≡ none
    pub room : is_directory h.disk (parent_path (join h.blobs_dir sha)) ≡ true
    pub idle : (h.temp_file ≡ []) × (h.bytes_written ≡ 0)
    pub free : lookup t h.nodes ≡ none
    pub temp_named : (t == []) ≡ false
    pub temp_apart : (t == join h.blobs_dir sha) ≡ false
    pub writable : is_directory h.disk (parent_path t) ≡ true
    pub space : h.full ≡ false

  -- What an upload leaves: the blob with all its bytes, no temporary file, a client that is ready
  -- for the next blob, and every other path as it was.
  pub record Uploaded (t : Text) (all : List ℕ) (h h' : Host) : Type 0 where
    pub blob : lookup (join h.blobs_dir sha) h'.nodes ≡ some (file all)
    pub swept : lookup t h'.nodes ≡ none
    pub others :
        (q : Text) → q ≢ t → q ≢ join h.blobs_dir sha → lookup q h'.nodes ≡ lookup q h.nodes
    pub ready : (h'.temp_file ≡ []) × (h'.bytes_written ≡ 0)
    pub same_dir : h'.blobs_dir ≡ h.blobs_dir

  pub grown-Receives :
      (t : Text) (got more : List ℕ) (h : Host)
      → Receives t got h
      → Receives t more (grown t more h)
  unfolding image_dir
  grown-Receives t got more h v = record {
    configured = v.configured;
    image = exists-put_node t (image_dir h.dir im target) (file more) h.disk v.image;
    absent = rw (lookup-insert, v.temp_apart) v.absent;
    room = is_directory-put_node t _ more h.disk v.writable v.room;
    temp = v.temp;
    temp_named = v.temp_named;
    temp_apart = v.temp_apart;
    writable = can_write-put_node t more h.disk;
    space = v.space;
    kept = ground (arith, lookup-insert t t (file more) h.nodes, text_beq_iff t t);
    written = refl;
  }

  pub stored-Uploaded :
      (t : Text) (got all : List ℕ) (h : Host)
      → Receives t got h
      → Uploaded t all h (stored sha t all h)
  unfolding remove_file
  stored-Uploaded t got all h v = record {
    blob = ground (
      arith,
      v.temp_apart,
      lookup-erase (join h.blobs_dir sha) t
          (put_node (join h.blobs_dir sha) (file all) (put_node t (file all) h.disk)).nodes,
      lookup-insert (join h.blobs_dir sha) (join h.blobs_dir sha) (file all)
          (put_node t (file all) h.disk).nodes,
      text_beq_iff (join h.blobs_dir sha) (join h.blobs_dir sha),
    );
    swept = rw (lookup-erase, (text_beq_iff t t).1 refl);
    others = λ q ne ne'. ground (
      arith,
      lookup-erase q t
          (put_node (join h.blobs_dir sha) (file all) (put_node t (file all) h.disk)).nodes,
      lookup-insert q (join h.blobs_dir sha) (file all) (put_node t (file all) h.disk).nodes,
      lookup-insert q t (file all) h.nodes,
      text_beq_iff (join h.blobs_dir sha) q,
      text_beq_iff t q,
    );
    ready = (refl, refl);
    same_dir = refl;
  }

  pub Uploaded-grown :
      (t : Text) (more all : List ℕ) (h h' : Host)
      → Uploaded t all (grown t more h) h'
      → Uploaded t all h h'
  Uploaded-grown t more all h h' u = record {
    blob = u.blob;
    swept = u.swept;
    others = λ q ne ne'.
        u.others q ne ne' ∙ ground (arith, lookup-insert q t (file more) h.nodes, text_beq_iff t q);
    ready = u.ready;
    same_dir = u.same_dir;
  }

  module _ (sha256_hex : List ℕ → Text) (total : ℕ) where
    pub put_blob_middle :
        (t : Text) (got part : List ℕ) (h : Host)
        → Receives t got h
        → length (got ++ part) < size_mod
        → length (got ++ part) ≢ total
        → put_blob sha256_hex im target sha total part h ≡ (returns true, grown t (got ++ part) h)
    unfolding put_blob make_image_dir has_blob append_file exists
    put_blob_middle t got part h v small more = ground (arith, length-append got part)

    pub put_blob_last :
        (t : Text) (got part : List ℕ) (h : Host)
        → Receives t got h
        → length (got ++ part) < size_mod
        → length (got ++ part) ≡ total
        → sha ≡ address sha256_hex (got ++ part)
        → put_blob sha256_hex im target sha total part h
          ≡ (returns true, stored sha t (got ++ part) h)
    unfolding put_blob make_image_dir has_blob append_file exists validate_file copy_file
    put_blob_last t got part h v small complete named = ground (
      arith,
      length-append got part,
      lookup-insert t t (file (got ++ part)) h.nodes,
      lookup-insert (join h.blobs_dir sha) t (file (got ++ part)) h.nodes,
      text_beq_iff t t,
      is_directory-put_node t (parent_path (join h.blobs_dir sha)) (got ++ part) h.disk,
      text_beq_iff sha (address sha256_hex (got ++ part)),
      text_beq_iff sha sha,
      lookup-insert t (join h.blobs_dir sha) (file (got ++ part))
          (put_node t (file (got ++ part)) h.disk).nodes,
      text_beq_iff (join h.blobs_dir sha) t,
      text_beq_iff t (join h.blobs_dir sha),
    )
