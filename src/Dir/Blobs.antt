-- ===== src/Dir/Blobs.antt =====
-- `hasBlob`, `putBlob` and `fetchBlob` of src/lib/OCI/Extensions/Dir.cpp for schema 2.
pub mod Sound
pub mod Integrity
pub mod Roots
pub mod Parts
pub mod Upload
pub mod Fetch
pub mod Transfer
use oci_tool.Prelude.{
  ℕ, ◌+◌, ◌%◌, ◌≡◌, Bool, true, false, not, ◌&&◌, Option, none, some, List, [], ◌∷◌, ◌++◌, Text,
  text_eq, nat_eq, ◌==◌, if◌then◌else◌, codes, length, leb, take, drop, suc, zero, Exec,
  runtime_error, filesystem_error, Outcome, returns, throws, diverges, throw, pure, get, modify,
  ◌>>=◌, ◌>>◌,
}
use oci_tool.Prelude.Strings.{size_mod}
use oci_tool.Prelude.Dict.{lookup}
use oci_tool.Filesystem.{
  Disk, contents, exists, create_directories, append_file, copy_file, remove_file,
}
use oci_tool.Filesystem.Paths.{join}
use oci_tool.Schema2.{ImageManifest}
use oci_tool.Dir.{Dir, Host, set_disk, set_temp, set_written, on_disk, gen_uuid, validate_file}

-- Where a blob of that digest lies.
abbrev pub blob_path : Host → Text → Text
blob_path h sha = join h.blobs_dir sha

unfoldable pub has_blob : Text → Host → Bool
has_blob sha h = exists h.disk (blob_path h sha)

unfoldable pub image_dir : Dir → ImageManifest → Text → Text
image_dir d im target =
    join (join (join d.directory im.origin_domain) (im.name ++ codes ":" ++ im.requested_target))
      target

-- The image's directory, made if it is not there.
unfoldable pub make_image_dir : Text → Exec Host (Unit {0})
make_image_dir p h = if exists h.disk p then pure tt h else on_disk (create_directories p) h

-- The search for a free temporary name, over the draws that are left.
choose_temp : List (List ℕ) → Exec Host (Unit {0})
choose_temp [] h = (diverges, h)
choose_temp (u ∷ us) h =
    let p = join h.temp_dir (gen_uuid u) in
    let h' = set_temp p (set_disk (record (h.disk) { draws = us }) h) in
    let again = choose_temp us h' in if exists h.disk p then again else pure tt h'

pub open_temp : Exec Host (Unit {0})
unfolding choose_temp
open_temp h = if h.temp_file == [] then choose_temp h.draws h else pure tt h

-- One part goes to the end of the temporary file.
append_temp : List ℕ → Exec Host Bool
append_temp part h = on_disk (append_file h.temp_file part) h

note_written : List ℕ → Bool → Exec Host Bool
note_written part good h =
    if good
    then pure true (set_written ((h.bytes_written + length part) % size_mod) h)
    else pure false h

pub write_part : List ℕ → Exec Host Bool
unfolding append_temp note_written
write_part part = do good ← append_temp part; note_written part good

clean_up : Exec Host (Unit {0})
clean_up h =
    let swept =
      if not (h.temp_file == []) && exists h.disk h.temp_file
      then set_disk (remove_file h.temp_file h.disk) h
      else h in
    pure tt (set_written 0 (set_temp [] swept))

module _ (sha256_hex : List ℕ → Text) where
  -- The complete file becomes the blob if it has the digest that it should have.
  copy_temp : Text → Exec Host Bool
  copy_temp sha h = (on_disk (copy_file h.temp_file (blob_path h sha)) >> pure true) h

  commit : Text → Exec Host Bool
  unfolding copy_temp
  commit sha h =
      if validate_file sha256_hex sha h.temp_file h.disk
      then (if exists h.disk (blob_path h sha) then pure true h else copy_temp sha h)
      else pure false h

  -- When all bytes are there: (clean_file, retVal).
  settle : Text → ℕ → Bool → Exec Host (Bool × Bool)
  unfolding commit
  settle sha total good h =
      if h.bytes_written == total
      then (do valid ← commit sha; pure (true, good && valid)) h
      else pure (false, good) h

  -- The part of `putBlob` for a blob that is not there.
  receive : Text → ℕ → List ℕ → Exec Host (Bool × Bool)
  unfolding open_temp write_part settle
  receive sha total part = do open_temp; good ← write_part part; settle sha total good

  take_part : Text → ℕ → List ℕ → Exec Host (Bool × Bool)
  unfolding receive
  take_part sha total part h =
      if has_blob sha h then pure (true, true) h else receive sha total part h

  finish : Bool × Bool → Exec Host Bool
  unfolding clean_up
  finish (clean, good) h = if clean then (clean_up >> pure good) h else pure good h

  put_part : ImageManifest → Text → Text → ℕ → List ℕ → Exec Host Bool
  unfolding take_part finish
  put_part im target sha total part h =
      (do make_image_dir (image_dir h.dir im target); r ← take_part sha total part; finish r) h

  unfoldable pub put_blob : ImageManifest → Text → Text → ℕ → List ℕ → Exec Host Bool
  unfolding put_part
  put_blob im target sha total part h =
      if h.blobs_dir == []
      then throw (runtime_error (codes "blobs_dir_ is empty")) h
      else if h.directory == []
      then throw (runtime_error (codes "directory_ is empty")) h
      else put_part im target sha total part h

-- The buffer of `fetchBlob`.
abbrev pub buffer_size : ℕ
buffer_size = 4096

-- The loop of `fetchBlob` over a buffer of `size` bytes, while the stream is good and the callback
-- accepts: a read that fills the buffer leaves the stream good, a shorter one ends it, and one that
-- reads nothing is an error.
unfoldable pub read_loop : {S : Type 0} → ℕ → ℕ → List ℕ → (List ℕ → Exec S Bool) → Exec S Bool
read_loop size zero rest call_back s = (diverges, s)
read_loop size (suc fuel) [] call_back s = throw (runtime_error (codes "read failed")) s
read_loop size (suc fuel) (x ∷ rest) call_back s =
    let more = read_loop size fuel (drop size (x ∷ rest)) call_back in
    (do
      accepted ← call_back (take size (x ∷ rest))
      if accepted && leb size (length (x ∷ rest)) then more else pure accepted)
      s

-- The stream reads the blob as it was when it was opened. One round more than there are bytes is
-- fuel enough.
unfoldable pub fetch_blob : {S : Type 0} → Dir → Disk → Text → (List ℕ → Exec S Bool) → Exec S Bool
unfolding read_loop
fetch_blob d disk sha call_back s =
    elim (lookup (join (join d.tree_root (codes "blobs")) sha) disk.nodes) [
      | none ↦ pure true s
      | some n ↦
          read_loop buffer_size (suc (length (contents (some n)))) (contents (some n)) call_back s
    ]
