-- ===== src/Dir.antt =====
-- The client of a directory tree, src/lib/OCI/Extensions/Dir.cpp: its state beside the disk, and
-- the blobs. Its calls run one at a time, so DIR_MUTEX is no part of the state.
pub mod Blobs
pub mod Uuid
pub mod Manifests
pub mod Lists
pub mod Lifecycle
pub mod Listing
pub mod AsClient
use oci_tool.Prelude.{
  ℕ, ◌+◌, ◌≡◌, Bool, true, false, not, ◌&&◌, ◌||◌, Option, none, some, List, [], ◌∷◌, ◌++◌, map,
  Text, text_eq, nat_eq, ◌==◌, if◌then◌else◌, codes, length, take, drop, suc, zero, ltb, ◌-◌, Exec,
  runtime_error, filesystem_error, Outcome, returns, throws, diverges, throw, pure, ◌>>=◌, ◌>>◌,
}
use oci_tool.Prelude.Dict.{lookup}
use oci_tool.Filesystem.{Disk, Node, directory, file, contents}
use oci_tool.Filesystem.Paths.{join}
use oci_tool.Schema2.{ImageManifest}

-- The members of `Dir`; `temp_file` is empty while no blob is being received.
pub record Dir : Type 0 where
  pub bytes_written : ℕ
  pub directory : Text
  pub tree_root : Text
  pub blobs_dir : Text
  pub temp_dir : Text
  pub temp_file : Text

-- A client and the disk that it works on.
pub record Host : Type 0 where
  pub dir : Dir
  pub open dir use *
  pub disk : Disk
  pub open disk use *

abbrev pub set_disk : Disk → Host → Host
set_disk d h = record h { disk = d }

abbrev pub set_temp : Text → Host → Host
set_temp t h = record h { dir = record (h.dir) { temp_file = t } }

abbrev pub set_written : ℕ → Host → Host
set_written n h = record h { dir = record (h.dir) { bytes_written = n } }

-- A call on the disk, made by a method of the client.
abbrev pub on_disk : {A : Type 0} → Exec Disk A → Exec Host A
on_disk m h = let (r, d) = m h.disk in (r, set_disk d h)

-- `genUUID` over one draw of indices: its 62 characters.
uuid_char : ℕ → ℕ
uuid_char n = if ltb n 10 then b'0' + n else if ltb n 36 then b'A' + (n - 10) else b'a' + (n - 36)

unfoldable pub gen_uuid : List ℕ → Text
unfolding uuid_char
gen_uuid draw = map uuid_char draw

-- digestpp's SHA-256 as hexadecimal text.
module _ (sha256_hex : List ℕ → Text) where
  -- The name under which a blob is addressed.
  abbrev pub address : List ℕ → Text
  address b = codes "sha256:" ++ sha256_hex b

  -- A directory opens as a stream that reads nothing.
  file_validates : Text → Option Node → Bool
  file_validates sha none = false
  file_validates sha (some n) = sha == address (contents (some n))

  unfoldable pub validate_file : Text → Text → Disk → Bool
  unfolding file_validates
  validate_file sha path d = file_validates sha (lookup path d.nodes)
