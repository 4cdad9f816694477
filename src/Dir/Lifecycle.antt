-- ===== src/Dir/Lifecycle.antt =====
-- The constructors, the destructor, assignment, `copy` and `swap` of src/lib/OCI/Extensions/Dir.cpp.
pub mod Opened
use oci_tool.Prelude.{
  ℕ, ◌-◌, ◌+◌, ◌%◌, Bool, true, false, not, ◌&&◌, Option, none, some, List, [], Text, text_eq,
  nat_eq, codes, ◌==◌, if◌then◌else◌, length, take, Exec, Outcome, returns, pure, ◌>>=◌, ◌>>◌,
}
use oci_tool.Prelude.Strings.{find_last_of, size_mod}
use oci_tool.Filesystem.{Disk, exists, is_directory, is_empty, create_directories, remove_file}
use oci_tool.Filesystem.Paths.{join, parent_path}
use oci_tool.Dir.{Dir}

-- The directory that was named, without a slash at its end. The size is that of a std::string.
unfoldable pub without_slash : Text → Text
without_slash t =
    if find_last_of t b'/' == (length t + size_mod - 1) % size_mod
    then take (find_last_of t b'/') t
    else t

-- The members for a named directory, and the root of its tree.
abbrev pub rooted : Text → Text → Dir
rooted directory root = record {
  bytes_written = 0;
  directory = directory;
  tree_root = root;
  blobs_dir = join root (codes "blobs");
  temp_dir = join root (codes "temp");
  temp_file = [];
}

unfoldable pub is_tree : Dir → Disk → Bool
is_tree d disk = is_directory disk d.blobs_dir && is_directory disk d.temp_dir

-- An empty directory becomes a tree.
make_tree : Dir → Exec Disk (Unit {0})
make_tree d disk =
    if is_empty disk d.directory
    then (create_directories d.blobs_dir >> create_directories d.temp_dir) disk
    else pure tt disk

-- The directory was a tree, or is one domain of the tree above it; else the program aborts.
find_tree : Bool → Text → Exec Disk (Option Dir)
unfolding is_tree
find_tree here p disk =
    if here
    then pure (some (rooted p p)) disk
    else if is_tree (rooted p (parent_path p)) disk
    then pure (some (rooted p (parent_path p))) disk
    else pure none disk

-- The entries of the two directories are made, and keep what they are, before a tree is made.
unfoldable pub open_tree : Text → Exec Disk (Option Dir)
unfolding make_tree find_tree
open_tree p disk =
    if is_directory disk p
    then (make_tree (rooted p p) >> find_tree (is_tree (rooted p p) disk) p) disk
    else pure none disk

-- `Dir( directory )`: `none` where it calls std::abort.
unfoldable pub new_dir : Text → Exec Disk (Option Dir)
unfolding open_tree without_slash
new_dir t = open_tree (without_slash t)

-- The copy constructor, and `copy`.
unfoldable pub copy_of : Dir → Dir
copy_of other = record other { bytes_written = 0; temp_file = [] }

-- The move constructor leaves the temporary file to the other one.
unfoldable pub moved : Dir → Dir
moved other = record other { temp_file = [] }

-- Move assignment: a count and a temporary file stay as they are.
unfoldable pub assign : Dir → Dir → Dir
assign d other = record other { bytes_written = d.bytes_written; temp_file = d.temp_file }

-- `swap` leaves out the temporary files.
unfoldable pub swap : Dir → Dir → Dir × Dir
swap d other = (record other { temp_file = d.temp_file }, record d { temp_file = other.temp_file })

-- `~Dir`
unfoldable pub destroy : Dir → Disk → Disk
destroy d disk =
    if not (d.temp_file == []) && exists disk d.temp_file
    then remove_file d.temp_file disk
    else disk
