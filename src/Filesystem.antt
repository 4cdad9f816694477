-- ===== src/Filesystem.antt =====
-- What the code uses of std::filesystem and of file streams, over one disk. A path is its text, and
-- a directory_entry is the path it was made from (`..` is not resolved). A write fails only where its
-- directory is missing or the disk is full; on a full disk a new file is left empty, and an append adds
-- nothing.
pub mod Paths
pub mod Laws
use oci_tool.Prelude.{
  ℕ, ◌≡◌, ◌++◌, Bool, true, false, not, ◌&&◌, ◌||◌, Option, none, some, List, [], ◌∷◌, Text,
  text_eq, ◌==◌, if◌then◌else◌, any, Exec, Exception, filesystem_error, returns, throws, throw,
  pure, ◌>>=◌, ◌>>◌,
}
use oci_tool.Prelude.Dict.{Dict, lookup, insert, erase}
use Paths.{slash, parent_path, ancestors, is_below}

pub data Node : Type 0 where
  directory : Node
  file : List ℕ → Node

pub record Disk : Type 0 where
  pub nodes : Dict Node
  pub full : Bool
  -- What std::random_device has in store for each call of `genUUID`.
  pub draws : List (List ℕ)

abbrev pub is_some {ℓ} : {A : Type ℓ} → Option A → Bool
is_some none = false
is_some (some a) = true

abbrev pub is_dir_node : Option Node → Bool
is_dir_node (some directory) = true
is_dir_node _ = false

abbrev pub contents : Option Node → List ℕ
contents (some (file b)) = b
contents _ = []

unfoldable pub exists : Disk → Text → Bool
exists d p = is_some (lookup p d.nodes)

unfoldable pub is_directory : Disk → Text → Bool
is_directory d p = is_dir_node (lookup p d.nodes)

unfoldable pub is_empty : Disk → Text → Bool
is_empty d p = not (any (λ (q, _). parent_path q == p) d.nodes)

abbrev pub put_node : Text → Node → Disk → Disk
put_node p n d = record d { nodes = insert p n d.nodes }

-- Each missing directory on the way is made; a file in its place is an error.
make_directory : Text → Exec Disk (Unit {0})
make_directory p d = elim (lookup p d.nodes) [
  | none ↦ pure tt (put_node p directory d)
  | some n ↦ elim n [ directory ↦ pure tt d | file b ↦ throw filesystem_error d ]
]

make_directories : List Text → Exec Disk (Unit {0})
make_directories [] d = pure tt d
make_directories (p ∷ ps) d = (make_directory p >> make_directories ps) d

unfoldable pub create_directories : Text → Exec Disk (Unit {0})
unfolding make_directories make_directory
create_directories p = make_directories (ancestors p)

-- A stream can be opened for writing on a file, or on a free name in a directory.
unfoldable pub can_write : Disk → Text → Bool
unfolding is_directory
can_write d p = elim (lookup p d.nodes) [
  | none ↦ is_directory d (parent_path p)
  | some n ↦ elim n [ directory ↦ false | file b ↦ true ]
]

-- `std::ofstream( p, app )` and one `write`: does the stream stay good? Opening makes the file.
unfoldable pub append_file : Text → List ℕ → Exec Disk Bool
unfolding can_write
append_file p part d =
    if can_write d p
    then (if d.full
        then (returns false, put_node p (file (contents (lookup p d.nodes))) d)
        else (returns true, put_node p (file (contents (lookup p d.nodes) ++ part)) d))
    else (returns false, d)

-- `std::ofstream( p )` and one `<<`: a stream that cannot be opened writes nothing.
unfoldable pub write_file : Text → List ℕ → Disk → Disk
unfolding can_write
write_file p text d = if can_write d p then put_node p (file (if d.full then [] else text)) d else d

-- `copy_file` throws if there is no file to copy, or the target is there or cannot be written. On a
-- full disk it throws behind the making of the target.
unfoldable pub copy_file : Text → Text → Exec Disk (Unit {0})
unfolding is_directory
copy_file from to d = elim (lookup from d.nodes) [
  | none ↦ throw filesystem_error d
  | some n ↦ elim n [
    | directory ↦ throw filesystem_error d
    | file b ↦
        if is_some (lookup to d.nodes) || not (is_directory d (parent_path to))
        then throw filesystem_error d
        else if d.full
        then throw filesystem_error (put_node to (file []) d)
        else pure tt (put_node to (file b) d)
  ]
]

unfoldable pub remove_file : Text → Disk → Disk
remove_file p d = record d { nodes = erase p d.nodes }

drop_below : Text → Dict Node → Dict Node
drop_below p [] = []
drop_below p ((q, n) ∷ d) =
    let rest = drop_below p d in if is_below p q || q == p then rest else (q, n) ∷ rest

unfoldable pub remove_all : Text → Disk → Disk
unfolding drop_below
remove_all p d = record d { nodes = drop_below p d.nodes }
