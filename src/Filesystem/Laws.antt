-- ===== src/Filesystem/Laws.antt =====
-- What the calls leave alone: the files, under the making of directories.
use oci_tool.Prelude.{
  false, ◌==◌, ◌||◌, if◌then◌else◌, Bool-cases, inr, ◌≡◌, ◌≢◌, ◌⊎◌, inl, refl, List, [], ◌∷◌, ◌++◌,
  Option, none, true, ℕ, some, Text, text_eq, text_beq_iff, arith,
}
use oci_tool.Prelude.Dict.{Dict, lookup, lookup-insert, lookup-erase}
use oci_tool.Filesystem.{
  drop_below, remove_all, write_file, Disk, Node, file, directory, make_directory, make_directories,
  create_directories, append_file, contents, copy_file, remove_file, exists, put_node, is_directory,
  can_write,
}
use oci_tool.Filesystem.Paths.{parent_path, ancestors, is_below}

make_directory-files :
    (p q : Text) (b : List ℕ) (d : Disk)
    → lookup q (make_directory p d).1.nodes ≡ some (file b)
    → lookup q d.nodes ≡ some (file b)
unfolding make_directory
make_directory-files p q b d e =
    ground (arith, lookup-insert q p directory d.nodes, text_beq_iff p q)

make_directories-files :
    (ps : List Text) (q : Text) (b : List ℕ) (d : Disk)
    → lookup q (make_directories ps d).1.nodes ≡ some (file b)
    → lookup q d.nodes ≡ some (file b)
unfolding make_directories
make_directories-files [] q b d e = e
make_directories-files (p ∷ ps) q b d e =
    ground
      (arith, make_directory-files p q b d, make_directories-files ps q b (make_directory p d).1)

-- Making directories makes no file.
pub create_directories-files :
    (p q : Text) (b : List ℕ) (d : Disk)
    → lookup q (create_directories p d).1.nodes ≡ some (file b)
    → lookup q d.nodes ≡ some (file b)
unfolding create_directories
create_directories-files p q b d e = make_directories-files (ancestors p) q b d e

make_directory-draws : (p : Text) (d : Disk) → (make_directory p d).1.draws ≡ d.draws
unfolding make_directory
make_directory-draws p d = ground arith

make_directories-draws : (ps : List Text) (d : Disk) → (make_directories ps d).1.draws ≡ d.draws
unfolding make_directories
make_directories-draws [] d = refl
make_directories-draws (p ∷ ps) d =
    ground (arith, make_directory-draws p d, make_directories-draws ps (make_directory p d).1)

pub create_directories-draws : (p : Text) (d : Disk) → (create_directories p d).1.draws ≡ d.draws
unfolding create_directories
create_directories-draws p d = make_directories-draws (ancestors p) d

-- An append touches its own path only.
pub append_file-other :
    (p q : Text) (part : List ℕ) (d : Disk)
    → p ≢ q
    → lookup q (append_file p part d).1.nodes ≡ lookup q d.nodes
unfolding append_file
append_file-other p q part d ne = ground (
  arith,
  lookup-insert q p (file (contents (lookup p d.nodes))) d.nodes,
  lookup-insert q p (file (contents (lookup p d.nodes) ++ part)) d.nodes,
  text_beq_iff p q,
)

pub append_file-draws :
    (p : Text) (part : List ℕ) (d : Disk) → (append_file p part d).1.draws ≡ d.draws
unfolding append_file
append_file-draws p part d = ground arith

-- After a copy on a disk with room, a file is one that was there, or the copy.
pub copy_file-files :
    (from to q : Text) (b : List ℕ) (d : Disk)
    → d.full ≡ false
    → lookup q (copy_file from to d).1.nodes ≡ some (file b)
    → (lookup q d.nodes ≡ some (file b)) ⊎ ((to ≡ q) × (lookup from d.nodes ≡ some (file b)))
unfolding copy_file
copy_file-files from to q b d room e = copied (lookup from d.nodes) refl
  where
    copied :
        (o : Option Node)
        → lookup from d.nodes ≡ o
        → (lookup q d.nodes ≡ some (file b)) ⊎ ((to ≡ q) × (lookup from d.nodes ≡ some (file b)))
    copied none at = inl (ground arith)
    copied (some directory) at = inl (ground arith)
    copied (some (file c)) at =
        ground (arith, lookup-insert q to (file c) d.nodes, text_beq_iff to q)

pub copy_file-full : (from to : Text) (d : Disk) → (copy_file from to d).1.full ≡ d.full
unfolding copy_file
copy_file-full from to d = ground arith

pub append_file-full :
    (p : Text) (part : List ℕ) (d : Disk) → (append_file p part d).1.full ≡ d.full
unfolding append_file
append_file-full p part d = ground arith

make_directories-full : (ps : List Text) (d : Disk) → (make_directories ps d).1.full ≡ d.full
unfolding make_directories make_directory
make_directories-full [] d = refl
make_directories-full (p ∷ ps) d = ground (arith, make_directories-full ps (make_directory p d).1)

make_directories-is_directory :
    (ps : List Text) (q : Text) (d : Disk)
    → is_directory d q ≡ true
    → is_directory (make_directories ps d).1 q ≡ true
unfolding make_directories make_directory is_directory
make_directories-is_directory [] q d e = e
make_directories-is_directory (p ∷ ps) q d e = ground (
  arith,
  lookup-insert q p directory d.nodes,
  text_beq_iff p q,
  make_directories-is_directory ps q (make_directory p d).1,
)

pub create_directories-is_directory :
    (p q : Text) (d : Disk)
    → is_directory d q ≡ true
    → is_directory (create_directories p d).1 q ≡ true
unfolding create_directories
create_directories-is_directory p q d e = make_directories-is_directory (ancestors p) q d e

pub create_directories-full : (p : Text) (d : Disk) → (create_directories p d).1.full ≡ d.full
unfolding create_directories
create_directories-full p d = make_directories-full (ancestors p) d

pub copy_file-draws : (from to : Text) (d : Disk) → (copy_file from to d).1.draws ≡ d.draws
unfolding copy_file
copy_file-draws from to d = ground arith

pub remove_file-files :
    (p q : Text) (b : List ℕ) (d : Disk)
    → lookup q (remove_file p d).nodes ≡ some (file b)
    → lookup q d.nodes ≡ some (file b)
unfolding remove_file
remove_file-files p q b d e = ground (arith, lookup-erase q p d.nodes)

pub remove_file-full : (p : Text) (d : Disk) → (remove_file p d).full ≡ d.full
unfolding remove_file
remove_file-full p d = refl

pub remove_all-full : (p : Text) (d : Disk) → (remove_all p d).full ≡ d.full
unfolding remove_all
remove_all-full p d = refl

pub remove_file-draws : (p : Text) (d : Disk) → (remove_file p d).draws ≡ d.draws
unfolding remove_file
remove_file-draws p d = refl

lookup-drop_below :
    (p q : Text) (d : Dict Node)
    → lookup q (drop_below p d) ≡ (if is_below p q || q == p then none else lookup q d)
unfolding drop_below lookup
lookup-drop_below p q [] = ground arith
lookup-drop_below p q ((r, n) ∷ d) = ground (arith, text_beq_iff r q, lookup-drop_below p q d)

pub remove_all-files :
    (p q : Text) (b : List ℕ) (d : Disk)
    → lookup q (remove_all p d).nodes ≡ some (file b)
    → lookup q d.nodes ≡ some (file b)
unfolding remove_all
remove_all-files p q b d e = ground (arith, lookup-drop_below p q d.nodes)

pub remove_all-draws : (p : Text) (d : Disk) → (remove_all p d).draws ≡ d.draws
unfolding remove_all
remove_all-draws p d = refl

-- What a written file changes for the tests on other paths: nothing that was there is lost.
pub exists-put_node :
    (p q : Text) (n : Node) (d : Disk) → exists d q ≡ true → exists (put_node p n d) q ≡ true
unfolding exists
exists-put_node p q n d e = ground (arith, lookup-insert q p n d.nodes)

pub is_directory-put_node :
    (p q : Text) (b : List ℕ) (d : Disk)
    → can_write d p ≡ true
    → is_directory d q ≡ true
    → is_directory (put_node p (file b) d) q ≡ true
unfolding is_directory can_write
is_directory-put_node p q b d w e =
    ground (arith, lookup-insert q p (file b) d.nodes, text_beq_iff p q)

pub can_write-put_node :
    (p : Text) (b : List ℕ) (d : Disk) → can_write (put_node p (file b) d) p ≡ true
unfolding can_write
can_write-put_node p b d = ground (arith, lookup-insert p p (file b) d.nodes, text_beq_iff p p)

-- Writing a file: its own path, the others, and the directories.
pub write_file-other :
    (p q : Text) (t : List ℕ) (d : Disk)
    → p ≢ q
    → lookup q (write_file p t d).nodes ≡ lookup q d.nodes
unfolding write_file
write_file-other p q t d ne =
    ground (arith, lookup-insert q p (file (if d.full then [] else t)) d.nodes, text_beq_iff p q)

pub write_file-shut :
    (p : Text) (t : List ℕ) (d : Disk)
    → exists d p ≡ false
    → is_directory d (parent_path p) ≡ false
    → write_file p t d ≡ d
unfolding write_file can_write exists
write_file-shut p t d absent shut = ground arith

pub write_file-free :
    (p : Text) (t : List ℕ) (d : Disk)
    → exists d p ≡ false
    → is_directory d (parent_path p) ≡ true
    → d.full ≡ false
    → lookup p (write_file p t d).nodes ≡ some (file t)
unfolding write_file can_write exists
write_file-free p t d absent room space =
    ground (arith, lookup-insert p p (file t) d.nodes, text_beq_iff p p)

pub write_file-is_directory :
    (p q : Text) (t : List ℕ) (d : Disk)
    → is_directory d q ≡ true
    → is_directory (write_file p t d) q ≡ true
unfolding write_file
write_file-is_directory p q t d e = elim (Bool-cases (can_write d p)) [
  | inl w ↦ rw w (is_directory-put_node p q (if d.full then [] else t) d w e)
  | inr w ↦ rw w e
]

pub write_file-full : (p : Text) (t : List ℕ) (d : Disk) → (write_file p t d).full ≡ d.full
unfolding write_file
write_file-full p t d = ground arith

-- What was there is there after a write, a draw is not used up, and the file that is written is the
-- only one that may be new.
pub write_file-exists :
    (p q : Text) (t : List ℕ) (d : Disk) → exists d q ≡ true → exists (write_file p t d) q ≡ true
unfolding write_file
write_file-exists p q t d e =
    ground (arith, exists-put_node p q (file (if d.full then [] else t)) d e)

pub write_file-draws : (p : Text) (t : List ℕ) (d : Disk) → (write_file p t d).draws ≡ d.draws
unfolding write_file
write_file-draws p t d = ground arith

pub remove_file-exists :
    (p q : Text) (d : Disk) → p ≢ q → exists d q ≡ true → exists (remove_file p d) q ≡ true
unfolding remove_file exists
remove_file-exists p q d ne e = ground (arith, lookup-erase q p d.nodes, text_beq_iff p q)
