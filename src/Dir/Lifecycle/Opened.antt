-- ===== src/Dir/Lifecycle/Opened.antt =====
-- What the constructor of a directory client leaves.
use oci_tool.Prelude.{
  ◌≡◌, refl, sym, subst, ap, true, false, none, some, Text, returns, Bool, ◌&&◌, bind-keeps,
  bind-result, Bool-cases, inl, inr, arith, ◌⊎◌, ◌>>◌, ◌∙◌,
}
use oci_tool.Filesystem.{Disk, is_directory, is_empty, create_directories}
use oci_tool.Filesystem.Laws.{create_directories-is_directory}
use oci_tool.Filesystem.Paths.{parent_path}
use oci_tool.Dir.{Dir}
use oci_tool.Dir.Lifecycle.{
  rooted, is_tree, make_tree, find_tree, open_tree, new_dir, without_slash,
}

-- A client between two blobs, whose directories are there; those of the named directory were there
-- before, on the disk `old`.
abbrev pub IsOpened : Text → Dir → Disk → Disk → Type 0
IsOpened t d old disk =
    (is_directory disk d.blobs_dir ≡ true)
    × (is_directory disk d.temp_dir ≡ true)
    × (root : Text) × (((root ≡ without_slash t) × (is_tree (rooted root root) old ≡ true))
        ⊎ (root ≡ parent_path (without_slash t)))
    × (d ≡ rooted (without_slash t) root)

opened :
    (t root : Text) (d : Dir) (old disk : Disk)
    → d ≡ rooted (without_slash t) root
    → ((root ≡ without_slash t) × (is_tree (rooted root root) old ≡ true))
      ⊎ (root ≡ parent_path (without_slash t))
    → is_tree (rooted (without_slash t) root) disk ≡ true
    → IsOpened t d old disk
unfolding is_tree
opened t root d old disk same at tree = (
  subst (λ (d : Dir). is_directory disk d.blobs_dir ≡ true) (sym same) (ground arith),
  subst (λ (d : Dir). is_directory disk d.temp_dir ≡ true) (sym same) (ground arith),
  root,
  at,
  same,
)

-- The two directories stay where they are while a tree is made.
make_tree-is_tree :
    (d r : Dir) (disk : Disk) → is_tree r disk ≡ true → is_tree r (make_tree d disk).1 ≡ true
unfolding make_tree is_tree
make_tree-is_tree d r disk tree = elim (Bool-cases (is_empty disk d.directory)) [
  | inr full ↦ rw full tree
  | inl empty ↦
      let blobs = create_directories-is_directory d.blobs_dir r.blobs_dir disk (ground arith) in
      let temp = create_directories-is_directory d.blobs_dir r.temp_dir disk (ground arith) in
      rw empty (
        bind-keeps (λ x. (is_directory x r.blobs_dir && is_directory x r.temp_dir) ≡ true)
          (create_directories d.blobs_dir) (λ _. create_directories d.temp_dir) disk (ground arith)
          λ _.
            let blobs' = create_directories-is_directory d.temp_dir r.blobs_dir _ blobs in
            let temp' = create_directories-is_directory d.temp_dir r.temp_dir _ temp in
            ground arith)
]

module _ (t : Text) where
  -- The directory that was named, as a root.
  abbrev own : Dir
  own = rooted (without_slash t) (without_slash t)

  find_tree-IsOpened :
      (d : Dir) (here : Bool) (old disk : Disk)
      → is_tree own old ≡ here
      → (here ≡ true → is_tree own disk ≡ true)
      → (find_tree here (without_slash t) disk).0 ≡ returns (some d)
      → IsOpened t d old (find_tree here (without_slash t) disk).1
  unfolding find_tree
  find_tree-IsOpened d true old disk was still e =
      opened t (without_slash t) d old disk (ground (arith, e)) (inl (refl, was)) (still refl)
  find_tree-IsOpened d false old disk was still e =
      elim (Bool-cases (is_tree (rooted (without_slash t) (parent_path (without_slash t))) disk)) [
        | inl above ↦ subst (IsOpened t d old) (ground (arith, above)) (
            opened t (parent_path (without_slash t)) d old disk (ground (arith, above, e))
              (inr refl) above)
        | inr none_at_all ↦ absurd (ground (arith, e))
      ]

  new_dir_there :
      (disk : Disk)
      → is_directory disk (without_slash t) ≡ true
      → new_dir t disk ≡ (make_tree own >> find_tree (is_tree own disk) (without_slash t)) disk
  unfolding new_dir open_tree
  new_dir_there disk there = rw there refl

  new_dir_missing :
      (disk : Disk)
      → is_directory disk (without_slash t) ≡ false
      → new_dir t disk ≡ (returns none, disk)
  unfolding new_dir open_tree
  new_dir_missing disk missing = rw missing refl

  -- When the constructor of a directory client returns, and does not abort the program, the
  -- directories of its blobs and temporary files are there, the client is between two blobs, and
  -- the root of its tree is the directory that was named (without a slash at its end), if it had
  -- both directories before the call, or the one above it.
  pub new_dir-IsOpened :
      (d : Dir) (disk : Disk)
      → (new_dir t disk).0 ≡ returns (some d)
      → IsOpened t d disk (new_dir t disk).1
  new_dir-IsOpened d disk e = elim (Bool-cases (is_directory disk (without_slash t))) [
    | inl there ↦
        let same = new_dir_there disk there in
        subst (λ x. IsOpened t d disk x.1) (sym same)
          (bind-result (IsOpened t d disk) (make_tree own) _ disk (some d)
            (ap (λ x. x.0) (sym same) ∙ e)
            λ _ last.
              find_tree-IsOpened d (is_tree own disk) disk _ refl (make_tree-is_tree own own disk)
                last)
    | inr missing ↦ absurd (cc (ap (λ x. x.0) (new_dir_missing disk missing), e))
  ]
