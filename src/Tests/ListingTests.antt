-- ===== src/Tests/ListingTests.antt =====
-- A tree with the tag "v1" of the repository "l/r" of "a.io".
use oci_tool.Prelude.{◌≡◌, refl, false, none, some, [], ◌∷◌, text_beq, codes, returns, arith}
use oci_tool.Prelude.Strings.{find, find_last_of, substr, substr_n}
use oci_tool.Prelude.Dict.{Dict, lookup, insert}
use oci_tool.Filesystem.{Disk, Node, directory, exists, is_directory, is_empty, create_directories}
use oci_tool.Filesystem.Paths.{join, stem, parent_path, ancestors, filename}
use oci_tool.Dir.{Dir}
use oci_tool.Dir.Lifecycle.{rooted, new_dir, open_tree, without_slash}
use oci_tool.Dir.Lifecycle.Opened.{IsOpened, new_dir-IsOpened}
use oci_tool.Dir.Listing.{Site, tag_list, catalog, put}
use oci_tool.Dir.Listing.Stale.{tag_list-stale, catalog-shared}

abbrev disk : Dict Node → Disk
disk nodes = record { nodes = nodes; full = false; draws = [] }

abbrev blank : Disk
blank = disk ((codes "/t", directory) ∷ [])

-- An empty directory is made a tree, and the program aborts.
aborts : (new_dir (codes "/t/") blank).0 ≡ returns none
unfolding new_dir open_tree without_slash is_directory lookup text_beq codes find_last_of is_empty
    parent_path create_directories ancestors join stem insert
aborts = refl

abbrev tree : Disk
tree =
    disk
      ((codes "/t", directory) ∷ (codes "/t/blobs", directory) ∷ (codes "/t/temp", directory) ∷ [])

abbrev opened : Dir
opened = rooted (codes "/t") (codes "/t")

opens : (new_dir (codes "/t/") tree).0 ≡ returns (some opened)
unfolding new_dir open_tree without_slash is_directory lookup text_beq codes find_last_of is_empty
    parent_path create_directories ancestors join stem insert
opens = refl

new_dir-IsOpened_example : IsOpened (codes "/t/") opened tree (new_dir (codes "/t/") tree).1
new_dir-IsOpened_example = new_dir-IsOpened (codes "/t/") opened tree opens

abbrev site : Site
site = record {
  disk = disk (
      (codes "/t", directory)
      ∷ (codes "/t/a.io", directory)
      ∷ (codes "/t/a.io/l", directory)
      ∷ (codes "/t/a.io/l/r:v1", directory)
      ∷ []);
  maps = [];
  known = [];
}

listed :
    (tag_list opened (codes "l/r") site).0
    ≡ returns (record { name = codes "l/r"; tags = codes "v1" ∷ [] })
unfolding tag_list lookup is_directory text_beq codes parent_path find filename substr substr_n
    find_last_of insert put exists join stem
listed = refl

-- The disk is empty by now.
tag_list-stale_example :
    (tag_list opened
      (codes "l/r")
      (record ((tag_list opened (codes "l/r") site).1) { disk = disk [] })).0
    ≡ returns (record { name = codes "l/r"; tags = codes "v1" ∷ [] })
tag_list-stale_example =
    tag_list-stale opened opened (codes "l/r") site (disk [])
      (record { name = codes "l/r"; tags = codes "v1" ∷ [] }) refl listed (λ e. ground (arith, e))

known : (catalog opened site).0 ≡ returns (codes "l/r" ∷ [])
unfolding catalog lookup is_directory text_beq codes parent_path find filename substr substr_n
    find_last_of insert put exists join stem
known = refl

abbrev other : Dir
other = rooted (codes "/u") (codes "/u")

-- A tree under /u with another repository.
abbrev elsewhere : Disk
elsewhere = disk (
    (codes "/u", directory) ∷ (codes "/u/b.io", directory) ∷ (codes "/u/b.io/q:v2", directory) ∷ [])

known_elsewhere :
    (catalog other (record ((catalog opened site).1) { disk = elsewhere })).0
    ≡ returns (codes "l/r" ∷ [])
unfolding catalog lookup is_directory text_beq codes parent_path find filename substr substr_n
    find_last_of insert put exists join stem
known_elsewhere = refl

catalog-shared_example : (codes "l/r" ∷ []) ≡ (codes "l/r" ∷ [])
catalog-shared_example =
    catalog-shared opened other site elsewhere (codes "l/r" ∷ []) (codes "l/r" ∷ []) known
      (λ e. ground (arith, e)) known_elsewhere
