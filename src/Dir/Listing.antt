-- ===== src/Dir/Listing.antt =====
-- `dirMap`, `tagList` and `catalog` of src/lib/OCI/Extensions/Dir.cpp. The map of a directory and
-- the catalog are static: made once, for all clients.
pub mod Stale
use oci_tool.Prelude.{
  ℕ, zero, suc, ◌+◌, ◌%◌, Bool, true, false, not, ◌&&◌, ◌||◌, Option, none, some, List, [], ◌∷◌,
  ◌++◌, map, Text, text_eq, nat_eq, codes, ◌==◌, if◌then◌else◌, length, ltb, Exec, Exception,
  filesystem_error, logic_error, Outcome, returns, throws, diverges, throw, pure, in_range, ◌>>=◌,
  ◌>>◌, continue_with,
}
use oci_tool.Prelude.Strings.{find, npos, size_mod, find_last_of, substr, substr_n}
use oci_tool.Prelude.Dict.{Dict, lookup, insert}
use oci_tool.Filesystem.{Disk, Node, is_dir_node, exists, is_directory}
use oci_tool.Filesystem.Paths.{join, parent_path, filename}
use oci_tool.Dir.{Dir}
use oci_tool.Registry.Listing.{Tags}

-- `RepoDetails`
pub record RepoDetails : Type 0 where
  pub tags : List Text
  pub path : Dict Text

-- The disk, and the static maps.
pub record Site : Type 0 where
  pub disk : Disk
  pub maps : Dict (Dict RepoDetails)
  pub known : List Text

before : Text → Text → Bool
before s [] = false
before [] (b ∷ t) = true
before (a ∷ s) (b ∷ t) = ltb a b || (a == b && before s t)

-- `map[ k ] = v` of a map in the order of its keys.
unfoldable pub put : Text → RepoDetails → Dict RepoDetails → Dict RepoDetails
unfolding before
put k v [] = (k, v) ∷ []
put k v ((j, w) ∷ m) =
    if j == k then (k, v) ∷ m else if before k j then (k, v) ∷ (j, w) ∷ m else (j, w) ∷ put k v m

details : Option RepoDetails → RepoDetails
details none = record { tags = []; path = [] }
details (some r) = r

add_tag : Text → Text → Dict RepoDetails → Dict RepoDetails
unfolding details
add_tag repo tag m =
    let r = details (lookup repo m) in put repo (record r { tags = r.tags ++ tag ∷ [] }) m

add_path : Text → Text → Text → Dict RepoDetails → Dict RepoDetails
unfolding details
add_path repo target p m =
    let r = details (lookup repo m) in put repo (record r { path = insert target p r.path }) m

count_slashes : Text → ℕ
count_slashes [] = 0
count_slashes (c ∷ s) = (if c == b'/' then 1 else 0) + count_slashes s

-- Does `sub` occur in `s`?
is_front : Text → Text → Bool
is_front [] s = true
is_front (a ∷ t) [] = false
is_front (a ∷ t) (b ∷ s) = a == b && is_front t s

occurs_in : Text → Text → Bool
unfolding is_front
occurs_in sub [] = is_front sub []
occurs_in sub (c ∷ s) = is_front sub (c ∷ s) || occurs_in sub s

-- What a recursive_directory_iterator visits, a directory before what is in it.
entries_of : Text → Dict Node → List (Text × Node)
entries_of dir [] = []
entries_of dir ((q, n) ∷ nodes) =
    let rest = entries_of dir nodes in if parent_path q == dir then (q, n) ∷ rest else rest

walk_all : (Text → List (Text × Node)) → List (Text × Node) → List (Text × Node)
walk_all below [] = []
walk_all below ((q, n) ∷ es) =
    (q, n) ∷ (if is_dir_node (some n) then below q else []) ++ walk_all below es

-- A directory lies less deep than there are nodes.
walk : ℕ → Dict Node → Text → List (Text × Node)
unfolding walk_all entries_of
walk zero nodes dir = []
walk (suc n) nodes dir = walk_all (walk n nodes) (entries_of dir nodes)

-- The domain that the iterator is in, and the map so far.
record Walk : Type 0 where
  base : Text
  repos : Dict RepoDetails

abbrev change : (Dict RepoDetails → Dict RepoDetails) → Exec Walk (Unit {0})
change f w = (returns tt, record w { repos = f w.repos })

abbrev repo_of : Text → Exec Walk Text
repo_of repo_str = in_range (substr_n repo_str 0 (find repo_str b':'))

abbrev last_part : Text → Exec Walk Text
last_part repo_str = in_range (substr repo_str ((find_last_of repo_str b'/' + 1) % size_mod))

-- A directory `repo:tag`
see_tag : Disk → Text → Text → Exec Walk (Unit {0})
unfolding add_tag add_path
see_tag disk q repo_str = do
  tag ← in_range (substr repo_str ((find repo_str b':' + 1) % size_mod))
  repo ← repo_of repo_str
  change (add_tag repo tag)
  (if exists disk (join q (codes "ManifestList.json"))
      then change (add_path repo tag q)
      else pure tt)

-- The directory of an image, or a blob.
see_target : Text → Text → Exec Walk (Unit {0})
unfolding add_path
see_target q repo_str = do
  repo ← repo_of repo_str
  target ← last_part repo_str
  change (add_path repo target q)

see_entry : Disk → Text → Node → Text → Exec Walk (Unit {0})
unfolding see_tag see_target count_slashes occurs_in
see_entry disk q n repo_str =
    if is_dir_node (some n)
    then (if count_slashes repo_str == 1 then see_tag disk q repo_str else see_target q repo_str)
    else if occurs_in (codes "sha") repo_str && not (occurs_in (codes "json") repo_str)
    then see_target q repo_str
    else pure tt

visit : Text → Disk → Text → Node → Exec Walk (Unit {0})
unfolding see_entry
visit dir disk q n w =
    if is_dir_node (some n) && parent_path q == dir && not (find (filename q) b'.' == npos)
    then pure tt (record w { base = q })
    else if not (find q b':' == npos)
    then (in_range (substr q (length w.base + 1)) >>= see_entry disk q n) w
    else pure tt w

visit_all : Text → Disk → List (Text × Node) → Exec Walk (Unit {0})
unfolding visit
visit_all dir disk [] = pure tt
visit_all dir disk ((q, n) ∷ es) = visit dir disk q n >> visit_all dir disk es

unfoldable pub known_repos : Option (Dict RepoDetails) → Dict RepoDetails
known_repos none = []
known_repos (some m) = m

-- An exception leaves the map as far as it was made.
unfoldable pub make_map : Dir → Exec Site (Dict RepoDetails)
unfolding visit_all walk
make_map d s =
    if is_directory s.disk d.directory
    then (let (o, w) =
          visit_all d.directory s.disk (walk (length s.disk.nodes) s.disk.nodes d.directory)
            (record { base = d.directory; repos = [] }) in
        continue_with o (record s { maps = insert d.directory w.repos s.maps }) λ _. pure w.repos)
    else throw filesystem_error s

abbrev pub is_nil : Dict RepoDetails → Bool
is_nil [] = true
is_nil (x ∷ m) = false

unfoldable pub dir_map : Dir → Exec Site (Dict RepoDetails)
unfolding make_map known_repos
dir_map d s =
    let m = known_repos (lookup d.directory s.maps) in if is_nil m then make_map d s else pure m s

unfoldable pub tags_of : Text → Option RepoDetails → Tags
tags_of rsrc none = record { name = []; tags = [] }
tags_of rsrc (some r) = record { name = rsrc; tags = r.tags }

-- `tagList( rsrc )`
unfoldable pub tag_list : Dir → Text → Exec Site Tags
unfolding dir_map tags_of
tag_list d rsrc = dir_map d >>= λ m. pure (tags_of rsrc (lookup rsrc m))

unfoldable pub known_or : List Text → Dict RepoDetails → List Text
known_or [] m = map (λ e. e.0) m
known_or (r ∷ rs) m = r ∷ rs

unfoldable pub know : Dict RepoDetails → Exec Site (List Text)
unfolding known_or
know m s = (returns (known_or s.known m), record s { known = known_or s.known m })

-- `catalog()`
unfoldable pub catalog : Dir → Exec Site (List Text)
unfolding dir_map know
catalog d = dir_map d >>= know
