-- ===== src/Dir/Listing/Stale.antt =====
-- What is listed once is listed for ever.
use oci_tool.Prelude.{
  ◌≡◌, ◌≢◌, refl, sym, ap, subst, ◌∙◌, false, some, List, [], ◌∷◌, Text, text_eq, text_beq_iff,
  Outcome, returns, throws, diverges, continue_with, arith, pure,
}
use oci_tool.Prelude.Dict.{Dict, lookup, lookup-insert}
use oci_tool.Filesystem.{Disk}
use oci_tool.Dir.{Dir}
use oci_tool.Registry.Listing.{Tags}
use oci_tool.Dir.Listing.{
  RepoDetails, Site, is_nil, make_map, dir_map, known_repos, tags_of, tag_list, known_or, know,
  catalog,
}

-- The map that a call returns is kept.
make_map-kept :
    (d : Dir) (s : Site) (m : Dict RepoDetails)
    → (make_map d s).0 ≡ returns m
    → lookup d.directory (make_map d s).1.maps ≡ some m
unfolding make_map
make_map-kept d s m e =
    ground
      (arith, text_beq_iff d.directory d.directory, lookup-insert d.directory d.directory m s.maps)

dir_map-kept :
    (d : Dir) (s : Site) (m : Dict RepoDetails)
    → (dir_map d s).0 ≡ returns m
    → known_repos (lookup d.directory (dir_map d s).1.maps) ≡ m
unfolding dir_map known_repos
dir_map-kept d s m e = ground (arith, make_map-kept d s m)

-- A map that is not empty is not made again.
dir_map-known :
    (d' : Dir) (s : Site) (m : Dict RepoDetails)
    → known_repos (lookup d'.directory s.maps) ≡ m
    → is_nil m ≡ false
    → dir_map d' s ≡ (returns m, s)
unfolding dir_map
dir_map-known d' s m known some_repos = ground (arith, known)

tags-is_nil :
    (rsrc : Text) (m : Dict RepoDetails)
    → (tags_of rsrc (lookup rsrc m)).tags ≢ []
    → is_nil m ≡ false
unfolding tags_of lookup
tags-is_nil rsrc [] h = absurd (h refl)
tags-is_nil rsrc (e ∷ m) h = refl

again :
    (d d' : Dir) (rsrc : Text) (s : Site) (disk : Disk) (m : Dict RepoDetails)
    → d'.directory ≡ d.directory
    → (dir_map d s).0 ≡ returns m
    → is_nil m ≡ false
    → dir_map d' (record ((dir_map d s).1) { disk = disk })
      ≡ (returns m, record ((dir_map d s).1) { disk = disk })
again d d' rsrc s disk m same at some_repos =
    dir_map-known d' _ m
      (ap (λ p. known_repos (lookup p (dir_map d s).1.maps)) same ∙ dir_map-kept d s m at)
      some_repos

-- When `Dir::tagList` of a repository has returned some tags, each later call for that repository
-- by a client of the same directory returns the same, whatever the disk has become.
pub tag_list-stale :
    (d d' : Dir) (rsrc : Text) (s : Site) (disk : Disk) (t : Tags)
    → d'.directory ≡ d.directory
    → (tag_list d rsrc s).0 ≡ returns t
    → t.tags ≢ []
    → (tag_list d' rsrc (record ((tag_list d rsrc s).1) { disk = disk })).0 ≡ returns t
unfolding tag_list
tag_list-stale d d' rsrc s disk t same e some_tags = by_outcome _ refl e
  where
    by_outcome :
        (o : Outcome (Dict RepoDetails))
        → (dir_map d s).0 ≡ o
        → (continue_with o (dir_map d s).1 (λ m. pure (tags_of rsrc (lookup rsrc m)))).0 ≡ returns t
        → (tag_list d' rsrc (record ((tag_list d rsrc s).1) { disk = disk })).0 ≡ returns t
    by_outcome (returns m) at h =
        let read : tags_of rsrc (lookup rsrc m) ≡ t = ground (arith, h) in
        let some_repos =
          tags-is_nil rsrc m (subst (λ (t : Tags). t.tags ≢ []) (sym read) some_tags) in
        simp (at, again d d' rsrc s disk m same at some_repos) h
    by_outcome (throws x) at h = absurd (cc h)
    by_outcome diverges at h = absurd (cc h)

dir_map_known : (d : Dir) (s : Site) → (dir_map d s).1.known ≡ s.known
unfolding dir_map make_map
dir_map_known d s = ground arith

-- A call of `catalog` that returns leaves what it returns.
catalog-known :
    (d : Dir) (s : Site) (rs : List Text)
    → (catalog d s).0 ≡ returns rs
    → (catalog d s).1.known ≡ rs
unfolding catalog know
catalog-known d s rs e = by_outcome _ refl e
  where
    by_outcome :
        (o : Outcome (Dict RepoDetails))
        → (dir_map d s).0 ≡ o
        → (continue_with o (dir_map d s).1 know).0 ≡ returns rs
        → (catalog d s).1.known ≡ rs
    by_outcome (returns m) at h = simp (at) (ground (arith, h))
    by_outcome (throws x) at h = absurd (cc h)
    by_outcome diverges at h = absurd (cc h)

-- What is known is returned.
catalog-again :
    (d : Dir) (s : Site) (r : Text) (rs rs' : List Text)
    → s.known ≡ r ∷ rs
    → (catalog d s).0 ≡ returns rs'
    → rs' ≡ r ∷ rs
unfolding catalog know known_or
catalog-again d s r rs rs' known e = by_outcome _ refl e
  where
    by_outcome :
        (o : Outcome (Dict RepoDetails))
        → (dir_map d s).0 ≡ o
        → (continue_with o (dir_map d s).1 know).0 ≡ returns rs'
        → rs' ≡ r ∷ rs
    by_outcome (returns m) at h = ground (arith, h, dir_map_known d s, known)
    by_outcome (throws x) at h = absurd (cc h)
    by_outcome diverges at h = absurd (cc h)

-- When `Dir::catalog` has returned some repositories, and then returns for any other client, of
-- any directory and on any disk, it returns the repositories of the first.
pub catalog-shared :
    (d d' : Dir) (s : Site) (disk : Disk) (rs rs' : List Text)
    → (catalog d s).0 ≡ returns rs
    → rs ≢ []
    → (catalog d' (record ((catalog d s).1) { disk = disk })).0 ≡ returns rs'
    → rs' ≡ rs
catalog-shared d d' s disk [] rs' e some_repos e' = absurd (some_repos refl)
catalog-shared d d' s disk (r ∷ rs) rs' e some_repos e' =
    catalog-again d' _ r rs rs' (catalog-known d s (r ∷ rs) e) e'
