-- ===== src/YamlClient/Catalogs.antt =====
-- What `catalog( domain )` returns, and what becomes of the tags that the file names.
use oci_tool.Prelude.{
  ◌≡◌, refl, sym, ◌∙◌, ap, subst, true, false, none, some, List, [], ◌∷◌, map, Text, text_eq,
  nat_eq, codes, ◌==◌, All, returns, Bool-cases, inl, inr, arith, text_beq_iff, Option-cases,
}
use oci_tool.Prelude.Strings.{find, npos}
use oci_tool.Prelude.Dict.{Dict, lookup, insert, lookup-insert}
use oci_tool.Registry.Listing.{Tags}
use oci_tool.YamlFile.{Catalog}
use oci_tool.YamlClient.{
  Connector, YamlClient, qualify, at, open_domain, qualify_all, qualified, catalog_for, named_tags,
  ask_tags, tags_or_ask, tag_list,
}

-- A name with a slash.
abbrev pub IsQualified : Text → Type 0
IsQualified r = (find r b'/' == npos) ≡ false

qualify-IsQualified : (r : Text) → IsQualified (qualify r)
unfolding qualify
qualify-IsQualified r = elim (Bool-cases (find r b'/' == npos)) [
  | inl short ↦ rw short (unfold find codes in refl)
  | inr long ↦ rw (long) long
]

map-IsQualified : (rs : List Text) → All IsQualified (map qualify rs)
map-IsQualified [] = tt
map-IsQualified (r ∷ rs) = (qualify-IsQualified r, map-IsQualified rs)

qualify-qualified : (r : Text) → IsQualified r → qualify r ≡ r
unfolding qualify
qualify-qualified r q = rw q

map-qualify_twice : (rs : List Text) → map qualify (map qualify rs) ≡ map qualify rs
map-qualify_twice [] = refl
map-qualify_twice (r ∷ rs) =
    simp (qualify-qualified (qualify r) (qualify-IsQualified r), map-qualify_twice rs)

module _ (C : Connector) where
  -- What a call of `catalog( domain )` that returns has found and left.
  record Opened (domain : Text) (y : YamlClient C) (repos : List Text) : Type 0 where
    old : List Text
    found : lookup domain y.catalog.catalogs ≡ some old
    returned : repos ≡ map qualify old
    left :
        (catalog_for C domain y).1.catalog
        ≡ record (y.catalog) { catalogs = insert domain (map qualify old) y.catalog.catalogs }
    current : (catalog_for C domain y).1.current_domain ≡ domain

  catalog_for-Opened :
      (domain : Text) (y : YamlClient C) (repos : List Text)
      → (catalog_for C domain y).0 ≡ returns repos
      → Opened domain y repos
  unfolding catalog_for open_domain qualified qualify_all
  catalog_for-Opened domain y repos e = elim (Option-cases (lookup domain y.catalog.catalogs)) [
    | inl missing ↦ absurd (ground arith)
    | inr (old, found) ↦ record {
      old = old;
      found = found;
      returned = ground arith;
      left = ground arith;
      current = ground arith;
    }
  ]

  -- If `catalog` of a domain returns, and then returns again, then the repositories of the first
  -- call all have a slash in their names, and those of the second call are the same.
  pub catalog_for-twice :
      (domain : Text) (y : YamlClient C) (repos repos' : List Text)
      → (catalog_for C domain y).0 ≡ returns repos
      → (catalog_for C domain (catalog_for C domain y).1).0 ≡ returns repos'
      → All IsQualified repos × (repos' ≡ repos)
  catalog_for-twice domain y repos repos' e e' =
      let first = catalog_for-Opened domain y repos e in
      let second = catalog_for-Opened domain (catalog_for C domain y).1 repos' e' in
      (
        subst (All IsQualified) (sym first.returned) (map-IsQualified first.old),
        second.returned
            ∙ ap (map qualify) (same_old first second)
            ∙ map-qualify_twice first.old
            ∙ sym first.returned,
      )
    where
      same_old :
          (first : Opened domain y repos) (second : Opened domain (catalog_for C domain y).1 repos')
          → second.old ≡ map qualify first.old
      same_old first second = ground (
        arith,
        first.left,
        second.found,
        text_beq_iff domain domain,
        lookup-insert domain domain (map qualify first.old) y.catalog.catalogs,
      )

  -- Tags that the file names for short names only.
  abbrev pub IsShort : Dict Tags → Type 0
  IsShort ts = All (λ (k, t). (find k b'/' == npos) ≡ true) ts

  lookup-IsShort : (r : Text) (ts : Dict Tags) → IsQualified r → IsShort ts → lookup r ts ≡ none
  unfolding lookup
  lookup-IsShort r [] q short = refl
  lookup-IsShort r ((k, t) ∷ ts) q (s, short) =
      ground (arith, text_beq_iff k r, lookup-IsShort r ts q short)

  tag_list-qualified :
      (r : Text) (y : YamlClient C) (ts : Dict Tags)
      → lookup y.current_domain y.catalog.tags ≡ some ts
      → IsShort ts
      → IsQualified r
      → tag_list C r y ≡ ask_tags C r y
  unfolding tag_list tags_or_ask named_tags
  tag_list-qualified r y ts has short q = ground (arith, lookup-IsShort r ts q short)

  -- If the file names tags of a domain for repositories with no slash alone, then after `catalog`
  -- of the domain has returned, `tagList` of each of the repositories that it returned asks the
  -- registry: the tags of the file are never used.
  pub tag_list-unnamed :
      (domain : Text) (y : YamlClient C) (repos : List Text) (ts : Dict Tags)
      → (catalog_for C domain y).0 ≡ returns repos
      → lookup domain y.catalog.tags ≡ some ts
      → IsShort ts
      → All
          (λ r. tag_list C r (catalog_for C domain y).1 ≡ ask_tags C r (catalog_for C domain y).1)
          repos
  tag_list-unnamed domain y repos ts e has short =
      let opened = catalog_for-Opened domain y repos e in
      each repos (subst (All IsQualified) (sym opened.returned) (map-IsQualified opened.old)) (
        ap (λ d. lookup d (catalog_for C domain y).1.catalog.tags) opened.current
        ∙ ap (λ (c : Catalog). lookup domain c.tags) opened.left
        ∙ has)
    where
      each :
          (rs : List Text)
          → All IsQualified rs
          → lookup (catalog_for C domain y).1.current_domain (catalog_for C domain y).1.catalog.tags
            ≡ some ts
          → All
              (λ r.
                tag_list C r (catalog_for C domain y).1 ≡ ask_tags C r (catalog_for C domain y).1)
              rs
      each [] q at = tt
      each (r ∷ rs) (q, qs) at = (tag_list-qualified r _ ts at short q, each rs qs at)
