-- ===== src/Registry/Listing/Matching.antt =====
-- What `tagList` with a regular expression returns.
use oci_tool.Prelude.{
  ℕ, ◌≡◌, Bool, true, List, [], ◌∷◌, Text, All, Bool-cases, inl, inr, Outcome, returns, throws,
  diverges, runtime_error, filesystem_error, parse_error, json_error, logic_error, null_result,
  continue_with,
}
use oci_tool.Json.{JsonLib}
use oci_tool.Registry.Net.{Net}
use oci_tool.Registry.Auth.{Client}
use oci_tool.Registry.Listing.{Tags, filter_tags, or_no_tags, matching, tag_list, tag_list_matching}

-- The tags of a call that returns.
abbrev pub tags_of : Outcome Tags → List Text
tags_of (returns t) = t.tags
tags_of o = []

abbrev pub Matched : (Text → Bool) → Text → Type 0
Matched matches t = matches t ≡ true

filter_tags-Matched :
    (matches : Text → Bool) (ts : List Text) → All (Matched matches) (filter_tags matches ts)
unfolding filter_tags
filter_tags-Matched matches [] = tt
filter_tags-Matched matches (t ∷ ts) = elim (Bool-cases (matches t)) [
  | inl e ↦ rw (e) (e, filter_tags-Matched matches ts)
  | inr e ↦ rw (e) (filter_tags-Matched matches ts)
]

module _ (J : JsonLib) (N : Net J) where
  or_no_tags-Matched :
      (matches : Text → Bool) (o : Outcome Tags) (c : Client J N)
      → All
          (Matched matches)
          (tags_of (or_no_tags J N (continue_with o c (matching J N matches)).0))
  unfolding or_no_tags matching
  or_no_tags-Matched matches (returns t) c = filter_tags-Matched matches t.tags
  or_no_tags-Matched matches (throws (runtime_error what)) c = tt
  or_no_tags-Matched matches (throws filesystem_error) c = tt
  or_no_tags-Matched matches (throws parse_error) c = tt
  or_no_tags-Matched matches (throws json_error) c = tt
  or_no_tags-Matched matches (throws logic_error) c = tt
  or_no_tags-Matched matches (throws null_result) c = tt
  or_no_tags-Matched matches diverges c = tt

  -- Each tag that `tagList` with a regular expression returns is one that the expression matches,
  -- whatever the network answers.
  pub tag_list_matching-Matched :
      (matches : Text → Bool) (fuel : ℕ) (rsrc : Text) (c : Client J N)
      → All (Matched matches) (tags_of (tag_list_matching J N matches fuel rsrc c).0)
  unfolding tag_list_matching
  tag_list_matching-Matched matches fuel rsrc c =
      or_no_tags-Matched matches (tag_list J N fuel rsrc c).0 (tag_list J N fuel rsrc c).1
