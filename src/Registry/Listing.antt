-- ===== src/Registry/Listing.antt =====
-- include/OCI/Tags.hpp with its `from_json`, and `tagList` of src/lib/OCI/Registry/Client.cpp, which is
-- given the fuel for `auth`.
pub mod Matching
use oci_tool.Prelude.{
  ℕ, Bool, true, false, Option, none, some, List, [], ◌∷◌, ◌++◌, Text, nat_eq, codes, ◌==◌,
  if◌then◌else◌, Exec, Outcome, returns, throws, diverges, runtime_error, filesystem_error,
  json_error, throw, pure, ◌>>=◌, ◌>>◌,
}
use oci_tool.Json.{JsonLib, at_text}
use oci_tool.Schema2.Json.{get_texts}
use oci_tool.Registry.Net.{Net, Response, Method}
use oci_tool.Registry.Auth.{parse_json, Client, auth}
use oci_tool.Registry.Queries.{ask}

pub record Tags : Type 0 where
  pub name : Text
  pub tags : List Text

abbrev no_tags : Tags
no_tags = record { name = []; tags = [] }

unfoldable pub filter_tags : (Text → Bool) → List Text → List Text
filter_tags matches [] = []
filter_tags matches (t ∷ ts) =
    let rest = filter_tags matches ts in if matches t then t ∷ rest else rest

module _ (J : JsonLib) (N : Net J) where
  abbrev Calls : Type 0 → Type 0
  Calls A = Exec (Client J N) A

  abbrev or_json_error : {A : Type 0} → Option A → Calls A
  or_json_error none = throw json_error
  or_json_error (some a) = pure a

  tags_from_json : J.Obj → Calls Tags
  tags_from_json o = do
    name ← or_json_error (at_text J o (codes "name"))
    j ← or_json_error (J.find o (codes "tags"))
    tags ← or_json_error (get_texts J j)
    pure (record { name = name; tags = tags })

  parse_tags : Text → Calls Tags
  unfolding tags_from_json
  parse_tags body = do j ← parse_json J N body; o ← or_json_error (J.get_object j); tags_from_json o

  tags_answer : Option Response → Calls Tags
  unfolding parse_tags
  tags_answer none c = pure no_tags c
  tags_answer (some r) c = if r.status == 200 then parse_tags r.body c else pure no_tags c

  renew_tags : ℕ → Text → Option Response → Calls (Option Response)
  renew_tags fuel rsrc none c = pure none c
  renew_tags fuel rsrc (some r) c =
      if r.status == 401
      then (auth J N fuel r.header (codes "repository:" ++ rsrc ++ codes ":pull")
            >> ask J N Method.get (codes "/v2/" ++ rsrc ++ codes "/tags/list") [])
          c
      else pure (some r) c

  unfoldable pub tag_list : ℕ → Text → Calls Tags
  unfolding tags_answer renew_tags
  tag_list fuel rsrc = do
    first ← ask J N Method.get (codes "/v2/" ++ rsrc ++ codes "/tags/list") []
    second ← renew_tags fuel rsrc first
    tags_answer second

  -- A runtime_error, and what derives from it, is caught.
  unfoldable pub or_no_tags : Outcome Tags → Outcome Tags
  or_no_tags (throws (runtime_error what)) = returns no_tags
  or_no_tags (throws filesystem_error) = returns no_tags
  or_no_tags o = o

  unfoldable pub matching : (Text → Bool) → Tags → Calls Tags
  unfolding filter_tags
  matching matches t = pure (record t { tags = filter_tags matches t.tags })

  -- `tagList( rsrc, re )`, with what `std::regex_search` says of a tag.
  unfoldable pub tag_list_matching : (Text → Bool) → ℕ → Text → Calls Tags
  unfolding matching or_no_tags
  tag_list_matching matches fuel rsrc c =
      let done = (tag_list fuel rsrc >>= matching matches) c in (or_no_tags done.0, done.1)
