-- ===== src/YamlFile.antt =====
-- The constructor of src/lib/OCI/Extensions/Yaml.cpp: a list of domains with their images, read from a
-- parsed file.
use oci_tool.Prelude.{
  ℕ, Bool, Option, none, some, List, [], ◌∷◌, ◌++◌, map, Text, text_eq, nat_eq, codes,
  if◌then◌else◌,
}
use oci_tool.Prelude.Dict.{Dict, lookup, insert}
use oci_tool.Registry.Listing.{Tags}

-- The vendored YAML parser, as a parameter: the entries that an iterator visits, `node[ key ]`, and
-- `As` of a text and of a std::uint16_t. A key that is missing gives an empty node.
pub record YamlLib : Type 1 where
  pub Node : Type 0
  pub entries : Node → List (Text × Node)
  pub child : Node → Text → Node
  pub is_sequence : Node → Bool
  pub is_map : Node → Bool
  pub as_text : Node → Text
  pub as_u16 : Node → ℕ

-- `Yaml::Catalog`; `catalogs` holds the repositories of a domain.
pub record Catalog : Type 0 where
  pub catalogs : Dict (List Text)
  pub credentials : Dict (Text × Text)
  pub domains : List Text
  pub architectures : List Text
  pub tags : Dict (Dict Tags)
  pub filter : Text
  pub limit : ℕ

-- `map[ k ]`, where a missing value is made anew.
abbrev or_new {ℓ} : {A : Type ℓ} → A → Option A → A
or_new a none = a
or_new a (some b) = b

add_repository : Text → Text → Catalog → Catalog
add_repository domain repo c = record c {
  catalogs = insert domain (or_new [] (lookup domain c.catalogs) ++ repo ∷ []) c.catalogs;
}

set_tags : Text → Text → List Text → Catalog → Catalog
set_tags domain repo ts c = record c {
  tags =
      insert domain
        (insert repo (record { name = repo; tags = ts }) (or_new [] (lookup domain c.tags))) c.tags;
}

old_tags : Text → Text → Catalog → List Text
old_tags domain repo c = elim (lookup repo (or_new [] (lookup domain c.tags))) [
  | none ↦ []
  | some t ↦ t.tags
]

module _ (Y : YamlLib) where
  texts_of : List (Text × Y.Node) → List Text
  texts_of es = map (λ e. Y.as_text e.1) es

  read_image : Text → Text × Y.Node → Catalog → Catalog
  unfolding add_repository set_tags old_tags texts_of
  read_image domain (repo, node) c =
      let c' = add_repository domain repo c in
      if Y.is_sequence node
      then set_tags domain repo (old_tags domain repo c' ++ texts_of (Y.entries node)) c'
      else c'

  read_images : Text → List (Text × Y.Node) → Catalog → Catalog
  unfolding read_image
  read_images domain [] c = c
  read_images domain (e ∷ es) c = read_images domain es (read_image domain e c)

  architectures_of : Y.Node → List Text
  unfolding texts_of
  architectures_of node =
      if Y.is_sequence node then texts_of (Y.entries node) else Y.as_text node ∷ []

  read_options : Y.Node → Catalog → Catalog
  read_options node c =
      if Y.is_map node
      then record c {
        filter = Y.as_text (Y.child node (codes "filter"));
        limit = Y.as_u16 (Y.child node (codes "limit"));
      }
      else c

  read_domain : Text × Y.Node → Catalog → Catalog
  unfolding read_images architectures_of read_options
  read_domain (domain, node) c =
      let c1 = record c {
        domains = c.domains ++ domain ∷ [];
        credentials =
            insert domain
              (
                Y.as_text (Y.child (Y.child node (codes "credentials")) (codes "username")),
                Y.as_text (Y.child (Y.child node (codes "credentials")) (codes "password")),
              )
              c.credentials;
        architectures = c.architectures ++ architectures_of (Y.child node (codes "architecture"));
      } in
      read_images domain (Y.entries (Y.child node (codes "images")))
        (read_options (Y.child node (codes "tag-options")) c1)

  read_domains : List (Text × Y.Node) → Catalog → Catalog
  unfolding read_domain
  read_domains [] c = c
  read_domains (e ∷ es) c = read_domains es (read_domain e c)

  -- The constructor over the parsed file. A limit is not read before it is set.
  unfoldable pub catalog_of : Y.Node → Catalog
  unfolding read_domains
  catalog_of root = read_domains (Y.entries root) (record {
    catalogs = [];
    credentials = [];
    domains = [];
    architectures = [];
    tags = [];
    filter = [];
    limit = 0;
  })
