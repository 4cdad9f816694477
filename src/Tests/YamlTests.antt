-- ===== src/Tests/YamlTests.antt =====
-- A file that names the tag "v1" of busybox on docker.io.
use oci_tool.Prelude.{
  ◌≡◌, refl, Bool, true, false, Option, none, some, List, [], ◌∷◌, Text, codes, text_beq, text_eq,
  All, returns, pure,
}
use oci_tool.Prelude.Strings.{find}
use oci_tool.Prelude.Dict.{lookup, insert}
use oci_tool.YamlFile.{YamlLib, catalog_of}
use oci_tool.YamlClient.{
  Connector, YamlClient, qualify, catalog_for, tag_list, ask_tags, named_tags, open_domain,
  qualified, qualify_all, tags_or_ask,
}
use oci_tool.YamlClient.Catalogs.{IsQualified, catalog_for-twice, tag_list-unnamed}

mutual
  data Yaml : Type 0 where
    scalar : Text → Yaml
    sequence : Entries → Yaml
    mapping : Entries → Yaml

  data Entries : Type 0 where
    stop : Entries
    entry : Text → Yaml → Entries → Entries

abbrev to_list : Entries → List (Text × Yaml)
to_list stop = []
to_list (entry k y es) = (k, y) ∷ to_list es

abbrev entries_of : Yaml → List (Text × Yaml)
entries_of (scalar t) = []
entries_of (sequence es) = to_list es
entries_of (mapping es) = to_list es

abbrev or_empty : Option Yaml → Yaml
or_empty none = scalar []
or_empty (some y) = y

abbrev is_sequence : Yaml → Bool
is_sequence (sequence es) = true
is_sequence y = false

abbrev is_map : Yaml → Bool
is_map (mapping es) = true
is_map y = false

abbrev text_of : Yaml → Text
text_of (scalar t) = t
text_of y = []

abbrev trees : YamlLib
trees = record {
  Node = Yaml;
  entries = entries_of;
  child = λ y k. or_empty (lookup k (entries_of y));
  is_sequence = is_sequence;
  is_map = is_map;
  as_text = text_of;
  as_u16 = λ y. 0;
}

abbrev busybox : Yaml
busybox = mapping (
    entry (codes "docker.io")
      (mapping (
        entry (codes "images")
          (mapping (entry (codes "busybox") (sequence (entry [] (scalar (codes "v1")) stop)) stop))
          stop))
      stop)

-- Every repository of this registry has the tag "latest".
abbrev latest : Connector
latest = record {
  W = Unit {0};
  Conn = Text × Text × Text;
  connect = λ d u p. pure (d, u, p);
  list = λ r. pure (record { name = r; tags = codes "latest" ∷ [] });
  list_matching = λ m r. pure (record { name = r; tags = [] });
}

abbrev start : YamlClient latest
start = record {
  catalog = catalog_of trees busybox;
  current_domain = [];
  client = none;
  world = tt;
}

read : (catalog_of trees busybox).catalogs ≡ (codes "docker.io", codes "busybox" ∷ []) ∷ []
unfolding catalog_of codes lookup insert text_beq
read = refl

opened : (catalog_for latest (codes "docker.io") start).0 ≡ returns (codes "library/busybox" ∷ [])
unfolding catalog_for open_domain qualified qualify_all qualify catalog_of codes lookup insert
    text_beq find
opened = refl

-- The tag of the file is not used.
listed :
    (tag_list latest (codes "library/busybox") (catalog_for latest (codes "docker.io") start).1).0
    ≡ returns (record { name = codes "library/busybox"; tags = codes "latest" ∷ [] })
unfolding tag_list tags_or_ask ask_tags named_tags catalog_for open_domain qualified qualify_all
    qualify catalog_of codes lookup insert text_beq find
listed = refl

tag_list-unnamed_example :
    All
      (λ r.
        tag_list latest r (catalog_for latest (codes "docker.io") start).1
        ≡ ask_tags latest r (catalog_for latest (codes "docker.io") start).1)
      (codes "library/busybox" ∷ [])
unfolding catalog_of codes lookup insert text_beq find
tag_list-unnamed_example =
    tag_list-unnamed latest (codes "docker.io") start (codes "library/busybox" ∷ [])
      ((codes "busybox", record { name = codes "busybox"; tags = codes "v1" ∷ [] }) ∷ []) opened
      refl (refl, tt)

again :
    (catalog_for latest (codes "docker.io") (catalog_for latest (codes "docker.io") start).1).0
    ≡ returns (codes "library/busybox" ∷ [])
unfolding catalog_for open_domain qualified qualify_all qualify catalog_of codes lookup insert
    text_beq find
again = refl

catalog_for-twice_example :
    All IsQualified (codes "library/busybox" ∷ [])
    × ((codes "library/busybox" ∷ []) ≡ (codes "library/busybox" ∷ []))
catalog_for-twice_example =
    catalog_for-twice latest (codes "docker.io") start (codes "library/busybox" ∷ [])
      (codes "library/busybox" ∷ []) opened again
