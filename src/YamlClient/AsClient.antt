-- ===== src/YamlClient/AsClient.antt =====
-- A file of domains as a `Base::Client`, src/lib/OCI/Extensions/Yaml.cpp, over a registry client: its moves
-- and assignments, and its methods, which are those of the client, or call std::terminate. Such a call does
-- not return, as one that diverges.
use oci_tool.Prelude.{
  ℕ, Bool, Option, none, some, List, Text, Exec, null_result, Outcome, returns, throws, diverges,
}
use oci_tool.BaseClient.{BaseClient}
use oci_tool.Copy.Images.Kept.{IsHonest}
use oci_tool.Registry.Listing.{Tags}
use oci_tool.YamlClient.{YamlClient, Connector, with_client, tag_list, copied, catalog_for}

module _ (C : Connector) where
  -- A move, of which the first object becomes the second. `swap` moves both ways.
  unfoldable pub moved : YamlClient C → YamlClient C → YamlClient C
  moved other this = record this {
    catalog = other.catalog;
    current_domain = other.current_domain;
    client = other.client;
  }

  -- `*this = other`, by a copy that is moved.
  unfoldable pub assigned : YamlClient C → Exec (YamlClient C) (Unit {0})
  unfolding moved
  assigned other this =
      let (o, temp) = copied C other this in
      let there = record this { world = temp.world } in
      elim o [
        | returns u ↦ (returns tt, moved temp there)
        | throws e ↦ (throws e, there)
        | diverges ↦ (diverges, there)
      ]

module _ (R : BaseClient) (connect : Text → Text → Text → Exec R.World R.Obj)
    (matching : Text → Text → Exec (R.Obj × R.World) Tags) where
  abbrev pub registries : Connector
  registries = record {
    W = R.World;
    Conn = R.Obj;
    connect = connect;
    list = R.tag_list;
    list_matching = matching;
  }

  abbrev File : Type 0
  File = YamlClient registries

  abbrev at_world : {A : Type 0} → Exec File A → Exec (File × R.World) A
  at_world m (y, w) = let (o, y') = m (record y { world = w }) in (o, (y', y'.world))

  -- A method of `client_`.
  abbrev delegated : {A : Type 0} → Exec (R.Obj × R.World) A → Exec (File × R.World) A
  delegated m = at_world (λ y. with_client registries y.client m y)

  abbrev terminates : {S A : Type 0} → Exec S A
  terminates s = (diverges, s)

  made : Outcome (Unit {0}) → File → Outcome File × R.World
  made (returns u) y = (returns y, y.world)
  made (throws e) y = (throws e, y.world)
  made diverges y = (diverges, y.world)

  -- `copy`
  unfoldable pub copy_of : File → Exec R.World File
  unfolding made
  copy_of y w = let (o, new) = copied registries y (record y { world = w }) in made o new

  abbrev destroyed : Option R.Obj → R.World → R.World
  destroyed none w = w
  destroyed (some c) w = R.destroy c w

  abbrev with_blob :
      {S : Type 0}
      → Option R.Obj
      → Text
      → Text
      → (List ℕ → Exec S Bool)
      → Exec ((File × R.World) × S) Bool
  with_blob none name sha call_back x = (throws null_result, x)
  with_blob (some c) name sha call_back ((y, w), s) =
      let (o, x) = R.fetch_blob name sha call_back ((c, w), s) in
      (o, ((record y { client = some x.0.0; world = x.0.1 }, x.0.1), x.1))

  abbrev pub yaml_client : BaseClient
  yaml_client = record {
    Obj = File;
    World = R.World;
    copy = copy_of;
    destroy = λ y w. destroyed y.client w;
    catalog = terminates;
    tag_list = λ rsrc. at_world (tag_list registries rsrc);
    fetch_list = λ ml asked. delegated (R.fetch_list ml asked);
    fetch_image = λ im asked. delegated (R.fetch_image im asked);
    fetch_legacy = λ im asked. delegated (R.fetch_legacy im asked);
    fetch_blob = λ name sha call_back x. with_blob x.0.0.client name sha call_back x;
    has_blob = λ im target sha. delegated (R.has_blob im target sha);
    has_legacy_blob = λ im sha. delegated (R.has_legacy_blob im sha);
    put_blob = λ im target sha size part. terminates;
    put_list = λ ml target. terminates;
    put_image = λ im target. terminates;
  }

  -- The repositories of a domain, and the domains, for `Sync::execute`.
  abbrev pub catalog_at : Text → Exec (File × R.World) (List Text)
  catalog_at domain = at_world (catalog_for registries domain)

  abbrev pub domains : File → List Text
  domains y = y.catalog.domains

  pub yaml_client-IsHonest : IsHonest R → IsHonest yaml_client
  yaml_client-IsHonest honest S P call_back name sha x keeps p = from_client x.0.0.client
    where
      from_client : (c : Option R.Obj) → P (with_blob c name sha call_back x).1.1
      from_client none = p
      from_client (some c) = honest S P call_back name sha ((c, x.0.1), x.1) keeps p
