-- ===== src/YamlClient.antt =====
-- OCI::Extensions::Yaml, include/OCI/Extensions/Yaml.hpp and src/lib/OCI/Extensions/Yaml.cpp: a list of
-- domains with their images, read from a file, and a registry client for one domain at a time.
pub mod Catalogs
pub mod AsClient
use oci_tool.Prelude.{
  ℕ, ◌+◌, ◌%◌, ◌^◌, ◌≡◌, Bool, true, false, not, ◌&&◌, Option, none, some, List, [], ◌∷◌, ◌++◌, map,
  Text, text_eq, nat_eq, codes, ◌==◌, if◌then◌else◌, Exec, Outcome, returns, throws, diverges,
  logic_error, null_result, throw, pure, get, modify, in_range, ◌>>=◌, ◌>>◌,
}
use oci_tool.Prelude.Strings.{find, npos}
use oci_tool.Prelude.Dict.{Dict, lookup, insert}
use oci_tool.Registry.Listing.{Tags}
use oci_tool.YamlFile.{Catalog}

-- The registry client that CLIENT_MAP makes for "docker", as far as this class calls it: W is the
-- world that a call may change.
pub record Connector : Type 1 where
  pub W : Type 0
  pub Conn : Type 0
  pub connect : Text → Text → Text → Exec W Conn
  pub list : Text → Exec (Conn × W) Tags
  pub list_matching : Text → Text → Exec (Conn × W) Tags

-- "library/" in front of a name with no slash
unfoldable pub qualify : Text → Text
qualify repo = if find repo b'/' == npos then codes "library/" ++ repo else repo

module _ (C : Connector) where
  pub record YamlClient : Type 0 where
    pub catalog : Catalog
    pub current_domain : Text
    pub client : Option C.Conn
    pub world : C.W

  abbrev in_world : {A : Type 0} → Exec C.W A → Exec YamlClient A
  in_world m y = let (r, w) = m y.world in (r, record y { world = w })

  -- `map.at( k )`
  abbrev pub at {ℓ} :
      {A : Type ℓ} → Option A → (A → Exec YamlClient (List Text)) → Exec YamlClient (List Text)
  at none k y = throw logic_error y
  at (some a) k y = k a y

  unfoldable pub open_domain : Text → Text × Text → Exec YamlClient (Unit {0})
  open_domain domain (username, password) = do
    conn ← in_world (C.connect domain username password)
    modify (λ y. record y { client = some conn; current_domain = domain })

  unfoldable pub qualify_all : Text → List Text → Exec YamlClient (List Text)
  unfolding qualify
  qualify_all domain repos y = (
    returns (map qualify repos),
    record y {
      catalog = record (y.catalog) {
        catalogs = insert domain (map qualify repos) y.catalog.catalogs;
      };
    },
  )

  unfoldable pub qualified : Text → Exec YamlClient (List Text)
  unfolding qualify_all
  qualified domain y = at (lookup domain y.catalog.catalogs) (qualify_all domain) y

  -- `catalog( domain )`: the repositories.
  unfoldable pub catalog_for : Text → Exec YamlClient (List Text)
  unfolding open_domain qualified
  catalog_for domain y =
      at (lookup domain y.catalog.credentials) (λ cred. open_domain domain cred >> qualified domain)
        y

  -- A method of `client_`, which is used without a test.
  unfoldable pub with_client :
      {A : Type 0} → Option C.Conn → Exec (C.Conn × C.W) A → Exec YamlClient A
  with_client none m y = throw null_result y
  with_client (some conn) m y =
      let (o, (c, w)) = m (conn, y.world) in (o, record y { client = some c; world = w })

  -- The tags that the file names for a repository of the current domain.
  unfoldable pub named_tags : Text → YamlClient → Option Tags
  named_tags rsrc y = elim (lookup y.current_domain y.catalog.tags) [
    | none ↦ none
    | some ts ↦ lookup rsrc ts
  ]

  unfoldable pub ask_tags : Text → Exec YamlClient Tags
  unfolding with_client
  ask_tags rsrc y =
      if y.catalog.filter == []
      then with_client y.client (C.list rsrc) y
      else with_client y.client (C.list_matching y.catalog.filter rsrc) y

  unfoldable pub tags_or_ask : Text → Option Tags → Exec YamlClient Tags
  unfolding ask_tags
  tags_or_ask rsrc none = ask_tags rsrc
  tags_or_ask rsrc (some t) = pure t

  unfoldable pub tag_list : Text → Exec YamlClient Tags
  unfolding tags_or_ask
  tag_list rsrc y = tags_or_ask rsrc (named_tags rsrc y) y

  -- The copy constructor over the old object's members.
  unfoldable pub copied : YamlClient → Exec YamlClient (Unit {0})
  unfolding open_domain
  copied other y =
      if other.current_domain == []
      then pure tt (record y { catalog = other.catalog; current_domain = []; client = none })
      else elim (lookup other.current_domain other.catalog.credentials) [
        | none ↦ throw logic_error (record y {
          catalog = other.catalog;
          current_domain = other.current_domain;
          client = none;
        })
        | some cred ↦ open_domain other.current_domain cred (record y {
          catalog = other.catalog;
          current_domain = other.current_domain;
          client = none;
        })
      ]
