-- ===== src/Sync/Kept.antt =====
-- An invariant of the destination through the synchronization of two clients, src/lib/OCI/Sync.cpp.
use oci_tool.Prelude.{ℕ, List, [], ◌∷◌, Text, Exec, bind-keeps, ◌>>=◌}
use oci_tool.BaseClient.{BaseClient}
use oci_tool.Schema2.{ImageManifest, ManifestList}
use oci_tool.Copy.{Copier}
use oci_tool.Copy.Images.Kept.{Kept}
use oci_tool.Copy.Lists.{copy_tag}
use oci_tool.Copy.Lists.Kept.{IsGiving, IsKeeper, copy_tag-Still, with_source-Still}
use oci_tool.Sync.{
  on_member, sync_tags, sync_repo, sync_repos, sync_client, sync_domains, sync_file,
}

module _ (src dest : BaseClient) (Mine : dest.Obj → Type 0) (Safe : dest.World → Type 0)
    (Good : ImageManifest → Text → Type 0) (GoodList : ManifestList → Type 0) (Apt : Text → Type 0)
    (G : IsGiving src Good GoodList Apt) (K : IsKeeper src dest Mine Safe Good GoodList Apt)
    (n : ℕ) where
  abbrev Still : Copier src dest → Type 0
  Still c = Kept src dest Mine Safe c

  sync_tags-Still :
      (rsrc : Text) (ts : List Text) (c : Copier src dest)
      → Still c
      → Still (sync_tags src dest n rsrc ts c).1
  unfolding sync_tags
  sync_tags-Still rsrc [] c k = k
  sync_tags-Still rsrc (t ∷ ts) c k =
      let k' = copy_tag-Still src dest Mine Safe Good GoodList Apt G K n rsrc t c k in
      bind-keeps Still (copy_tag src dest n rsrc t) (λ _. sync_tags src dest n rsrc ts) c k'
        λ _. sync_tags-Still rsrc ts _ k'

  sync_repo-Still :
      (repo : Text) (c : Copier src dest) → Still c → Still (sync_repo src dest n repo c).1
  unfolding sync_repo
  sync_repo-Still repo c k =
      with_source-Still src dest Mine Safe Good GoodList Apt G K (λ t. Unit {0}) (src.tag_list repo)
        (λ t. sync_tags src dest n repo t.tags) c k (λ x t at. tt)
        λ t c' _ k'. sync_tags-Still repo t.tags c' k'

  sync_repos-Still :
      (repos : List Text) (c : Copier src dest) → Still c → Still (sync_repos src dest n repos c).1
  unfolding sync_repos
  sync_repos-Still [] c k = k
  sync_repos-Still (repo ∷ repos) c k =
      let k' = sync_repo-Still repo c k in
      bind-keeps Still (sync_repo src dest n repo) (λ _. sync_repos src dest n repos) c k'
        λ _. sync_repos-Still repos _ k'

  pub sync_client-Still : (c : Copier src dest) → Still c → Still (sync_client src dest n c).1
  unfolding sync_client
  sync_client-Still c k =
      bind-keeps Still (on_member src dest src.catalog) (sync_repos src dest n) c k
        λ repos. sync_repos-Still repos _ k

  module _ (domains : src.Obj → List Text)
      (catalog_of : Text → Exec (src.Obj × src.World) (List Text)) where
    sync_domains-Still :
        (ds : List Text) (c : Copier src dest)
        → Still c
        → Still (sync_domains src dest domains catalog_of n ds c).1
    unfolding sync_domains
    sync_domains-Still [] c k = k
    sync_domains-Still (d ∷ ds) c k =
        let k1 =
          bind-keeps Still (on_member src dest (catalog_of d)) (sync_repos src dest n) c k
            λ repos. sync_repos-Still repos _ k in
        bind-keeps Still (on_member src dest (catalog_of d) >>= sync_repos src dest n)
          (λ _. sync_domains src dest domains catalog_of n ds) c k1 λ _. sync_domains-Still ds _ k1

    pub sync_file-Still :
        (c : Copier src dest) → Still c → Still (sync_file src dest domains catalog_of n c).1
    unfolding sync_file
    sync_file-Still c k = sync_domains-Still (domains c.source) c k
