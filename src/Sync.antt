-- ===== src/Sync.antt =====
-- OCI::Sync, src/lib/OCI/Sync.cpp: all tags of all repositories, copied one behind the other, as one worker
-- of the thread manager does.
pub mod Kept
use oci_tool.Prelude.{ℕ, List, [], ◌∷◌, Text, Exec, Outcome, returns, pure, ◌>>=◌, ◌>>◌}
use oci_tool.BaseClient.{BaseClient}
use oci_tool.Registry.Listing.{Tags}
use oci_tool.Copy.{Copier, Calls, with_source}
use oci_tool.Copy.Lists.{copy_tag}

module _ (src dest : BaseClient) where
  -- A method of `src_` itself.
  abbrev on_member : {A : Type 0} → Exec (src.Obj × src.World) A → Calls src dest A
  on_member m c = let (o, (s, w)) = m (c.source, c.from) in (o, record c { source = s; from = w })

  -- `execute( rsrc, tags )`
  unfoldable pub sync_tags : ℕ → Text → List Text → Calls src dest (Unit {0})
  sync_tags n rsrc [] = pure tt
  sync_tags n rsrc (t ∷ ts) = copy_tag src dest n rsrc t >> sync_tags n rsrc ts

  -- The task of a repository, and `execute( rsrc )`.
  unfoldable pub sync_repo : ℕ → Text → Calls src dest (Unit {0})
  unfolding sync_tags
  sync_repo n repo = with_source src dest (src.tag_list repo) >>= λ t. sync_tags n repo t.tags

  -- `repoSync`
  unfoldable pub sync_repos : ℕ → List Text → Calls src dest (Unit {0})
  unfolding sync_repo
  sync_repos n [] = pure tt
  sync_repos n (repo ∷ repos) = sync_repo n repo >> sync_repos n repos

  -- `execute( src, dest )` of any client
  unfoldable pub sync_client : ℕ → Calls src dest (Unit {0})
  unfolding sync_repos
  sync_client n = on_member src.catalog >>= sync_repos n

  -- `execute( src, dest )` of a file of domains, with its `domains` and `catalog( domain )`
  module _ (domains : src.Obj → List Text)
      (catalog_of : Text → Exec (src.Obj × src.World) (List Text)) where
    sync_domains : ℕ → List Text → Calls src dest (Unit {0})
    unfolding sync_repos
    sync_domains n [] = pure tt
    sync_domains n (domain ∷ ds) =
        on_member (catalog_of domain) >>= sync_repos n >> sync_domains n ds

    unfoldable pub sync_file : ℕ → Calls src dest (Unit {0})
    unfolding sync_domains
    sync_file n c = sync_domains n (domains c.source) c
