-- ===== src/Tests/ClientTests.antt =====
-- Registry clients that are made, that send the last part of a blob, and that a tree is filled from.
use oci_tool.Prelude.{
  some, none, ℕ, ◌≡◌, refl, Bool, true, Option, none, some, List, [], codes, returns, Exec,
  bind-keeps,
}
use oci_tool.Json.Tree.{tree_json}
use oci_tool.Registry.Location.{domain_of}
use oci_tool.Registry.Net.{Net, Response}
use oci_tool.Registry.Net.Script.{scripted, given, next_answer}
use oci_tool.Registry.Auth.{Client, blank}
use oci_tool.Registry.Uploads.{UploadRequest}
use oci_tool.Registry.Lifecycle.{new_client, copy_of, proxy_value}
use oci_tool.Registry.Lifecycle.Made.{new_client-unproxied}
use oci_tool.Registry.Fetch.Told.{IsTelling}
use oci_tool.Registry.AsClient.{registry_client, registry_client-IsHonest}
use oci_tool.BaseClient.{BaseClient}
use oci_tool.YamlClient.AsClient.{yaml_client, yaml_client-IsHonest}
use oci_tool.Copy.Images.Kept.{IsHonest}
use oci_tool.Tests.TreeTests.{hex}

no_proxy : proxy_value tree_json scripted ≡ []
unfolding proxy_value
no_proxy = refl

-- Nobody answers.
new_client-unproxied_example :
    ((new_client tree_json scripted (codes "//quay.io/x") []).0 ≡ returns tt)
    × (domain_of (codes "//quay.io/x")
        ≡ some (new_client tree_json scripted (codes "//quay.io/x") []).1.domain)
    × ((copy_of tree_json scripted (new_client tree_json scripted (codes "//quay.io/x") []).1).cli
        ≡ (new_client tree_json scripted (codes "//quay.io/x") []).1.cli)
    × ((new_client tree_json scripted (codes "//quay.io/x") []).1.follow ≡ true)
new_client-unproxied_example =
    new_client-unproxied tree_json scripted (codes "//quay.io/x") [] no_proxy

-- A network that reads each end of a range as 2 GiB.
abbrev large : Net tree_json
large = record scripted { stoul = λ t. some 2147483648 }

abbrev range : Response
range = record { status = 202; header = λ k. some (codes "0-4"); body = [] }

abbrev upload : UploadRequest
upload = record { name = codes "x"; blob_sha = codes "s" }

-- A client in the middle of an upload.
abbrev sending : (N : Net tree_json) → N.World → Client tree_json N
sending N w = record (blank tree_json N w) {
  patch_location = codes "/u";
  patch_cli = some (blank tree_json N w).cli;
}

given_keeps :
    {S : Type 0} (P : S → Type 0) (call_back : List ℕ → Exec S Bool)
    (a : Option Response × List (Option Response)) (y : S)
    → ((part : List ℕ) (y : S) → P y → P (call_back part y).1)
    → P y
    → P (given a call_back y).1.1
given_keeps P call_back (none, w) y keeps p = p
given_keeps P call_back (some r, w) y keeps p =
    bind-keeps P (call_back r.body) _ y (keeps r.body y p) λ b. keeps r.body y p

scripted-IsTelling : IsTelling tree_json scripted
scripted-IsTelling S P call_back s q (w, y) keeps p =
    given_keeps P call_back (next_answer w) y keeps p

-- A registry that sends the blob of the image.
abbrev registry : BaseClient
registry = registry_client tree_json scripted hex 3 1

-- A file of domains that has opened quay.io.
abbrev listed_images : BaseClient
listed_images =
    yaml_client registry (λ d u p w. (returns (blank tree_json scripted w), w))
      (λ m r. registry.tag_list r)

listed_images-IsHonest : IsHonest listed_images
listed_images-IsHonest =
    yaml_client-IsHonest registry (λ d u p w. (returns (blank tree_json scripted w), w))
      (λ m r. registry.tag_list r)
      (registry_client-IsHonest tree_json scripted hex 3 1 scripted-IsTelling)
