-- ===== src/Tests/SessionTests.antt =====
-- A registry's answers, one after another.
use oci_tool.Prelude.{
  Bool, ◌≡◌, refl, inl, true, false, Option, none, some, List, [], ◌∷◌, Text, codes, text_beq,
  returns, throws, diverges, json_error,
}
use oci_tool.Prelude.Strings.{find, find_past, substr, substr_n}
use oci_tool.Json.Tree.{tree_json, Tree, Trees, Fields}
use oci_tool.Registry.Location.{split_location}
use oci_tool.Registry.Net.{Net, Server, Response}
use oci_tool.Registry.Net.Script.{scripted, constant}
use oci_tool.Registry.Challenge.{challenge}
use oci_tool.Registry.Auth.{Client, parse_json, blank, auth, auth_headers}
use oci_tool.Registry.Manifests.{fetch_text, fetch_round}
use oci_tool.Registry.Manifests.Retry.{fetch_text-twice}
use oci_tool.Registry.Uploads.{upload_status}
use oci_tool.Registry.Listing.{tag_list_matching, tag_list, matching, filter_tags, or_no_tags}
use oci_tool.Schema2.Json.{get_texts}
use oci_tool.Registry.Listing.Matching.{tags_of}
use oci_tool.Registry.Parts.{initiate_upload}
use oci_tool.Registry.Blobs.{put_blob_part}
use oci_tool.Registry.Parts.Unlocated.{initiate_upload-diverges}
use oci_tool.Registry.Uploads.Status.{upload_status-diverges}

abbrev quay : Server
quay = record { https = true; host = codes "quay.io"; port = 443; credentials = none; proxy = none }

abbrev www_auth : Text
www_auth = codes "Bearer realm=\"https://quay.io/v2/auth\",service=\"quay.io\""

abbrev lookup_auth : Text → Option Text
lookup_auth k = elim (text_beq k (codes "Www-Authenticate")) [ true ↦ some www_auth | false ↦ none ]

abbrev unauthorized : Response
unauthorized = record { status = 401; header = lookup_auth; body = [] }

abbrev found : Text → Response
found body = record { status = 200; header = λ k. none; body = body }

abbrev client : List (Option Response) → Client tree_json scripted
client answers = record (blank tree_json scripted answers) {
  domain = codes "quay.io";
  cli = quay;
  follow = true;
  patch_cli = none;
  patch_location = [];
}

realm :
    challenge www_auth (codes "repository:x:pull")
    ≡ some
        (codes "https", codes "quay.io", codes "/v2/auth?service=quay.io&scope=repository:x:pull")
unfolding challenge find_past split_location codes find substr substr_n text_beq
realm = refl

abbrev answers : List (Option Response)
answers = some unauthorized ∷ some (found (codes "secret")) ∷ some (found (codes "manifest")) ∷ []

fetched :
    (fetch_text tree_json scripted 2 1 (codes "m") (codes "x") (codes "v1") (client answers)).0
    ≡ returns (codes "manifest")
unfolding fetch_text fetch_round auth auth_headers challenge find_past split_location codes find
    substr substr_n text_beq
fetched = refl

fetch_text-twice_example :
    fetch_text tree_json scripted 7 1 (codes "m") (codes "x") (codes "v1") (client answers)
    ≡ fetch_round tree_json scripted
        (fetch_round tree_json scripted
          (λ c. (throws json_error, c))
          1
          (codes "m")
          (codes "x")
          (codes "v1"))
        1
        (codes "m")
        (codes "x")
        (codes "v1")
        (client answers)
fetch_text-twice_example =
    fetch_text-twice tree_json scripted (λ c. (throws json_error, c)) 5 1 (codes "m") (codes "x")
      (codes "v1") (client answers)

abbrev got_nothing : Response
got_nothing = record { status = 202; header = λ k. some (codes "0-0"); body = [] }

abbrev uploading : Client tree_json (constant got_nothing)
uploading = record (blank tree_json (constant got_nothing) tt) {
  domain = codes "quay.io";
  cli = quay;
  follow = true;
  patch_cli = some quay;
  patch_location = codes "/v2/x/blobs/uploads/1";
}

upload_status-diverges_example :
    (upload_status tree_json
      (constant got_nothing)
      1000
      1
      (record { name = codes "x"; blob_sha = codes "sha256:0" })
      uploading).0
    ≡ diverges
unfolding codes
upload_status-diverges_example =
    upload_status-diverges tree_json (constant got_nothing) 1000 1
      (record { name = codes "x"; blob_sha = codes "sha256:0" }) quay got_nothing uploading refl
      (λ q w. refl) (inl refl) refl refl

abbrev accepted_nowhere : Response
accepted_nowhere = record { status = 202; header = λ k. none; body = [] }

abbrev starting : Client tree_json (constant accepted_nowhere)
starting = record (blank tree_json (constant accepted_nowhere) tt) {
  domain = codes "quay.io";
  cli = quay;
  follow = true;
  patch_cli = none;
  patch_location = [];
}

initiate_upload-diverges_example :
    (initiate_upload tree_json
      (constant accepted_nowhere)
      1000
      1
      (record { name = codes "x"; blob_sha = codes "sha256:0" })
      starting).0
    ≡ diverges
initiate_upload-diverges_example =
    initiate_upload-diverges tree_json (constant accepted_nowhere) 1000 1
      (record { name = codes "x"; blob_sha = codes "sha256:0" }) accepted_nowhere starting refl
      (λ s q w. refl) refl refl

-- A blob in one part: the upload is begun after an authorization, and the part ends it.
abbrev accepted_at : Response
accepted_at = record {
  status = 202;
  header = λ k. some (codes "https://up.quay.io:8443/u/1");
  body = [];
}

abbrev finished : Response
finished = record { status = 201; header = λ k. none; body = [] }

uploaded :
    (put_blob_part tree_json scripted 3 1
      (record { name = codes "x"; blob_sha = codes "s" })
      2
      (codes "ab")
      (client (
        some unauthorized
        ∷ some (found (codes "secret"))
        ∷ some accepted_at
        ∷ some finished
        ∷ []))).0
    ≡ returns true
unfolding put_blob_part initiate_upload auth auth_headers challenge split_location codes find
    find_past substr substr_n text_beq
uploaded = refl

-- Here every body is read as the tags v1 and v2.
abbrev tags_tree : Text → Option Tree
tags_tree body = some (
    Tree.branch (
      Fields.field (codes "name") (Tree.leaf (codes "x")) (
        Fields.field (codes "tags")
          (Tree.array
            (Trees.cons (Tree.leaf (codes "v1")) (Trees.cons (Tree.leaf (codes "v2")) Trees.nil)))
          Fields.end)))

abbrev tags_net : Net tree_json
tags_net = record (constant (found [])) { parse = tags_tree }

abbrev tags_client : Client tree_json tags_net
tags_client = record (blank tree_json tags_net tt) {
  domain = codes "quay.io";
  cli = quay;
  follow = true;
  patch_cli = none;
  patch_location = [];
}

abbrev is_v1 : Text → Bool
is_v1 t = text_beq t (codes "v1")

listed :
    tags_of (tag_list_matching tree_json tags_net is_v1 1 (codes "x") tags_client).0
    ≡ codes "v1" ∷ []
unfolding tag_list_matching tag_list matching filter_tags or_no_tags get_texts auth_headers codes
    text_beq parse_json
listed = refl
