-- ===== src/Registry/Manifests.antt =====
-- `fetchManifest` and `putManifest` of src/lib/OCI/Registry/Client.cpp, for schema 2. The fuel is for
-- `auth`, the rounds for the calls that they repeat after it.
pub mod Retry
pub mod Lists
use oci_tool.Prelude.{
  ℕ, zero, suc, ◌≡◌, Bool, true, false, not, Option, none, some, List, [], ◌∷◌, ◌++◌, Text, text_eq,
  nat_eq, codes, ◌==◌, if◌then◌else◌, Exec, Exception, Outcome, returns, throws, diverges,
  runtime_error, null_result, json_error, throw, pure, get, modify, ◌>>=◌, ◌>>◌,
}
use oci_tool.Json.{JsonLib}
use oci_tool.Schema2.{ManifestList, ImageManifest}
use oci_tool.Schema2.Json.{image_from_json}
use oci_tool.Registry.Net.{Net, Request, Response, Method}
use oci_tool.Registry.Auth.{Client, request, parse_json, auth, auth_headers, set_auth_retry}
use oci_tool.Registry.Queries.{ask}

module _ (J : JsonLib) (N : Net J) where
  abbrev Calls : Type 0 → Type 0
  Calls A = Exec (Client J N) A

  refused : Text → Exception
  refused location = runtime_error (
      codes "OCI::Registry::Client::fetchManifest recieved HTTP_CODE::Unauthorized for "
      ++ location)

  -- The answer to the request of a manifest; `again` is the call of `fetchManifest` by itself.
  unfoldable pub renew : Calls Text → ℕ → Text → Text → Response → Calls Text
  unfolding refused
  renew again fuel resource location r c =
      if c.auth_retry
      then (do
        modify (set_auth_retry J N false)
        auth J N fuel r.header (codes "repository:" ++ resource ++ codes ":pull")
        again)
          c
      else throw (refused location) c

  unfoldable pub on_answer : Calls Text → ℕ → Text → Text → Text → Option Response → Calls Text
  unfolding renew
  on_answer again fuel resource target location none c =
      throw
        (runtime_error (
          codes "OCI::Registry::Client::fetchManifest request error, returned NULL "
          ++ resource
          ++ codes ":"
          ++ target))
        c
  on_answer again fuel resource target location (some r) c =
      if r.status == 401
      then renew again fuel resource location r c
      else (modify (set_auth_retry J N true) >> pure (if r.status == 200 then r.body else [])) c

  abbrev pub manifest_at : Text → Text → Text
  manifest_at resource target = codes "/v2/" ++ resource ++ codes "/manifests/" ++ target

  -- The body of `fetchManifest` of a media type, with what its call of itself does.
  unfoldable pub fetch_round : Calls Text → ℕ → Text → Text → Text → Calls Text
  unfolding on_answer
  fetch_round again fuel media_type resource target =
      ask J N Method.get (manifest_at resource target) ((codes "Accept", media_type) ∷ [])
      >>= on_answer again fuel resource target (manifest_at resource target)

  unfoldable pub fetch_text : ℕ → ℕ → Text → Text → Text → Calls Text
  unfolding fetch_round
  fetch_text zero fuel media_type resource target c = (diverges, c)
  fetch_text (suc n) fuel media_type resource target c =
      fetch_round (fetch_text n fuel media_type resource target) fuel media_type resource target c

  abbrev pub or_json_error : {A : Type 0} → Option A → Calls A
  or_json_error none = throw json_error
  or_json_error (some a) = pure a

  -- `json::parse` and `get_to`
  unfoldable pub parsed : Text → Calls J.Obj
  unfolding parse_json
  parsed body = do j ← parse_json J N body; or_json_error (J.get_object j)

  unfoldable pub origin_of : Text → Client J N → Text
  origin_of asked c = if asked == [] then c.domain else asked

  fill_image : ImageManifest → ImageManifest → Text → Calls ImageManifest
  unfolding parsed origin_of
  fill_image im asked body = do
    o ← parsed body
    new ← or_json_error (image_from_json J o (record im { raw_str = body }))
    c ← get
    pure (record new {
      name = if new.name == [] then asked.name else new.name;
      origin_domain = origin_of asked.origin_domain c;
      requested_target = asked.requested_target;
      requested_digest = asked.requested_digest;
    })

  -- `fetchManifest( im, request )`, which gives back what it leaves in `im`.
  unfoldable pub fetch_image : ℕ → ImageManifest → ImageManifest → Calls ImageManifest
  unfolding fill_image
  fetch_image fuel im asked = do
    body ← fetch_text 2 fuel im.media_type asked.name asked.requested_digest
    (if body == [] then pure (record im { raw_str = body }) else fill_image im asked body)

  -- A manifest is put under a tag or a digest.
  put_text : Text → Text → Text → Text → Calls (Option Response)
  put_text name target media_type raw_str = do
    headers ← auth_headers J N
    c ← get
    request J N c.cli (record {
      method = Method.put;
      location = manifest_at name target;
      follow = c.follow;
      headers = headers;
      body = raw_str;
      content_type = media_type;
    })

  is_created : Option Response → Calls Bool
  is_created none = throw null_result
  is_created (some r) = pure (r.status == 201)

  renew_list : ℕ → ManifestList → Text → Response → Calls Bool
  unfolding put_text is_created
  renew_list fuel ml target r c =
      if r.status == 401
      then (do
        auth J N fuel r.header (codes "repository:" ++ ml.name ++ codes ":pull,push")
        res ← put_text ml.name target ml.media_type ml.raw_str
        is_created res)
          c
      else pure (r.status == 201) c

  list_answer : ℕ → ManifestList → Text → Option Response → Calls Bool
  unfolding renew_list
  list_answer fuel ml target none = pure false
  list_answer fuel ml target (some r) = renew_list fuel ml target r

  -- `putManifest( ml, target )`, which authenticates at most once.
  unfoldable pub put_list : ℕ → ManifestList → Text → Calls Bool
  unfolding put_text list_answer
  put_list fuel ml target = do
    res ← put_text ml.name target ml.media_type ml.raw_str
    list_answer fuel ml target res

  -- The loop of `putManifest( im, target )`.
  put_loop : ℕ → ℕ → ImageManifest → Text → Option Response → Calls Bool
  unfolding put_text
  put_loop n fuel im target none c = pure false c
  put_loop zero fuel im target (some r) c = (diverges, c)
  put_loop (suc n) fuel im target (some r) c =
      if r.status == 401
      then (do
        auth J N fuel r.header (codes "repository:" ++ im.name ++ codes ":pull,push")
        res ← put_text im.name target im.media_type im.raw_str
        put_loop n fuel im target res)
          c
      else pure (r.status == 201) c

  unfoldable pub put_image : (List ℕ → Text) → ℕ → ℕ → ImageManifest → Text → Calls Bool
  unfolding put_text put_loop
  put_image sha256_hex rounds fuel im target c =
      if codes "sha256:" ++ sha256_hex im.raw_str == target
      then (put_text im.name target im.media_type im.raw_str >>= put_loop rounds fuel im target) c
      else throw
          (runtime_error (codes "OCI::Registry::Client::putManifest sha mismatch for " ++ im.name))
          c
