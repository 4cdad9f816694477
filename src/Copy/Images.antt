-- ===== src/Copy/Images.antt =====
-- `Copy::execute( Schema2::ImageManifest )`, src/lib/OCI/Copy.cpp, where no worker of the thread manager
-- is idle: each download runs where it is started.
pub mod Rounds
pub mod Complete
pub mod Kept
pub mod Stored
use oci_tool.Prelude.{
  ℕ, zero, suc, Bool, true, false, not, Option, none, some, List, [], ◌∷◌, ◌++◌, Text, length, ltb,
  if◌then◌else◌, Exec, Exception, logic_error, Outcome, returns, throws, diverges, throw, pure,
  modify, ◌>>=◌, ◌>>◌,
}
use oci_tool.BaseClient.{BaseClient}
use oci_tool.Schema2.{ImageManifest, Layer, new_image_manifest, image_manifest_ne}
use oci_tool.Copy.{
  Copier, Run, Calls, Runs, ask, inside, run, copy_source, copy_destination, catch_runtime,
}
use oci_tool.Copy.Layers.{mem, release}

-- A layer in front of what was found behind it.
abbrev after_layer :
    Layer → Option (List Layer × Layer × List Layer) → Option (List Layer × Layer × List Layer)
after_layer l none = none
after_layer l (some (before, x, after)) = some (l ∷ before, x, after)

module _ (src dest : BaseClient) where
  abbrev pub has : ImageManifest → Text → Text → Runs src dest Bool
  has im target sha = ask src dest (dest.has_blob im target sha)

  claim_layer : Text → Runs src dest (Unit {0})
  claim_layer sha r = (
    returns tt,
    record r { copier = record (r.copier) { working = r.copier.working ++ sha ∷ [] } },
  )

  -- The predicate of `find_if` on a layer that nobody works on.
  take_layer : ImageManifest → Text → Layer → Runs src dest (Unit {0})
  unfolding claim_layer
  take_layer im target l = do
    there ← has im target l.digest
    if there then pure tt else claim_layer l.digest

  find_free :
      ImageManifest → Text → List Layer → Runs src dest (Option (List Layer × Layer × List Layer))
  unfolding take_layer
  find_free im target [] r = pure none r
  find_free im target (l ∷ ls) r =
      let rest = find_free im target ls >>= λ found. pure (after_layer l found) in
      if mem l.digest r.copier.working
      then rest r
      else (take_layer im target l >> pure (some ([], l, ls))) r

  -- `src->fetchBlob` with `dest->putBlob` for its callback.
  transfer_blob : ImageManifest → Text → Text → ℕ → Runs src dest Bool
  transfer_blob im target sha size r =
      let (o, ((s, w), (d, v))) =
        src.fetch_blob im.name sha (dest.put_blob im target sha size)
          ((r.source, r.copier.from), (r.destination, r.copier.to)) in
      (o, record r { source = s; destination = d; copier = record (r.copier) { from = w; to = v } })

  -- Every exception of a download is logged.
  abbrev pub swallowed : Outcome Bool → Outcome (Unit {0})
  swallowed (returns b) = returns tt
  swallowed (throws e) = returns tt
  swallowed diverges = diverges

  abbrev pub swallow : Runs src dest Bool → Runs src dest (Unit {0})
  swallow m r = (swallowed (m r).0, (m r).1)

  -- The label of the progress bar is the end of the digest, which must have ten characters.
  fetch_layer : ImageManifest → Text → Layer → Calls src dest (Unit {0})
  unfolding transfer_blob
  fetch_layer im target l c =
      if ltb (length l.digest) 10
      then throw logic_error c
      else (do
        d ← copy_destination src dest
        s ← copy_source src dest
        run src dest (swallow (transfer_blob im target l.digest l.size)) s d)
          c

  -- What the download claims it gives back, however it ends.
  unfoldable pub download : ImageManifest → Text → Layer → Calls src dest (Unit {0})
  unfolding fetch_layer
  download im target l c =
      let (o, c') = fetch_layer im target l c in
      (o, record c' { working = release l.digest c'.working })

  next_round :
      ImageManifest
      → Text
      → (List Layer → Runs src dest (Unit {0}))
      → List Layer
      → Option (List Layer × Layer × List Layer)
      → Runs src dest (Unit {0})
  unfolding download
  next_round im target again ls none = again ls
  next_round im target again ls (some (before, l, after)) = do
    there ← has im target l.digest
    (if there
        then again (before ++ after)
        else (inside src dest (download im target l) >> again ls))

  one_round :
      ImageManifest
      → Text
      → (List Layer → Runs src dest (Unit {0}))
      → List Layer
      → Runs src dest (Unit {0})
  unfolding next_round find_free
  one_round im target again [] = pure tt
  one_round im target again (l ∷ ls) =
      find_free im target (l ∷ ls) >>= next_round im target again (l ∷ ls)

  unfoldable pub layers_loop : ℕ → ImageManifest → Text → List Layer → Runs src dest (Unit {0})
  unfolding one_round
  layers_loop zero im target ls r = (diverges, r)
  layers_loop (suc n) im target ls r = one_round im target (layers_loop n im target) ls r

  copy_config : ImageManifest → Text → Runs src dest (Unit {0})
  unfolding transfer_blob
  copy_config im target = do
    there ← has im target im.config.digest
    (if there
        then pure tt
        else (transfer_blob im target im.config.digest im.config.size >> pure tt))

  unfoldable pub copy_parts : ℕ → ImageManifest → Text → ImageManifest → Runs src dest (Unit {0})
  unfolding layers_loop copy_config
  copy_parts n im target old =
      if image_manifest_ne im old
      then (layers_loop n im target im.layers >> copy_config im target)
      else pure tt

  unfoldable pub copy_manifest : ℕ → ImageManifest → Text → Runs src dest Bool
  unfolding copy_parts
  copy_manifest n im target = do
    old ← ask src dest (dest.fetch_image new_image_manifest im)
    copy_parts n im target old
    ask src dest (dest.put_image im target)

  -- `execute( image_manifest, target )`
  unfoldable pub copy_image : ℕ → ImageManifest → Text → Calls src dest Bool
  unfolding copy_manifest
  copy_image n im target = do
    s ← copy_source src dest
    d ← copy_destination src dest
    run src dest (catch_runtime src dest false (copy_manifest n im target)) s d
