-- ===== src/Copy/Lists/Errors.antt =====
-- Which exceptions leave `Copy::execute`.
use oci_tool.Prelude.{
  ℕ, ◌≡◌, false, Text, Exception, Outcome, returns, throws, diverges, runtime_error,
  filesystem_error, parse_error, json_error, logic_error, null_result, arith,
}
use oci_tool.BaseClient.{BaseClient}
use oci_tool.Copy.{Copier, caught, is_runtime}
use oci_tool.Copy.Lists.{copy_tag}

module _ (src dest : BaseClient) where
  caught-throws :
      {A : Type 0} (a : A) (o : Outcome A) (e : Exception)
      → caught src dest a o ≡ throws e
      → is_runtime e ≡ false
  caught-throws a (returns b) e h = absurd (cc h)
  caught-throws a diverges e h = absurd (cc h)
  caught-throws a (throws (runtime_error t)) e h = absurd (cc h)
  caught-throws a (throws filesystem_error) e h = absurd (cc h)
  caught-throws a (throws parse_error) e h = ground (arith, h)
  caught-throws a (throws json_error) e h = ground (arith, h)
  caught-throws a (throws logic_error) e h = ground (arith, h)
  caught-throws a (throws null_result) e h = ground (arith, h)

  -- An exception that leaves `Copy::execute` of a tag, where each task runs where it is started,
  -- is not a runtime_error.
  pub copy_tag-caught :
      (n : ℕ) (rsrc target : Text) (c : Copier src dest) (e : Exception)
      → (copy_tag src dest n rsrc target c).0 ≡ throws e
      → is_runtime e ≡ false
  unfolding copy_tag
  copy_tag-caught n rsrc target c e h = caught-throws tt _ e h
