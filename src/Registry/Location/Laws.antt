-- ===== src/Registry/Location/Laws.antt =====
-- What `splitLocation` and the constructor's parse do to the forms that a registry uses.
use oci_tool.Prelude.{
  ℕ, ◌+◌, ◌%◌, ◌<◌, ◌≡◌, refl, ◌∙◌, ap, sym, none, some, [], ◌∷◌, ◌++◌, append_assoc, Text, length,
  length-append, All-append, arith, Bool-cases, inl, inr, true, drop, take, ◌==◌, nat_eq, some,
}
use oci_tool.Prelude.Strings.{
  find, find-append, find-absent, substr, substr_n, size_mod, npos, Lacks, substr-append,
  substr_n-append, substr-past, substr_n-all,
}
use oci_tool.Registry.Location.{
  has_slashes, strip_slashes, before_slash, docker_hub, domain_of, split, split_location,
}

-- The domain can be read from each location.
has_slashes-long : (location : Text) → has_slashes location ≡ true → 1 < length location
unfolding has_slashes
has_slashes-long [] e = absurd (cc e)
has_slashes-long (a ∷ []) e = absurd (cc e)
has_slashes-long (a ∷ b ∷ s) e = omega arith

strip_slashes-some : (location : Text) → (r : Text) × (strip_slashes location ≡ some r)
unfolding strip_slashes substr
strip_slashes-some location = elim (Bool-cases (has_slashes location)) [
  | inl slashes ↦
      let long = has_slashes-long location slashes in
      (drop 2 location, ground (arith, slashes, long))
  | inr none_there ↦ (location, rw none_there refl)
]

before_slash-some : (resource : Text) → (d : Text) × (before_slash resource ≡ some d)
unfolding before_slash substr_n
before_slash-some resource = elim (Bool-cases (find resource b'/' == npos)) [
  | inl absent ↦ (resource, rw absent refl)
  | inr there ↦ (take (find resource b'/') resource, ground (arith, there))
]

pub domain_of-some : (location : Text) → (d : Text) × (domain_of location ≡ some d)
unfolding domain_of
domain_of-some location =
    let (r, at) = strip_slashes-some location in
    let (d, at') = before_slash-some r in (docker_hub d, rw (at, at') refl)

-- proto://rest
abbrev pub url : Text → Text → Text
url proto rest = proto ++ (b':' ∷ b'/' ∷ b'/' ∷ rest)

module _ (proto rest : Text) (colon_free : Lacks b':' proto) (slash_free : Lacks b'/' proto) where
  find-url_colon : find (url proto rest) b':' ≡ length proto
  find-url_colon = find-append b':' proto _ colon_free

  find-url_slash : find (url proto rest) b'/' ≡ length proto + 1
  find-url_slash =
      ap (λ (t : Text). find t b'/') (sym (append_assoc proto (b':' ∷ []) (b'/' ∷ b'/' ∷ rest)))
      ∙ find-append b'/' (proto ++ b':' ∷ []) (b'/' ∷ rest)
          (All-append _ proto (b':' ∷ []) slash_free ((λ e. absurd (omega arith)), tt))
      ∙ omega (arith, length-append proto (b':' ∷ []))

  substr-url_rest :
      length proto + 3 < size_mod
      → substr (url proto rest) ((find (url proto rest) b'/' + 2) % size_mod) ≡ some rest
  substr-url_rest small =
      ap (λ (n : ℕ). substr (url proto rest) ((n + 2) % size_mod)) find-url_slash
      ∙ ap (substr (url proto rest)) (omega (arith, length-append proto (b':' ∷ b'/' ∷ b'/' ∷ [])))
      ∙ ap (λ (t : Text). substr t (length (proto ++ (b':' ∷ b'/' ∷ b'/' ∷ []))))
          (sym (append_assoc proto (b':' ∷ b'/' ∷ b'/' ∷ []) rest))
      ∙ substr-append (proto ++ (b':' ∷ b'/' ∷ b'/' ∷ [])) rest

  substr_n-url_proto : substr_n (url proto rest) 0 (find (url proto rest) b':') ≡ some proto
  substr_n-url_proto = ap (substr_n (url proto rest) 0) find-url_colon ∙ substr_n-append proto _

split_location-split : (c : ℕ) (s : Text) → split_location (c ∷ s) ≡ split (c ∷ s)
unfolding split_location
split_location-split c s = refl

split_location-url : (proto rest : Text) → split_location (url proto rest) ≡ split (url proto rest)
unfolding split_location
split_location-url [] rest = refl
split_location-url (c ∷ s) rest = refl

-- `splitLocation` takes proto://domain/path apart into proto, domain and /path, where proto has no
-- colon and no slash, domain has no slash, and proto is shorter than 2^64 - 3.
pub split_location-full :
    (proto domain path : Text)
    → Lacks b':' proto
    → Lacks b'/' proto
    → Lacks b'/' domain
    → length proto + 3 < size_mod
    → split_location (url proto (domain ++ b'/' ∷ path)) ≡ some (proto, domain, b'/' ∷ path)
unfolding split
split_location-full proto domain path nc ns nd small =
    let rest : Text = domain ++ b'/' ∷ path in
    split_location-url proto rest
    ∙ rw (
      substr_n-url_proto proto rest nc ns,
      substr-url_rest proto rest nc ns small,
      find-append b'/' domain path nd,
      substr_n-append,
      substr-append,
    )

-- `splitLocation` throws std::out_of_range on proto://domain with no slash behind the domain,
-- where proto has no colon and no slash, and both are short of 2^64.
pub split_location-no_path :
    (proto domain : Text)
    → Lacks b':' proto
    → Lacks b'/' proto
    → Lacks b'/' domain
    → length proto + 3 < size_mod
    → length domain < npos
    → split_location (url proto domain) ≡ none
unfolding split
split_location-no_path proto domain nc ns nd small short =
    split_location-url proto domain
    ∙ rw (
      substr_n-url_proto proto domain nc ns,
      substr-url_rest proto domain nc ns small,
      find-absent b'/' domain nd,
      substr_n-all domain npos (omega arith),
      substr-past domain npos short,
    )
