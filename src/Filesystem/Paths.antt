-- ===== src/Filesystem/Paths.antt =====
-- std::filesystem::path as its generic text.
use oci_tool.Prelude.{
  ℕ, ◌≡◌, refl, sym, ap, ◌≢◌, ◌∙◌, Bool, true, false, not, ◌&&◌, List, [], ◌∷◌, ◌++◌, append_assoc,
  Text, text_eq, text_beq, nat_eq, ◌==◌, if◌then◌else◌, arith, append-cancel, All, Bool-cases, inl,
  inr,
}

abbrev pub slash : ℕ
slash = b'/'

abbrev pub is_absolute : Text → Bool
is_absolute [] = false
is_absolute (c ∷ s) = c == slash

-- Does the path end in a file name, so that the next part wants a slash in front?
abbrev pub has_filename : Text → Bool
has_filename [] = false
has_filename (c ∷ []) = not (c == slash)
has_filename (c ∷ d ∷ s) = has_filename (d ∷ s)

-- `p` with the slash that a further part wants in front of it.
unfoldable pub stem : Text → Text
stem p = if has_filename p then p ++ slash ∷ [] else p

-- `p / t`
unfoldable pub join : Text → Text → Text
join p t = if is_absolute t then t else stem p ++ t

-- The front of `s` before its last slash: `front` is what was read, `best` the answer so far.
before_last_slash : Text → Text → Text → Text
before_last_slash front best [] = best
before_last_slash front best (c ∷ s) =
    before_last_slash (front ++ c ∷ []) (if c == slash then front else best) s

unfoldable pub parent_path : Text → Text
unfolding before_last_slash
parent_path p = before_last_slash [] [] p

-- The part behind the last slash.
filename_from : Text → Text → Text
filename_from best [] = best
filename_from best (c ∷ s) = filename_from (if c == slash then s else best) s

unfoldable pub filename : Text → Text
unfolding filename_from
filename p = filename_from p p

ancestors_from : Text → Text → List Text
ancestors_from front [] = front ∷ []
ancestors_from front (c ∷ s) =
    let rest = ancestors_from (front ++ c ∷ []) s in
    if c == slash && not (front == []) then front ∷ rest else rest

-- The directories on the way to `p`, and `p` itself.
unfoldable pub ancestors : Text → List Text
unfolding ancestors_from text_beq
ancestors p = ancestors_from [] p

-- Is `q` strictly below `p`?
unfoldable pub is_below : Text → Text → Bool
is_below [] [] = false
is_below [] (c ∷ q) = c == slash
is_below (a ∷ p) [] = false
is_below (a ∷ p) (c ∷ q) = a == c && is_below p q

-- A file name: not empty, and without a slash.
abbrev pub IsName : Text → Type 0
IsName s = (s ≢ []) × All (λ c. c ≢ slash) s

pub IsName-relative : (s : Text) → IsName s → is_absolute s ≡ false
IsName-relative [] n = refl
IsName-relative (c ∷ s) (_, (ne, _)) = ground arith

pub join-relative : (p t : Text) → IsName t → join p t ≡ stem p ++ t
unfolding join
join-relative p t n = rw (IsName-relative t n)

-- Two names in one directory are two paths.
pub join-injective : (p s t : Text) → IsName s → IsName t → join p s ≡ join p t → s ≡ t
join-injective p s t n m e =
    append-cancel (stem p) (sym (join-relative p s n) ∙ e ∙ join-relative p t m)

has_filename-append :
    (p : Text) (c : ℕ) (s : Text) → has_filename (p ++ c ∷ s) ≡ has_filename (c ∷ s)
has_filename-append [] c s = refl
has_filename-append (x ∷ []) c s = refl
has_filename-append (x ∷ y ∷ p) c s = has_filename-append (y ∷ p) c s

pub stem-join :
    (r : Text) (c : ℕ) (s : Text)
    → is_absolute (c ∷ s) ≡ false
    → has_filename (c ∷ s) ≡ true
    → stem (join r (c ∷ s)) ≡ stem r ++ (c ∷ s ++ slash ∷ [])
unfolding join stem
stem-join r c s rel ends =
    rw (rel, stem, has_filename-append (stem r) c s, ends)
      (append_assoc (stem r) (c ∷ s) (slash ∷ []))

-- A name in one directory is not a name in its sibling that begins with another letter.
pub join-ne_sibling :
    (r : Text) (c d : ℕ) (s t u v : Text)
    → c ≢ d
    → is_absolute (c ∷ s) ≡ false
    → has_filename (c ∷ s) ≡ true
    → is_absolute (d ∷ t) ≡ false
    → has_filename (d ∷ t) ≡ true
    → IsName u
    → IsName v
    → join (join r (c ∷ s)) u ≢ join (join r (d ∷ t)) v
join-ne_sibling r c d s t u v ne a b a' b' n m e = ne (ground (arith, cancelled))
  where
    cancelled : (c ∷ s ++ slash ∷ []) ++ u ≡ (d ∷ t ++ slash ∷ []) ++ v
    cancelled = append-cancel (stem r) (
        sym (append_assoc (stem r) _ u)
        ∙ sym (ap (λ x. x ++ u) (stem-join r c s a b))
        ∙ sym (join-relative _ u n)
        ∙ e
        ∙ join-relative _ v m
        ∙ ap (λ x. x ++ v) (stem-join r d t a' b')
        ∙ append_assoc (stem r) _ v)

filename_from-name : (best s : Text) → All (λ c. c ≢ slash) s → filename_from best s ≡ best
unfolding filename_from
filename_from-name best [] n = refl
filename_from-name best (c ∷ s) (ne, n) = ground (arith, filename_from-name best s n)

filename_from-slash :
    (best p s : Text) → All (λ c. c ≢ slash) s → filename_from best (p ++ slash ∷ s) ≡ s
unfolding filename_from
filename_from-slash best [] s n = filename_from-name s s n
filename_from-slash best (c ∷ p) s n =
    filename_from-slash (if c == slash then p ++ slash ∷ s else best) p s n

filename_from-open :
    (best p s : Text)
    → p ≢ []
    → has_filename p ≡ false
    → All (λ c. c ≢ slash) s
    → filename_from best (p ++ s) ≡ s
unfolding filename_from
filename_from-open best [] s ne ended n = absurd (ne refl)
filename_from-open best (c ∷ []) s ne ended n = ground (arith, filename_from-name s s n)
filename_from-open best (c ∷ d ∷ p) s ne ended n =
    filename_from-open (if c == slash then (d ∷ p) ++ s else best) (d ∷ p) s (λ e. absurd (cc e))
      ended n

filename-stem : (p s : Text) → IsName s → filename (stem p ++ s) ≡ s
unfolding filename stem
filename-stem [] s (_, n) = filename_from-name s s n
filename-stem (c ∷ p) s (_, n) = elim (Bool-cases (has_filename (c ∷ p))) [
  | inl ends ↦ rw (ends, append_assoc (c ∷ p) (slash ∷ []) s) (filename_from-slash _ (c ∷ p) s n)
  | inr ended ↦ rw ended (filename_from-open _ (c ∷ p) s (λ e. absurd (cc e)) ended n)
]

-- The last part of a path.
pub filename-join : (p s : Text) → IsName s → filename (join p s) ≡ s
filename-join p s n = ap filename (join-relative p s n) ∙ filename-stem p s n
