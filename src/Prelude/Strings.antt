-- ===== src/Prelude/Strings.antt =====
-- std::string as the list of its characters, with size_t positions: `npos` is 2^64 - 1, and sums
-- of positions wrap around. `substr` throws std::out_of_range, here `none`, past the end.
use Prim.Native.Nat.{ℕ, ◌+◌, ◌-◌, ◌^◌, ◌≤◌, ◌<◌}
use Prim.Native.Char.{code}
use Prim.Native.String.{String}
use mathlib.Core.Path.{◌≡◌, refl}
use mathlib.Core.Logic.{◌↔◌, ◌≢◌}
use mathlib.Core.Bool.{Bool, true, false, ◌&&◌}
use mathlib.Core.Option.{Option, none, some}
use mathlib.Core.List.{List, [], ◌∷◌, ◌++◌}
use native.Mathlib.Omega.{arith}
use oci_tool.Prelude.Tests.{Comparable, ◌==◌, nat_eq, leb, if◌then◌else◌}
use oci_tool.Prelude.Lists.{
  length, take, drop, All, take-append, drop-append, length-append, take-length_le,
}

abbrev pub Text : Type 0
Text = List ℕ

-- A literal of the source. Shut, so that proofs meet it as a name.
unfoldable pub codes : String → Text
codes String.[] = []
codes (String.◌∷◌ c s) = code c ∷ codes s

unfoldable pub text_beq : Text → Text → Bool
text_beq [] [] = true
text_beq (a ∷ s) (b ∷ t) = a == b && text_beq s t
text_beq _ _ = false

pub text_beq_iff : (s t : Text) → (text_beq s t ≡ true) ↔ (s ≡ t)
unfolding text_beq
text_beq_iff [] [] = (λ _. refl, λ _. refl)
text_beq_iff (a ∷ s) (b ∷ t) = ground (arith, text_beq_iff s t)
text_beq_iff [] (b ∷ t) = (λ e. cc, λ e. cc)
text_beq_iff (a ∷ s) [] = (λ e. cc, λ e. cc)

instance abbrev pub text_eq : Comparable Text
text_eq = record { same = text_beq; same_iff = text_beq_iff }

-- size_t
abbrev pub size_mod : ℕ
size_mod = 2 ^ 64

abbrev pub npos : ℕ
npos = size_mod - 1

-- The position of the first `c`, counted from `i`.
find_from : ℕ → ℕ → Text → ℕ
find_from i c [] = npos
find_from i c (x ∷ s) = if x == c then i else find_from (i + 1) c s

-- `s.find( c )`
unfoldable pub find : Text → ℕ → ℕ
unfolding find_from
find s c = find_from 0 c s

-- `s.find( c, pos )`
unfoldable pub find_past : Text → ℕ → ℕ → ℕ
unfolding find_from
find_past s c pos = if leb pos (length s) then find_from pos c (drop pos s) else npos

find_last_from : ℕ → ℕ → Text → ℕ → ℕ
find_last_from i c [] last = last
find_last_from i c (x ∷ s) last = find_last_from (i + 1) c s (if x == c then i else last)

-- `s.find_last_of( c )`
unfoldable pub find_last_of : Text → ℕ → ℕ
unfolding find_last_from
find_last_of s c = find_last_from 0 c s npos

-- `s.substr( pos )` and `s.substr( pos, n )`
unfoldable pub substr : Text → ℕ → Option Text
substr s pos = if leb pos (length s) then some (drop pos s) else none

unfoldable pub substr_n : Text → ℕ → ℕ → Option Text
substr_n s pos n = if leb pos (length s) then some (take n (drop pos s)) else none

-- `c` does not occur.
abbrev pub Lacks : ℕ → Text → Type 0
Lacks c = All (λ x. x ≢ c)

find_from-append : (i c : ℕ) (s t : Text) → Lacks c s → find_from i c (s ++ c ∷ t) ≡ i + length s
unfolding find_from
find_from-append i c [] t l = ground arith
find_from-append i c (x ∷ s) t (ne, l) = ground (arith, find_from-append (i + 1) c s t l)

-- The first `c` stands behind a part that lacks it.
pub find-append : (c : ℕ) (s t : Text) → Lacks c s → find (s ++ c ∷ t) c ≡ length s
unfolding find
find-append c s t l = omega (arith, find_from-append 0 c s t l)

find_from-absent : (i c : ℕ) (s : Text) → Lacks c s → find_from i c s ≡ npos
unfolding find_from
find_from-absent i c [] l = refl
find_from-absent i c (x ∷ s) (ne, l) = ground (arith, find_from-absent (i + 1) c s l)

pub find-absent : (c : ℕ) (s : Text) → Lacks c s → find s c ≡ npos
unfolding find
find-absent c s l = find_from-absent 0 c s l

-- A prefix and what follows it.
pub substr_n-append : (s t : Text) → substr_n (s ++ t) 0 (length s) ≡ some s
unfolding substr_n
substr_n-append s t = ground (arith, take-append s t)

pub substr-append : (s t : Text) → substr (s ++ t) (length s) ≡ some t
unfolding substr
substr-append s t = ground (arith, drop-append s t, length-append s t)

pub substr-past : (s : Text) (n : ℕ) → length s < n → substr s n ≡ none
unfolding substr
substr-past s n h = ground arith

-- A count past the end takes all.
pub substr_n-all : (s : Text) (n : ℕ) → length s ≤ n → substr_n s 0 n ≡ some s
unfolding substr_n
substr_n-all s n h = ground (arith, take-length_le n s h)
