-- ===== src/Threads/Waiting/Family.antt =====
-- Families over the numbers of workers: a change at one place, and sums over the first n.
use oci_tool.Prelude.{
  ℕ, zero, suc, ◌+◌, ◌<◌, ◌≤◌, ◌≡◌, refl, nat_eq, ◌==◌, if◌then◌else◌, ltb, ◌⊎◌, inl, inr,
  Bool-cases, arith,
}

abbrev pub update {ℓ} : {A : Type ℓ} → (ℕ → A) → ℕ → A → ℕ → A
update f i a j = if i == j then a else f j

abbrev pub sum : ℕ → (ℕ → ℕ) → ℕ
sum zero f = 0
sum (suc n) f = sum n f + f n

pub sum-le : (n : ℕ) (f g : ℕ → ℕ) → ((j : ℕ) → f j ≤ g j) → sum n f ≤ sum n g
sum-le zero f g h = omega arith
sum-le (suc n) f g h = omega (arith, h n, sum-le n f g h)

module _ {A : Type 0} (w : A → ℕ) (f : ℕ → A) (i : ℕ) (a : A) where
  sum-update_past : (n : ℕ) → n ≤ i → sum n (λ j. w (update f i a j)) ≡ sum n (λ j. w (f j))
  sum-update_past zero h = refl
  sum-update_past (suc n) h = ground (arith, sum-update_past n (omega arith))

  pub sum-update :
      (n : ℕ) → i < n → sum n (λ j. w (update f i a j)) + w (f i) ≡ sum n (λ j. w (f j)) + w a
  sum-update zero h = absurd (omega arith)
  sum-update (suc n) h = elim (Bool-cases (ltb i n)) [
    | inl below ↦ ground (arith, below, sum-update n (ground (arith, below)))
    | inr last ↦ ground (arith, last, sum-update_past n (ground (arith, last)))
  ]

-- A sum below n has a zero among its n parts.
pub sum-zero : (n : ℕ) (f : ℕ → ℕ) → sum n f < n → (i : ℕ) × (i < n) × (f i ≡ 0)
sum-zero zero f h = absurd (omega arith)
sum-zero (suc n) f h = elim (Bool-cases (f n == 0)) [
  | inl empty ↦ (n, omega arith, ground (arith, empty))
  | inr full ↦
      let (i, below, e) = sum-zero n f (ground (arith, full)) in (i, omega (arith, below), e)
]

pub update-cases :
    {A : Type 0} (f : ℕ → A) (i : ℕ) (a : A) (j : ℕ)
    → ((i ≡ j) × (update f i a j ≡ a)) ⊎ (update f i a j ≡ f j)
update-cases f i a j = elim (Bool-cases (i == j)) [
  | inl same ↦ inl (ground (arith, same), rw same refl)
  | inr other ↦ inr (rw other refl)
]

pub sum-le_count : (n : ℕ) (f : ℕ → ℕ) → ((j : ℕ) → f j ≤ 1) → sum n f ≤ n
sum-le_count zero f h = omega arith
sum-le_count (suc n) f h = omega (arith, h n, sum-le_count n f h)

pub sum-zeros : (n : ℕ) (f : ℕ → ℕ) → ((j : ℕ) → f j ≡ 0) → sum n f ≡ 0
sum-zeros zero f h = refl
sum-zeros (suc n) f h = omega (arith, h n, sum-zeros n f h)
