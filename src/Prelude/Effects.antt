-- ===== src/Prelude/Effects.antt =====
-- A C++ method on a state: what it changes stays changed when it throws. `diverges` says that a
-- loop has used up the fuel, or the supply of inputs, that it was given.
use mathlib.Core.Option.{Option, none, some}
use mathlib.Core.Path.{◌≡◌, refl, ap}
use oci_tool.Prelude.Strings.{Text}

-- The classes of exception that the code tells apart: Copy catches `runtime_error` and what
-- derives from it; `logic_error` (std::out_of_range, std::invalid_argument) passes through.
pub data Exception : Type 0 where
  runtime_error : Text → Exception
  filesystem_error : Exception
  -- those of nlohmann::json, where the one of the parser is told apart
  parse_error : Exception
  json_error : Exception
  logic_error : Exception
  -- a null result is dereferenced, of which C++ says nothing
  null_result : Exception

pub data Outcome {ℓ} (A : Type ℓ) : Type ℓ where
  returns : A → Outcome A
  throws : Exception → Outcome A
  diverges : Outcome A

abbrev pub Exec : Type 0 → Type 0 → Type 0
Exec S A = S → Outcome A × S

abbrev pub continue_with : {S A B : Type 0} → Outcome A → S → (A → Exec S B) → Outcome B × S
continue_with (returns a) s f = f a s
continue_with (throws e) s f = (throws e, s)
continue_with diverges s f = (diverges, s)

infixl 5 ◌>>=◌ ◌>>◌
abbrev pub ◌>>=◌ : {S A B : Type 0} → Exec S A → (A → Exec S B) → Exec S B
◌>>=◌ m f s = continue_with (m s).0 (m s).1 f

abbrev pub ◌>>◌ : {S A B : Type 0} → Exec S A → Exec S B → Exec S B
m >> k = m >>= λ _. k

abbrev pub pure : {S A : Type 0} → A → Exec S A
pure a s = (returns a, s)

abbrev pub throw : {S A : Type 0} → Exception → Exec S A
throw e s = (throws e, s)

abbrev pub get : {S : Type 0} → Exec S S
get s = (returns s, s)

abbrev pub modify : {S : Type 0} → (S → S) → Exec S (Unit {0})
modify f s = (returns tt, f s)

-- The value of a std::string operation that throws std::out_of_range.
abbrev pub in_range : {S A : Type 0} → Option A → Exec S A
in_range none s = (throws logic_error, s)
in_range (some a) s = (returns a, s)

continue-keeps {ℓ} :
    {S A B : Type 0} (P : S → Type ℓ) (o : Outcome A) (s : S) (f : A → Exec S B)
    → P s
    → ((a : A) → P (f a s).1)
    → P (continue_with o s f).1
continue-keeps P (returns a) s f here next = next a
continue-keeps P (throws e) s f here next = here
continue-keeps P diverges s f here next = here

-- A predicate on states holds after a chain if it holds after its first part, and the rest keeps it
-- from there for any value that the first part returns.
pub bind-keeps {ℓ} :
    {S A B : Type 0} (P : S → Type ℓ) (m : Exec S A) (f : A → Exec S B) (s : S)
    → P (m s).1
    → ((a : A) → P (f a (m s).1).1)
    → P ((m >>= f) s).1
bind-keeps P m f s here next = continue-keeps P (m s).0 (m s).1 f here next

continue-agree :
    {S A B : Type 0} (o : Outcome A) (s : S) (f g : A → Exec S B)
    → ((a : A) → f a s ≡ g a s)
    → continue_with o s f ≡ continue_with o s g
continue-agree (returns a) s f g same = same a
continue-agree (throws e) s f g same = refl
continue-agree diverges s f g same = refl

-- Two chains agree that have the same first part and agree after it.
pub bind-agree :
    {S A B : Type 0} (m : Exec S A) (f g : A → Exec S B) (s : S)
    → ((a : A) → f a (m s).1 ≡ g a (m s).1)
    → (m >>= f) s ≡ (m >>= g) s
bind-agree m f g s same = continue-agree (m s).0 (m s).1 f g same

-- A first part that returns hands its value and its state to the rest.
pub bind-returns :
    {S A B : Type 0} (m : Exec S A) (f : A → Exec S B) (s : S) (a : A)
    → (m s).0 ≡ returns a
    → (m >>= f) s ≡ f a (m s).1
bind-returns m f s a done = ap (λ o. continue_with o (m s).1 f) done

continue-returned {ℓ} :
    {S A B : Type 0} (P : S → Type ℓ) (o : Outcome A) (s : S) (f : A → Exec S B) (b : B)
    → (continue_with o s f).0 ≡ returns b
    → ((a : A) → o ≡ returns a → (f a s).0 ≡ returns b → P (f a s).1)
    → P (continue_with o s f).1
continue-returned P (returns a) s f b e last = last a refl e
continue-returned P (throws x) s f b e last = absurd (cc e)
continue-returned P diverges s f b e last = absurd (cc e)

-- What a chain that returns leaves is what its rest leaves, and its first part has returned.
pub bind-returned {ℓ} :
    {S A B : Type 0} (P : S → Type ℓ) (m : Exec S A) (f : A → Exec S B) (s : S) (b : B)
    → ((m >>= f) s).0 ≡ returns b
    → ((a : A) → (m s).0 ≡ returns a → (f a (m s).1).0 ≡ returns b → P (f a (m s).1).1)
    → P ((m >>= f) s).1
bind-returned P m f s b e last = continue-returned P (m s).0 (m s).1 f b e last

pub bind-result {ℓ} :
    {S A B : Type 0} (P : S → Type ℓ) (m : Exec S A) (f : A → Exec S B) (s : S) (b : B)
    → ((m >>= f) s).0 ≡ returns b
    → ((a : A) → (f a (m s).1).0 ≡ returns b → P (f a (m s).1).1)
    → P ((m >>= f) s).1
bind-result P m f s b e last = bind-returned P m f s b e λ a _. last a

continue-after {ℓ} :
    {S A B : Type 0} (P : S → Type ℓ) (o : Outcome A) (s : S) (f : A → Exec S B)
    → P s
    → ((a : A) → o ≡ returns a → P (f a s).1)
    → P (continue_with o s f).1
continue-after P (returns a) s f here next = next a refl
continue-after P (throws e) s f here next = here
continue-after P diverges s f here next = here

-- As `bind-keeps`, for the value that the first part returns.
pub bind-after {ℓ} :
    {S A B : Type 0} (P : S → Type ℓ) (m : Exec S A) (f : A → Exec S B) (s : S)
    → P (m s).1
    → ((a : A) → (m s).0 ≡ returns a → P (f a (m s).1).1)
    → P ((m >>= f) s).1
bind-after P m f s here next = continue-after P (m s).0 (m s).1 f here next

continue-value {ℓ} :
    {S A B : Type 0} (Q : B → Type ℓ) (o : Outcome A) (s : S) (f : A → Exec S B)
    → ((a : A) (b : B) → (f a s).0 ≡ returns b → Q b)
    → (b : B) → (continue_with o s f).0 ≡ returns b
    → Q b
continue-value Q (returns a) s f told b e = told a b e
continue-value Q (throws x) s f told b e = absurd (cc e)
continue-value Q diverges s f told b e = absurd (cc e)

-- What is true of each value of the second part is true of the value of the chain.
pub bind-value {ℓ} :
    {S A B : Type 0} (Q : B → Type ℓ) (m : Exec S A) (f : A → Exec S B) (s : S)
    → ((a : A) (b : B) → (f a (m s).1).0 ≡ returns b → Q b)
    → (b : B) → ((m >>= f) s).0 ≡ returns b
    → Q b
bind-value Q m f s told b e = continue-value Q (m s).0 (m s).1 f told b e
