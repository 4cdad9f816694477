-- ===== src/Json/Stream.antt =====
-- JSON and numbers on file streams: `<<` and `>>` of nlohmann::json and of a std::uint16_t, as a
-- parameter with their laws.
use oci_tool.Prelude.{ℕ, ◌<◌, ◌^◌, ◌≡◌, Option, some, List}
use oci_tool.Json.{JsonLib}

pub record Stream (J : JsonLib) : Type 0 where
  -- `none` is a thrown parse_error
  pub print : J.Obj → List ℕ
  pub read : List ℕ → Option J.Json
  -- what `>>` leaves in the number
  pub print_number : ℕ → List ℕ
  pub read_number : List ℕ → ℕ

pub record IsFaithful (J : JsonLib) (S : Stream J) : Type 0 where
  pub read-print : (o : J.Obj) → S.read (S.print o) ≡ some (J.object o)
  pub read_number-print_number : (n : ℕ) → n < 2 ^ 16 → S.read_number (S.print_number n) ≡ n
