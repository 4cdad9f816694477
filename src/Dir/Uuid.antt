-- ===== src/Dir/Uuid.antt =====
-- What `genUUID` makes is a file name.
use oci_tool.Prelude.{ℕ, ◌≡◌, ◌≢◌, List, [], ◌∷◌, map, length, All, arith}
use oci_tool.Filesystem.Paths.{slash, IsName}
use oci_tool.Dir.{gen_uuid, uuid_char}

uuid_char-ne_slash : (n : ℕ) → uuid_char n ≢ slash
unfolding uuid_char
uuid_char-ne_slash n = ground arith

map-uuid_char : (u : List ℕ) → All (λ c. c ≢ slash) (map uuid_char u)
map-uuid_char [] = tt
map-uuid_char (n ∷ u) = (uuid_char-ne_slash n, map-uuid_char u)

pub gen_uuid-IsName : (u : List ℕ) → length u ≡ 48 → IsName (gen_uuid u)
unfolding gen_uuid
gen_uuid-IsName [] e = absurd (omega arith)
gen_uuid-IsName (n ∷ u) e = (λ q. cc, map-uuid_char (n ∷ u))
