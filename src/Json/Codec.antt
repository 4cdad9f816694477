-- ===== src/Json/Codec.antt =====
-- A stream for trees of values: a first number bounds the depth, and each node is written before its
-- parts.
use oci_tool.Prelude.{
  ℕ, zero, suc, ◌+◌, ◌≤◌, ◌<◌, ◌≡◌, refl, Option, none, some, List, [], ◌∷◌, ◌++◌, Text, length,
  take, drop, take-append, drop-append, nat_eq, ◌==◌, if◌then◌else◌, arith,
}
use oci_tool.Prelude.Options.{◌>>=◌}
use oci_tool.Json.Tree.{Tree, Trees, Fields, tree_json}
use oci_tool.Json.Stream.{Stream, IsFaithful}

encode_text : Text → List ℕ → List ℕ
encode_text t rest = length t ∷ (t ++ rest)

decode_text : List ℕ → Option (Text × List ℕ)
decode_text [] = none
decode_text (n ∷ s) = some (take n s, drop n s)

mutual
  unfolding encode_text

  encode : Tree → List ℕ → List ℕ
  encode (Tree.leaf t) rest = 0 ∷ encode_text t rest
  encode (Tree.count n) rest = 1 ∷ n ∷ rest
  encode (Tree.array ts) rest = 2 ∷ encode_items ts rest
  encode (Tree.branch fs) rest = 3 ∷ encode_fields fs rest

  encode_items : Trees → List ℕ → List ℕ
  encode_items Trees.nil rest = 0 ∷ rest
  encode_items (Trees.cons t ts) rest = 1 ∷ encode t (encode_items ts rest)

  encode_fields : Fields → List ℕ → List ℕ
  encode_fields Fields.end rest = 0 ∷ rest
  encode_fields (Fields.field k t fs) rest = 1 ∷ encode_text k (encode t (encode_fields fs rest))

mutual
  size : Tree → ℕ
  size (Tree.leaf t) = 1
  size (Tree.count n) = 1
  size (Tree.array ts) = suc (size_items ts)
  size (Tree.branch fs) = suc (size_fields fs)

  size_items : Trees → ℕ
  size_items Trees.nil = 1
  size_items (Trees.cons t ts) = suc (size t + size_items ts)

  size_fields : Fields → ℕ
  size_fields Fields.end = 1
  size_fields (Fields.field k t fs) = suc (size t + size_fields fs)

decode_count : List ℕ → Option (Tree × List ℕ)
decode_count [] = none
decode_count (n ∷ s) = some (Tree.count n, s)

size_pos : (t : Tree) → 0 < size t
unfolding size
size_pos (Tree.leaf t) = omega arith
size_pos (Tree.count n) = omega arith
size_pos (Tree.array ts) = omega arith
size_pos (Tree.branch fs) = omega arith

size_items_pos : (ts : Trees) → 0 < size_items ts
unfolding size_items
size_items_pos Trees.nil = omega arith
size_items_pos (Trees.cons t ts) = omega arith

size_fields_pos : (fs : Fields) → 0 < size_fields fs
unfolding size_fields
size_fields_pos Fields.end = omega arith
size_fields_pos (Fields.field k t fs) = omega arith

mutual
  unfolding decode_text decode_count

  decode : ℕ → List ℕ → Option (Tree × List ℕ)
  decode zero s = none
  decode (suc f) [] = none
  decode (suc f) (kind ∷ s) =
      let items = decode_items f s in
      let fields = decode_fields f s in
      if kind == 0
      then (decode_text s >>= λ p. some (Tree.leaf p.0, p.1))
      else if kind == 1
      then decode_count s
      else if kind == 2
      then (items >>= λ p. some (Tree.array p.0, p.1))
      else (fields >>= λ p. some (Tree.branch p.0, p.1))

  decode_items : ℕ → List ℕ → Option (Trees × List ℕ)
  decode_items zero s = none
  decode_items (suc f) [] = none
  decode_items (suc f) (kind ∷ s) =
      let more = (decode f s >>= λ p. decode_items f p.1 >>= λ q. some (Trees.cons p.0 q.0, q.1)) in
      if kind == 0 then some (Trees.nil, s) else more

  decode_fields : ℕ → List ℕ → Option (Fields × List ℕ)
  decode_fields zero s = none
  decode_fields (suc f) [] = none
  decode_fields (suc f) (kind ∷ s) =
      let more =
        (decode_text s >>= λ k.
        decode f k.1 >>= λ p. decode_fields f p.1 >>= λ q. some (Fields.field k.0 p.0 q.0, q.1)) in
      if kind == 0 then some (Fields.end, s) else more

mutual
  unfolding size size_items size_fields encode encode_items encode_fields decode decode_items
      decode_fields decode_count

  decode-encode :
      (f : ℕ) (t : Tree) (rest : List ℕ) → size t ≤ f → decode f (encode t rest) ≡ some (t, rest)
  decode-encode zero t rest h = absurd (omega (arith, size_pos t))
  decode-encode (suc f) (Tree.leaf t) rest h = simp (take-append, drop-append)
  decode-encode (suc f) (Tree.count n) rest h = refl
  decode-encode (suc f) (Tree.array ts) rest h =
      simp (decode_items-encode_items f ts rest (omega arith))
  decode-encode (suc f) (Tree.branch fs) rest h =
      simp (decode_fields-encode_fields f fs rest (omega arith))

  decode_items-encode_items :
      (f : ℕ) (ts : Trees) (rest : List ℕ)
      → size_items ts ≤ f
      → decode_items f (encode_items ts rest) ≡ some (ts, rest)
  decode_items-encode_items zero ts rest h = absurd (omega (arith, size_items_pos ts))
  decode_items-encode_items (suc f) Trees.nil rest h = refl
  decode_items-encode_items (suc f) (Trees.cons t ts) rest h = simp (
    decode-encode f t (encode_items ts rest) (omega arith),
    decode_items-encode_items f ts rest (omega arith),
  )

  decode_fields-encode_fields :
      (f : ℕ) (fs : Fields) (rest : List ℕ)
      → size_fields fs ≤ f
      → decode_fields f (encode_fields fs rest) ≡ some (fs, rest)
  decode_fields-encode_fields zero fs rest h = absurd (omega (arith, size_fields_pos fs))
  decode_fields-encode_fields (suc f) Fields.end rest h = refl
  decode_fields-encode_fields (suc f) (Fields.field k t fs) rest h = simp (
    take-append,
    drop-append,
    decode-encode f t (encode_fields fs rest) (omega arith),
    decode_fields-encode_fields f fs rest (omega arith),
  )

read_tree : List ℕ → Option Tree
read_tree [] = none
read_tree (f ∷ s) = decode_fields f s >>= λ p. some (Tree.branch p.0)

read_first : List ℕ → ℕ
read_first [] = 0
read_first (n ∷ s) = n

unfoldable pub tree_stream : Stream tree_json
unfolding size_fields encode_fields decode_fields read_tree read_first
tree_stream = record {
  print = λ fs. size_fields fs ∷ encode_fields fs [];
  read = read_tree;
  print_number = λ n. n ∷ [];
  read_number = read_first;
}

pub tree_stream-IsFaithful : IsFaithful tree_json tree_stream
unfolding tree_stream
tree_stream-IsFaithful = record {
  read-print = λ fs. simp (decode_fields-encode_fields (size_fields fs) fs [] (omega arith));
  read_number-print_number = λ n h. refl;
}
