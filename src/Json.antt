-- ===== src/Json.antt =====
-- nlohmann::json, which this repository vendors, as a parameter: the calls that the code makes and
-- what its documentation says of them. `none` stands for a thrown json exception, or for `end()`.
-- An object is a type of its own, so that `find` and `operator[]` are never asked of another value.
pub mod Tree
pub mod Stream
pub mod Codec
use oci_tool.Prelude.{ℕ, Bool, ◌≡◌, Option, none, some, List, Text, text_eq, ◌==◌, if◌then◌else◌}
use oci_tool.Prelude.Options.{◌>>=◌}

pub record JsonLib : Type 1 where
  pub Json : Type 0
  pub Obj : Type 0
  -- `json({})`, `j.find( k )` and `j[ k ] = v`
  pub empty : Obj
  pub find : Obj → Text → Option Json
  pub set : Obj → Text → Json → Obj
  -- a value made of an object, a string, an unsigned number, an array
  pub object : Obj → Json
  pub text : Text → Json
  pub num : ℕ → Json
  pub items : List Json → Json
  -- `get`, which throws on a value of another type
  pub get_object : Json → Option Obj
  pub get_text : Json → Option Text
  pub get_num : Json → Option ℕ
  pub get_items : Json → Option (List Json)
  -- `j.empty()`, a loop over `j`, and a loop over `j.items()`
  pub is_empty : Json → Bool
  pub elements : Json → List Json
  pub pairs : Json → List (Text × Json)

pub record IsLawful (J : JsonLib) : Type 0 where
  pub find-empty : (k : Text) → J.find J.empty k ≡ none
  pub find-set :
      (o : J.Obj) (k i : Text) (v : J.Json)
      → J.find (J.set o k v) i ≡ (if k == i then some v else J.find o i)
  pub get_object-object : (o : J.Obj) → J.get_object (J.object o) ≡ some o
  pub get_text-text : (t : Text) → J.get_text (J.text t) ≡ some t
  pub get_text-items : (js : List J.Json) → J.get_text (J.items js) ≡ none
  pub get_num-num : (n : ℕ) → J.get_num (J.num n) ≡ some n
  pub get_items-items : (js : List J.Json) → J.get_items (J.items js) ≡ some js

module _ (J : JsonLib) where
  open J use {Json, Obj, find, get_object, get_text, get_num}

  -- `j.at( k )` followed by `get_to`
  abbrev pub at_text : Obj → Text → Option Text
  at_text o k = find o k >>= get_text

  abbrev pub at_num : Obj → Text → Option ℕ
  at_num o k = find o k >>= get_num

  abbrev pub at_object : Obj → Text → Option Obj
  at_object o k = find o k >>= get_object

  -- `if ( j.find( k ) != j.end() ) j.at( k ).get_to( x )`, where `x` holds `old`
  abbrev pub update {ℓ} : {A : Type ℓ} → (Json → Option A) → A → Option Json → Option A
  update get old none = some old
  update get old (some j) = get j
