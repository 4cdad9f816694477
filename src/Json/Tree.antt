-- ===== src/Json/Tree.antt =====
-- A JSON library that meets the assumptions: values as trees.
use oci_tool.Prelude.{
  ℕ, ◌+◌, Bool, true, false, ◌≡◌, refl, ap, Option, none, some, List, [], ◌∷◌, Text, text_eq, ◌==◌,
  if◌then◌else◌,
}
use oci_tool.Json.{JsonLib, IsLawful}

mutual
  pub data Tree : Type 0 where
    leaf : Text → Tree
    count : ℕ → Tree
    array : Trees → Tree
    branch : Fields → Tree

  pub data Trees : Type 0 where
    nil : Trees
    cons : Tree → Trees → Trees

  pub data Fields : Type 0 where
    end : Fields
    field : Text → Tree → Fields → Fields

abbrev to_trees : List Tree → Trees
to_trees [] = nil
to_trees (t ∷ ts) = cons t (to_trees ts)

abbrev to_list : Trees → List Tree
to_list nil = []
to_list (cons t ts) = t ∷ to_list ts

to_list-to_trees : (ts : List Tree) → to_list (to_trees ts) ≡ ts
to_list-to_trees [] = refl
to_list-to_trees (t ∷ ts) = ap (◌∷◌ t) (to_list-to_trees ts)

-- The field that was set last counts.
abbrev find_field : Fields → Text → Option Tree
find_field end i = none
find_field (field k t fs) i = if k == i then some t else find_field fs i

abbrev as_text : Tree → Option Text
as_text (leaf t) = some t
as_text _ = none

abbrev as_count : Tree → Option ℕ
as_count (count n) = some n
as_count _ = none

abbrev as_items : Tree → Option (List Tree)
as_items (array ts) = some (to_list ts)
as_items _ = none

abbrev as_fields : Tree → Option Fields
as_fields (branch fs) = some fs
as_fields _ = none

abbrev has_none : Tree → Bool
has_none (array nil) = true
has_none (branch end) = true
has_none _ = false

abbrev values : Fields → List Tree
values end = []
values (field k t fs) = t ∷ values fs

abbrev elements_of : Tree → List Tree
elements_of (array ts) = to_list ts
elements_of (branch fs) = values fs
elements_of t = t ∷ []

-- The keys of an array are its positions, here of one digit.
abbrev numbered : ℕ → List Tree → List (Text × Tree)
numbered n [] = []
numbered n (t ∷ ts) = ((n + b'0') ∷ [], t) ∷ numbered (n + 1) ts

abbrev members : Fields → List (Text × Tree)
members end = []
members (field k t fs) = (k, t) ∷ members fs

abbrev pairs_of : Tree → List (Text × Tree)
pairs_of (array ts) = numbered 0 (to_list ts)
pairs_of (branch fs) = members fs
pairs_of t = ([], t) ∷ []

abbrev pub tree_json : JsonLib
tree_json = record {
  Json = Tree;
  Obj = Fields;
  empty = end;
  find = find_field;
  set = λ o k v. field k v o;
  object = branch;
  text = leaf;
  num = count;
  items = λ ts. array (to_trees ts);
  get_object = as_fields;
  get_text = as_text;
  get_num = as_count;
  get_items = as_items;
  is_empty = has_none;
  elements = elements_of;
  pairs = pairs_of;
}

pub tree_json-IsLawful : IsLawful tree_json
tree_json-IsLawful = record {
  find-empty = λ k. refl;
  find-set = λ o k i v. refl;
  get_object-object = λ o. refl;
  get_text-text = λ t. refl;
  get_text-items = λ ts. refl;
  get_num-num = λ n. refl;
  get_items-items = λ ts. ap some (to_list-to_trees ts);
}
