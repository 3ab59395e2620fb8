-- ===== src/Tests/JsonTrees.antt =====
-- A JSON library for the runs of Catalogues: trees, and a text of numbers that is read back.
use trainer.Prelude.{
  ℕ, zero, suc, ◌≡◌, refl, Bool, true, false, Option, none, some, List, [], ◌∷◌, ◌++◌, Bytes, codes,
  bytes_beq, length, take, if◌then◌else◌, Bool-cases, inl, inr, arith,
}
use trainer.Catalogue.Columns.{JsonText}
use trainer.Catalogue.RoundTrip.{JsonLaws}
use trainer.Administration.{AdminJson}
use trainer.Administration.Forms.{AdminLaws, lookup_member}

pub data Tree : Type 0 where
  text : Bytes → Tree
  empty_array empty_object : Tree
  item : Tree → Tree → Tree
  entry : Bytes → Tree → Tree → Tree
  number : ℕ → Tree
  flag : Bool → Tree

abbrev array_of : List Tree → Tree
array_of [] = empty_array
array_of (t ∷ ts) = item t (array_of ts)

abbrev object_of : List (Bytes × Tree) → Tree
object_of [] = empty_object
object_of ((k, v) ∷ rest) = entry k v (object_of rest)

abbrev is_array_tree : Tree → Bool
is_array_tree empty_array = true
is_array_tree (item t rest) = true
is_array_tree _ = false

abbrev is_object_tree : Tree → Bool
is_object_tree empty_object = true
is_object_tree (entry k v rest) = true
is_object_tree _ = false

abbrev is_text : Tree → Bool
is_text (text b) = true
is_text _ = false

abbrev text_of : Tree → Bytes
text_of (text b) = b
text_of _ = []

abbrev items_of : Tree → List Tree
items_of (item t rest) = t ∷ items_of rest
items_of _ = []

abbrev member_of : Tree → Bytes → Tree
member_of (entry k v rest) key =
    let other = member_of rest key in if bytes_beq k key then v else other
member_of _ key = empty_array

abbrev has_member : Tree → Bytes → Bool
has_member (entry k v rest) key =
    let other = has_member rest key in if bytes_beq k key then true else other
has_member _ key = false

abbrev print : Tree → Bytes
print (text b) = 8 ∷ suc (length b) ∷ b
print empty_array = 1 ∷ []
print empty_object = 2 ∷ []
print (item t rest) = 3 ∷ (print t ++ print rest)
print (number n) = 5 ∷ n ∷ []
print (flag true) = 6 ∷ []
print (flag false) = 7 ∷ []
print (entry k v rest) = 4 ∷ suc (length k) ∷ (k ++ (print v ++ print rest))

abbrev drop : ℕ → Bytes → Bytes
drop zero bytes = bytes
drop (suc n) [] = []
drop (suc n) (b ∷ bytes) = drop n bytes

-- The tree at the start of the text and what follows it.
abbrev scan : ℕ → Bytes → Option (Tree × Bytes)
scan zero bytes = none
scan (suc fuel) (suc zero ∷ bytes) = some (empty_array, bytes)
scan (suc fuel) (suc (suc zero) ∷ bytes) = some (empty_object, bytes)
scan (suc fuel) (suc (suc (suc zero)) ∷ bytes) = elim (scan fuel bytes) [
  | none ↦ none
  | some found ↦ elim (scan fuel found.1) [
    | none ↦ none
    | some rest ↦ some (item found.0 rest.0, rest.1)
  ]
]
scan (suc fuel) (suc (suc (suc (suc zero))) ∷ suc n ∷ bytes) = elim (scan fuel (drop n bytes)) [
  | none ↦ none
  | some found ↦ elim (scan fuel found.1) [
    | none ↦ none
    | some rest ↦ some (entry (take n bytes) found.0 rest.0, rest.1)
  ]
]
scan (suc fuel) (suc (suc (suc (suc (suc zero)))) ∷ n ∷ bytes) = some (number n, bytes)
scan (suc fuel) (suc (suc (suc (suc (suc (suc zero))))) ∷ bytes) = some (flag true, bytes)
scan (suc fuel) (suc (suc (suc (suc (suc (suc (suc zero)))))) ∷ bytes) = some (flag false, bytes)
scan (suc fuel) (suc (suc (suc (suc (suc (suc (suc (suc zero))))))) ∷ suc n ∷ bytes) =
    some (text (take n bytes), drop n bytes)
scan (suc fuel) _ = none

abbrev parse : Bytes → Option Tree
parse bytes = elim (scan (length bytes) bytes) [ none ↦ none | some found ↦ some found.0 ]

abbrev pub trees : JsonText Tree
trees = record {
  values = record {
    is_object = is_object_tree;
    is_member = has_member;
    member = member_of;
    is_string = is_text;
    as_string = text_of;
  };
  string = text;
  array = array_of;
  object = object_of;
  is_array = is_array_tree;
  elements = items_of;
  write = print;
  read = parse;
}

array_of-is_array : (ts : List Tree) → is_array_tree (array_of ts) ≡ true
array_of-is_array [] = refl
array_of-is_array (t ∷ ts) = refl

items_of-array_of : (ts : List Tree) → items_of (array_of ts) ≡ ts
items_of-array_of [] = refl
items_of-array_of (t ∷ ts) = rw (items_of-array_of ts) refl

object_of-is_object : (members : List (Bytes × Tree)) → is_object_tree (object_of members) ≡ true
object_of-is_object [] = refl
object_of-is_object ((k, v) ∷ rest) = refl

pub trees-JsonLaws : JsonLaws trees
unfolding bytes_beq codes
trees-JsonLaws = record {
  is_array-array = array_of-is_array;
  elements-array = items_of-array_of;
  is_string-string = λ t. refl;
  as_string-string = λ t. refl;
  is_object-object = object_of-is_object;
  member-input = λ x y. refl;
  member-output = λ x y. refl;
}

abbrev is_number : Tree → Bool
is_number (number n) = true
is_number _ = false

abbrev number_of : Tree → ℕ
number_of (number n) = n
number_of _ = 0

abbrev is_flag : Tree → Bool
is_flag (flag b) = true
is_flag _ = false

abbrev flag_of : Tree → Bool
flag_of (flag b) = b
flag_of _ = false

abbrev pub admin_trees : AdminJson Tree
admin_trees = record {
  texts = trees;
  boolean = flag;
  integer = number;
  is_bool = is_flag;
  as_bool = flag_of;
  is_int64 = is_number;
  is_negative = λ t. false;
  natural = number_of;
  has_names = is_object_tree;
}

member_of-object_of :
    (members : List (Bytes × Tree)) (name : Bytes) (v : Tree)
    → lookup_member name members ≡ some v
    → member_of (object_of members) name ≡ v
member_of-object_of [] name v h = absurd (cc h)
member_of-object_of ((k, x) ∷ rest) name v h = elim (Bool-cases (bytes_beq k name)) [
  | inl t ↦ rw t (ground (arith, h, t))
  | inr t ↦ rw t (member_of-object_of rest name v (ground (arith, h, t)))
]

pub trees-AdminLaws : AdminLaws admin_trees
trees-AdminLaws = record {
  json = trees-JsonLaws;
  member-object = member_of-object_of;
  is_bool-boolean = λ b. refl;
  as_bool-boolean = λ b. refl;
  is_int64-integer = λ n h. refl;
  is_negative-integer = λ n h. refl;
  natural-integer = λ n h. refl;
  has_names-object = object_of-is_object;
}
