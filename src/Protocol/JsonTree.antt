-- ===== src/Protocol/JsonTree.antt =====
-- JSON values as trees, of texts and of maps: they meet what Json asks of the library.
use tenodera.Prelude.{
  ◌≡◌, refl, Option, none, some, String, string_eq, ◌==◌, ==_iff, arith, if◌then◌else◌,
}
use tenodera.Protocol.Json.{Json}

mutual
  pub data Tree : Type 0 where
    leaf : String → Tree
    node : Branches → Tree

  pub data Branches : Type 0 where
    nil : Branches
    entry : String → Tree → Branches → Branches

abbrev pub find_branch : String → Branches → Option Tree
find_branch k nil = none
find_branch k (entry j t b) = if j == k then some t else find_branch k b

-- The newest entry of a key stands first.
abbrev pub cut : String → Branches → Branches
cut k nil = nil
cut k (entry j t b) = if j == k then cut k b else entry j t (cut k b)

pub find_branch-cut :
    (k j : String) (b : Branches)
    → find_branch j (cut k b) ≡ (if k == j then none else find_branch j b)
find_branch-cut k j nil = ground arith
find_branch-cut k j (entry i t b) =
    ground (arith, ==_iff i k, ==_iff i j, ==_iff k j, find_branch-cut k j b)

abbrev pub leaf_text : Tree → Option String
leaf_text (leaf s) = some s
leaf_text (node b) = none

abbrev pub node_branches : Tree → Option Branches
node_branches (leaf s) = none
node_branches (node b) = some b

abbrev pub tree_json : Json
tree_json = record {
  Value = Tree;
  Fields = Branches;
  string = λ s. leaf s;
  object = λ b. node b;
  as_str = leaf_text;
  as_object = node_branches;
  empty = nil;
  get = find_branch;
  insert = λ k v b. entry k v b;
  remove = cut;
  as_str-string = λ s. refl;
  as_object-object = λ b. refl;
  get-empty = λ k. refl;
  get-insert = λ k j v b. refl;
  get-remove = find_branch-cut;
}
