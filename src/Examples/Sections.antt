-- ===== src/Examples/Sections.antt =====
-- Property trees with keys in their branches, and the theorems on written schemas at concrete inputs.
use ndn_multi_party_signatur.Prelude.{
  ◌<◌, ◌≡◌, ◌≢◌, refl, ap, ◌∙◌, Bool-cases, false, inl, inr, Option, none, some, List, [], ◌∷◌,
  ◌++◌, length, length-append, Text, codes, text_eq, text_eq_refl, find, ok, throws, bad_schema,
  if◌then◌else◌, ◌==◌, arith, All,
}
use ndn_multi_party_signatur.Schema.Pattern.{
  WildCardName, of_string, append_component, append_components, times_prefix,
}
use ndn_multi_party_signatur.Schema.Policy.{MultipartySchema}
use ndn_multi_party_signatur.Schema.Section.{
  ConfigKey, config_pkt_name, config_rule_id, config_all_of, config_at_least_num, config_at_least,
  key_text, SignedInt, non_negative, PropertyTrees, to_section, to_string, from_schema_section,
  from_info, add_patterns, patterns_node,
}
use ndn_multi_party_signatur.Schema.Section.Nodes.{reread}
use ndn_multi_party_signatur.Schema.Section.Reread.{reread_schema, from_schema_section-to_section}
use ndn_multi_party_signatur.Schema.Section.Lost.{
  from_info-to_string, from_schema_section-to_section_times,
}
use ndn_multi_party_signatur.Examples.Names.{PlainName, Component, plain_names}
use ndn_multi_party_signatur.Examples.Schemas.{name, key_a, key_b, key_c}

mutual
  pub data PlainTree : Type 0 where
    node : Text → Branches → PlainTree

  pub data Branches : Type 0 where
    bare : Branches
    branch : Text → PlainTree → Branches → Branches

abbrev branch_list : Branches → List (Text × PlainTree)
branch_list bare = []
branch_list (branch k c bs) = (k, c) ∷ branch_list bs

abbrev add_branch : Branches → Text → PlainTree → Branches
add_branch bare j t = branch j t bare
add_branch (branch k c bs) j t = branch k c (add_branch bs j t)

abbrev find_branch : Branches → Text → Option PlainTree
find_branch bare j = none
find_branch (branch k c bs) j = let rest = find_branch bs j in if text_eq k j then some c else rest

abbrev tree_value : PlainTree → Text
tree_value (node v bs) = v

abbrev tree_branches : PlainTree → Branches
tree_branches (node v bs) = bs

abbrev grow : PlainTree → Text → PlainTree → PlainTree
grow (node v bs) k c = node v (add_branch bs k c)

abbrev set_branch : Branches → Text → Text → Branches
set_branch bare j v = branch j (node v bare) bare
set_branch (branch k c bs) j v =
    let rest = set_branch bs j v in
    if text_eq k j then branch k (node v (tree_branches c)) bs else branch k c rest

abbrev put_tree : PlainTree → Text → Text → PlainTree
put_tree t k v = elim (find_branch (tree_branches t) k) [
  | none ↦ grow t k (node v bare)
  | some c ↦ node (tree_value t) (set_branch (tree_branches t) k v)
]

abbrev first_int : Text → Option SignedInt
first_int [] = none
first_int (n ∷ s) = some (non_negative n)

list-add :
    (bs : Branches) (k : Text) (c : PlainTree)
    → branch_list (add_branch bs k c) ≡ branch_list bs ++ (k, c) ∷ []
list-add bare k c = refl
list-add (branch j d bs) k c = ap (λ (x : List (Text × PlainTree)). (j, d) ∷ x) (list-add bs k c)

find-added :
    (bs : Branches) (k : Text) (c : PlainTree)
    → find_branch bs k ≡ none
    → find_branch (add_branch bs k c) k ≡ some c
find-added bare k c h = rw (text_eq_refl k) refl
find-added (branch j d bs) k c h = elim (Bool-cases (text_eq j k)) [
  | inl same ↦ cc (rw same at h)
  | inr other ↦ rw other (find-added bs k c (rw other at h))
]

find-other :
    (bs : Branches) (j k : Text) (c : PlainTree)
    → text_eq j k ≡ false
    → find_branch (add_branch bs j c) k ≡ find_branch bs k
find-other bare j k c h = rw h refl
find-other (branch i d bs) j k c h = rw (find-other bs j k c h) refl

keys-differ : (j k : ConfigKey) → j ≢ k → text_eq (key_text j) (key_text k) ≡ false
unfolding text_eq
keys-differ config_pkt_name config_pkt_name h = absurd (h refl)
keys-differ config_rule_id config_rule_id h = absurd (h refl)
keys-differ config_all_of config_all_of h = absurd (h refl)
keys-differ config_at_least_num config_at_least_num h = absurd (h refl)
keys-differ config_at_least config_at_least h = absurd (h refl)
keys-differ config_pkt_name config_rule_id h = refl
keys-differ config_pkt_name config_all_of h = refl
keys-differ config_pkt_name config_at_least_num h = refl
keys-differ config_pkt_name config_at_least h = refl
keys-differ config_rule_id config_pkt_name h = refl
keys-differ config_rule_id config_all_of h = refl
keys-differ config_rule_id config_at_least_num h = refl
keys-differ config_rule_id config_at_least h = refl
keys-differ config_all_of config_pkt_name h = refl
keys-differ config_all_of config_rule_id h = refl
keys-differ config_all_of config_at_least_num h = refl
keys-differ config_all_of config_at_least h = refl
keys-differ config_at_least_num config_pkt_name h = refl
keys-differ config_at_least_num config_rule_id h = refl
keys-differ config_at_least_num config_all_of h = refl
keys-differ config_at_least_num config_at_least h = refl
keys-differ config_at_least config_pkt_name h = refl
keys-differ config_at_least config_rule_id h = refl
keys-differ config_at_least config_all_of h = refl
keys-differ config_at_least config_at_least_num h = refl

length-children-grow :
    (t : PlainTree) (k : Text) (c : PlainTree)
    → 0 < length (branch_list (tree_branches (grow t k c)))
length-children-grow (node v bs) k c =
    omega (arith, ap length (list-add bs k c), length-append (branch_list bs) ((k, c) ∷ []))

branches-grow :
    (t : PlainTree) (k : Text) (c : PlainTree)
    → tree_branches (grow t k c) ≡ add_branch (tree_branches t) k c
branches-grow (node v bs) k c = refl

put_tree-absent :
    (t : PlainTree) (k v : Text)
    → find_branch (tree_branches t) k ≡ none
    → put_tree t k v ≡ grow t k (node v bare)
put_tree-absent (node u bs) k v h = rw (put_tree, h) refl

-- A parser of INFO that knows one text.
abbrev plain_trees : PlainTree → PropertyTrees PlainTree
plain_trees known = record {
  empty_tree = node [] bare;
  leaf = λ v. node v bare;
  value = tree_value;
  children = λ t. branch_list (tree_branches t);
  put_value = λ t v. node v (tree_branches t);
  put = put_tree;
  add_child = grow;
  push_back = grow;
  get_child_optional = λ t k. find_branch (tree_branches t) k;
  get_int = λ t. first_int (tree_value t);
  decimal = λ n. n ∷ [];
  read_json_file = λ s. throws bad_schema;
  read_json_stream = λ s. throws bad_schema;
  read_info_file = λ s. throws bad_schema;
  read_info_stream = λ s. ok known;
  write_info = λ t. codes "info";
  value-leaf = λ v. refl;
  value-put_value = λ t v. refl;
  children-empty = refl;
  children-push_back = λ t k c. rw (branches-grow t k c) (list-add (tree_branches t) k c);
  length-children-add = length-children-grow;
  put_absent = λ t k v h. put_tree-absent t (key_text k) v h;
  get_child-empty = λ k. refl;
  get_child-added = λ t k c h.
      rw (branches-grow t (key_text k) c) (find-added (tree_branches t) (key_text k) c h);
  get_child-other = λ t j k c ne.
      rw (branches-grow t (key_text j) c)
        (find-other (tree_branches t) (key_text j) (key_text k) c (keys-differ j k ne));
  get_int-decimal = λ n h. refl;
}

-- Name::toUri for names of texts, with a wildcard as its type and three periods.
abbrev part_uri : Component → Text
part_uri c = if c.kind == 8 then c.text else codes "65534=..."

abbrev parts_uri : PlainName → Text
parts_uri [] = []
parts_uri (c ∷ n) = b'/' ∷ part_uri c ++ parts_uri n

abbrev uri : PlainName → Text
uri [] = b'/' ∷ []
uri (c ∷ n) = b'/' ∷ part_uri c ++ parts_uri n

uri-slash : (n : PlainName) → (u : Text) × (uri n ≡ b'/' ∷ u)
uri-slash [] = ([], refl)
uri-slash (c ∷ n) = (part_uri c ++ parts_uri n, refl)

abbrev of_text : PlainName → WildCardName PlainName
of_text n = record { name = n; times = 1 }

abbrev written : MultipartySchema PlainName
written = record {
  pkt_name = of_text (name ("data" ∷ []));
  rule_id = codes "r";
  signers = of_text key_a ∷ of_text key_b ∷ [];
  optional_signers = of_text key_c ∷ [];
  min_optional_signers = 1;
}

a_said : of_string (uri key_a) ≡ ok (of_text key_a)
unfolding of_string append_components append_component find times_prefix text_eq
a_said = refl

b_said : of_string (uri key_b) ≡ ok (of_text key_b)
unfolding of_string append_components append_component find times_prefix text_eq
b_said = refl

c_said : of_string (uri key_c) ≡ ok (of_text key_c)
unfolding of_string append_components append_component find times_prefix text_eq
c_said = refl

data_said : of_string (uri written.pkt_name.name) ≡ ok written.pkt_name
unfolding of_string append_components append_component find times_prefix text_eq
data_said = refl

abbrev trees : PropertyTrees PlainTree
trees = plain_trees (to_section (plain_trees (node [] bare)) uri written)

section_read :
    trees.read_info_stream (to_string trees uri written) ≡ ok (to_section trees uri written)
unfolding to_section add_patterns patterns_node
section_read = refl

from_info-to_string_example : from_info trees (to_string trees uri written) ≡ ok written
from_info-to_string_example =
    from_info-to_string trees uri written bad_schema (omega arith) (λ e. cc) (λ e. cc) data_said
      (a_said, (b_said, tt)) (c_said, tt) refl section_read

-- The same with a multiplicity.
abbrev multiple : MultipartySchema PlainName
multiple = record written { signers = record { name = key_a; times = 3 } ∷ [] }

abbrev single : MultipartySchema PlainName
single = record written { signers = record { name = key_a; times = 1 } ∷ [] }

multiple_read : from_schema_section trees (to_section trees uri multiple) ≡ ok single
unfolding reread_schema reread
multiple_read =
    from_schema_section-to_section trees uri multiple (omega arith) (λ e. cc) (λ e. cc)
    ∙ rw (reread_schema, data_said, a_said, c_said) refl

from_schema_section-to_section_times_example :
    (single.pkt_name.times ≡ 1)
    × All (λ p. p.times ≡ 1) single.signers
    × (length single.signers ≡ length multiple.signers)
    × All (λ p. p.times ≡ 1) single.optional_signers
    × (length single.optional_signers ≡ length multiple.optional_signers)
from_schema_section-to_section_times_example =
    from_schema_section-to_section_times trees uri multiple single (omega arith) (λ e. cc) uri-slash
      multiple_read
