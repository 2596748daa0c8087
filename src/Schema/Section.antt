-- ===== src/Schema/Section.antt =====
-- How src/schema.cpp reads schemas from property trees and writes them: fromSchemaSection, fromJSON,
-- fromINFO and toString. The trees are Boost's and Name::toUri is ndn-cxx's, neither of which is part
-- of the repository: they are parameters of the model.
pub mod Nodes
pub mod Reread
pub mod Lost
use ndn_multi_party_signatur.Prelude.{
  ℕ, ◌-◌, ◌%◌, ◌^◌, ◌<◌, ◌≡◌, ◌≢◌, Bool, true, false, not, ◌&&◌, Option, none, some, List, [], ◌∷◌,
  ◌++◌, length, ltb, ◌==◌, Text, codes, text_eq, Result, ok, throws, bad_schema, if◌then◌else◌,
  ◌>>=◌,
}
use ndn_multi_party_signatur.Ndn.{NdnName}
use ndn_multi_party_signatur.Schema.Pattern.{WildCardName, of_string}
use ndn_multi_party_signatur.Schema.Policy.{MultipartySchema}

-- The keys CONFIG_PKT_NAME, CONFIG_RULE_ID, CONFIG_ALL_OF, CONFIG_AT_LEAST_NUM, CONFIG_AT_LEAST
pub data ConfigKey : Type 0 where
  config_pkt_name config_rule_id config_all_of config_at_least_num config_at_least : ConfigKey

abbrev pub key_text : ConfigKey → Text
key_text config_pkt_name = codes "pkt-name"
key_text config_rule_id = codes "rule-id"
key_text config_all_of = codes "all-of"
key_text config_at_least_num = codes "at-least-num"
key_text config_at_least = codes "at-least"

-- An `int`, by its absolute value.
pub data SignedInt : Type 0 where
  non_negative negative : ℕ → SignedInt

-- The conversion of an `int` to `size_t`.
abbrev pub to_size : SignedInt → ℕ
to_size (non_negative n) = n
to_size (negative n) = (2 ^ 64 - n) % 2 ^ 64

-- boost::property_tree::ptree: a value and children with keys.
pub record PropertyTrees (Tree : Type 0) : Type 0 where
  -- ptree(), ptree(value), data(), the children from begin() to end()
  pub empty_tree : Tree
  pub leaf : Text → Tree
  pub value : Tree → Text
  pub children : Tree → List (Text × Tree)
  -- put("", value), put(key, value), add_child(key, tree), push_back(key, tree)
  pub put_value : Tree → Text → Tree
  pub put : Tree → Text → Text → Tree
  pub add_child : Tree → Text → Tree → Tree
  pub push_back : Tree → Text → Tree → Tree
  -- get_child_optional(key), get_value_optional<int>(), and the text of a size_t
  pub get_child_optional : Tree → Text → Option Tree
  pub get_int : Tree → Option SignedInt
  pub decimal : ℕ → Text
  -- read_json and read_info of a file and of a stream, and write_info
  pub read_json_file : Text → Result Tree
  pub read_json_stream : Text → Result Tree
  pub read_info_file : Text → Result Tree
  pub read_info_stream : Text → Result Tree
  pub write_info : Tree → Text
  pub value-leaf : (v : Text) → value (leaf v) ≡ v
  pub value-put_value : (t : Tree) (v : Text) → value (put_value t v) ≡ v
  pub children-empty : children empty_tree ≡ []
  pub children-push_back :
      (t : Tree) (k : Text) (c : Tree) → children (push_back t k c) ≡ children t ++ (k, c) ∷ []
  pub length-children-add :
      (t : Tree) (k : Text) (c : Tree) → 0 < length (children (add_child t k c))
  pub put_absent :
      (t : Tree) (k : ConfigKey) (v : Text)
      → get_child_optional t (key_text k) ≡ none
      → put t (key_text k) v ≡ add_child t (key_text k) (leaf v)
  pub get_child-empty : (k : Text) → get_child_optional empty_tree k ≡ none
  pub get_child-added :
      (t : Tree) (k : ConfigKey) (c : Tree)
      → get_child_optional t (key_text k) ≡ none
      → get_child_optional (add_child t (key_text k) c) (key_text k) ≡ some c
  pub get_child-other :
      (t : Tree) (j k : ConfigKey) (c : Tree)
      → j ≢ k
      → get_child_optional (add_child t (key_text j) c) (key_text k)
        ≡ get_child_optional t (key_text k)
  pub get_int-decimal : (n : ℕ) → n < 2 ^ 31 → get_int (leaf (decimal n)) ≡ some (non_negative n)

module _ {Tree : Type 0} (trees : PropertyTrees Tree) where
  -- config.get(key, default) for a text and for an int
  unfoldable pub get_text : Tree → ConfigKey → Text → Text
  get_text config key default = elim (trees.get_child_optional config (key_text key)) [
    | none ↦ default
    | some c ↦ trees.value c
  ]

  unfoldable pub get_number : Tree → ConfigKey → SignedInt → SignedInt
  get_number config key default = elim (trees.get_child_optional config (key_text key)) [
    | none ↦ default
    | some c ↦ elim (trees.get_int c) [ none ↦ default | some n ↦ n ]
  ]

module _ {Tree Name : Type 0} (trees : PropertyTrees Tree) where
  -- The loops that add an unnamed node for each pattern.
  unfoldable pub patterns_node : (Name → Text) → Tree → List (WildCardName Name) → Tree
  patterns_node to_uri node [] = node
  patterns_node to_uri node (p ∷ ps) =
      patterns_node to_uri
        (trees.push_back node [] (trees.put_value trees.empty_tree (to_uri p.name))) ps

  -- The child for a list of patterns, where there are any.
  unfoldable pub add_patterns : (Name → Text) → Tree → ConfigKey → List (WildCardName Name) → Tree
  add_patterns to_uri content key ps =
      if length ps == 0
      then content
      else trees.add_child content (key_text key) (patterns_node to_uri trees.empty_tree ps)

  -- The tree that toString writes.
  unfoldable pub to_section : (Name → Text) → MultipartySchema Name → Tree
  to_section to_uri schema =
      let named =
        trees.put trees.empty_tree (key_text config_pkt_name) (to_uri schema.pkt_name.name) in
      let content = trees.put named (key_text config_rule_id) schema.rule_id in
      let counted =
        if ltb 0 schema.min_optional_signers
        then trees.put content (key_text config_at_least_num)
            (trees.decimal schema.min_optional_signers)
        else content in
      add_patterns to_uri (add_patterns to_uri counted config_all_of schema.signers) config_at_least
        schema.optional_signers

  -- MultipartySchema::toString
  unfoldable pub to_string : (Name → Text) → MultipartySchema Name → Text
  to_string to_uri schema = trees.write_info (to_section to_uri schema)

module _ {Tree Name : Type 0} (trees : PropertyTrees Tree) ⦃N : NdnName Name⦄ where
  -- The loops over the children of a section.
  unfoldable pub read_patterns : List (Text × Tree) → Result (List (WildCardName Name))
  read_patterns [] = ok []
  read_patterns ((k, c) ∷ cs) = do p ← of_string (trees.value c); ps ← read_patterns cs; ok (p ∷ ps)

  unfoldable pub read_section : Option Tree → Result (List (WildCardName Name))
  read_section none = ok []
  read_section (some c) = read_patterns (trees.children c)

  -- fromSchemaSection
  unfoldable pub from_schema_section : Tree → Result (MultipartySchema Name)
  from_schema_section config =
      if not (
        not (length (trees.children config) == 0)
        && (not (text_eq (get_text trees config config_pkt_name []) [])
            && not (text_eq (get_text trees config config_rule_id []) [])))
      then throws bad_schema
      else do
        pkt_name ← of_string (get_text trees config config_pkt_name [])
        signers ← read_section (trees.get_child_optional config (key_text config_all_of))
        optional_signers ← read_section (trees.get_child_optional config (key_text config_at_least))
        ok (record {
          pkt_name = pkt_name;
          rule_id = get_text trees config config_rule_id [];
          signers = signers;
          optional_signers = optional_signers;
          min_optional_signers =
              to_size (get_number trees config config_at_least_num (non_negative 0));
        })

  -- MultipartySchema::fromJSON
  unfoldable pub from_json : Text → Result (MultipartySchema Name)
  from_json file_or_config_str = elim (trees.read_json_file file_or_config_str) [
    | ok config ↦ from_schema_section config
    | throws e ↦ trees.read_json_stream file_or_config_str >>= from_schema_section
  ]

  -- MultipartySchema::fromINFO
  unfoldable pub from_info : Text → Result (MultipartySchema Name)
  from_info file_or_config_str = elim (trees.read_info_file file_or_config_str) [
    | ok config ↦ from_schema_section config
    | throws e ↦ trees.read_info_stream file_or_config_str >>= from_schema_section
  ]
