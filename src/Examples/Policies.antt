-- ===== src/Examples/Policies.antt =====
-- The theorems on wildcard names, schemas and containers at the inputs of `Schemas`.
use ndn_multi_party_signatur.Prelude.{
  ℕ, ◌≤◌, ◌<◌, ◌≡◌, refl, ◌↔◌, ◌⊎◌, true, false, not, ◌&&◌, List, [], ◌∷◌, length, codes, count_if,
  replicate, arith, ok, All, text_eq,
}
use ndn_multi_party_signatur.Ordered.{same}
use ndn_multi_party_signatur.Ordered.Set.{contains, insert, erase, insert_all, Distinct, IsSorted}
use ndn_multi_party_signatur.Ordered.Map.{keys}
use ndn_multi_party_signatur.SignerList.{MpsSignerList, empty_list}
use ndn_multi_party_signatur.Schema.Pattern.{match, of_string}
use ndn_multi_party_signatur.Schema.Pattern.Match.{Matches, match_iff}
use ndn_multi_party_signatur.Schema.Pattern.Parse.{components, append_all, multiplicity}
use ndn_multi_party_signatur.Schema.Pattern.Reads.{
  of_string_slashed, match-of_string_iff, PartsMatch,
}
use ndn_multi_party_signatur.Schema.Policy.{
  MultipartySchema, match_packet, pass_schema, pass_required, total_matched,
}
use ndn_multi_party_signatur.Schema.Policy.Distinct.{
  Satisfies, Required, matched_sum, pass_schema-Satisfies_iff,
}
use ndn_multi_party_signatur.Schema.Policy.Overlap.{pass_schema_overlap}
use ndn_multi_party_signatur.Schema.Policy.Repeats.{pass_schema-replicate}
use ndn_multi_party_signatur.Schema.Container.{
  MultipartySchemaContainer, get_matched_keys, gather_matched, container_pass_schema,
}
use ndn_multi_party_signatur.Schema.Container.Matched.{get_matched_keys_lem}
use ndn_multi_party_signatur.Schema.Container.Available.{Outcome, get_available_signers-Outcome}
use ndn_multi_party_signatur.Schema.Container.Decide.{
  Decides, Trusted, container_pass_schema_iff, container_pass_schema-get_available_signers,
}
use ndn_multi_party_signatur.Schema.Replacement.{replace_signer, mark_unavailable}
use ndn_multi_party_signatur.Schema.Replacement.Grow.{NamedKeys}
use ndn_multi_party_signatur.Schema.Replacement.Renewed.{remaining}
use ndn_multi_party_signatur.Schema.Replacement.Promise.{Replaced, replace_signer-Replaced}
use ndn_multi_party_signatur.Schema.Replacement.Keeps.{
  replace_signer-pass_schema, replace_signer-Required,
}
use ndn_multi_party_signatur.Schema.Replacement.Shortfall.{replace_signer-shortfall}
use ndn_multi_party_signatur.Examples.Names.{
  PlainName, plain_names, list_ord, component_ord, nat_ord,
}
use ndn_multi_party_signatur.Examples.Schemas.{
  name, key_a, key_b, key_c, key_d, two_a, three_b, packet_pattern, prefix_schema, four_keys,
  four_signers, read_two_a,
}

abbrev pub packet_name : PlainName
packet_name = name ("data" ∷ "1" ∷ [])

abbrev four_names : List PlainName
four_names = key_a ∷ key_b ∷ key_c ∷ key_d ∷ []

pub prefix_schema-Decides : Decides (prefix_schema ∷ []) packet_name prefix_schema
unfolding match_packet match text_eq
prefix_schema-Decides = record {
  before = [];
  after = [];
  split = refl;
  others = tt;
  matches = refl;
}

pub four_keys-NamedKeys : NamedKeys four_keys
unfolding contains same
four_keys-NamedKeys [] h = cc
four_keys-NamedKeys (c ∷ k) h = ground arith

pub four_names-Distinct : Distinct four_names
unfolding contains same
four_names-Distinct = (refl, (refl, (refl, (refl, tt))))

pub four_names-pass_schema : pass_schema prefix_schema four_names ≡ true
unfolding pass_schema pass_required total_matched count_if match text_eq
four_names-pass_schema = refl

get_available_signers-Outcome_example : Outcome four_keys prefix_schema
get_available_signers-Outcome_example = get_available_signers-Outcome four_keys prefix_schema

container_pass_schema-get_available_signers_example :
    container_pass_schema four_keys packet_name (record { signers = four_names }) ≡ true
container_pass_schema-get_available_signers_example =
    container_pass_schema-get_available_signers four_keys prefix_schema packet_name
      (record { signers = four_names }) four_signers prefix_schema-Decides

container_pass_schema_iff_example :
    (container_pass_schema four_keys packet_name (record { signers = four_names }) ≡ true) ↔ (
      Trusted four_keys.trusted_ids four_names
      × (s : MultipartySchema PlainName) × Decides four_keys.schemas packet_name s
      × (pass_schema s four_names ≡ true))
container_pass_schema_iff_example =
    container_pass_schema_iff four_keys packet_name (record { signers = four_names })

pass_schema-Satisfies_iff_example :
    (pass_schema prefix_schema four_names ≡ true) ↔ Satisfies prefix_schema four_names
pass_schema-Satisfies_iff_example =
    pass_schema-Satisfies_iff prefix_schema four_names four_names-Distinct

replace_signer-Replaced_example :
    let (c', result, diff) =
      replace_signer four_keys
        (record { signers = key_a ∷ key_b ∷ key_c ∷ [] })
        key_c
        prefix_schema in
    (c' ≡ record four_keys { unavailable_signers = insert key_c [] })
    × (((result ≡ empty_list) × (diff ≡ []))
        ⊎ Replaced four_keys (record { signers = key_a ∷ key_b ∷ key_c ∷ [] }) key_c result diff)
replace_signer-Replaced_example =
    replace_signer-Replaced four_keys (record { signers = key_a ∷ key_b ∷ key_c ∷ [] }) key_c
      prefix_schema four_keys-NamedKeys

replace_signer-Required_example :
    let (c', result, diff) =
      replace_signer four_keys (record { signers = four_names }) key_c prefix_schema in
    ((result ≡ empty_list) × (diff ≡ [])) ⊎ Required prefix_schema.signers result.signers
replace_signer-Required_example =
    replace_signer-Required four_keys (record { signers = four_names }) key_c prefix_schema
      four_keys-NamedKeys four_names-Distinct four_names-pass_schema

match_iff_example : (match two_a key_a ≡ true) ↔ Matches two_a key_a
match_iff_example = match_iff two_a key_a

of_string_slashed_example :
    of_string (codes "2x/a/*")
    ≡ ok (record {
      name = append_all plain_names.empty_name (components (codes "a/*"));
      times = multiplicity (codes "2x");
    })
of_string_slashed_example = of_string_slashed (codes "2x") (codes "a/*") (refl, (refl, tt))

match-of_string_iff_example :
    (match two_a key_a ≡ true) ↔ PartsMatch (components (codes "a/*")) key_a
match-of_string_iff_example =
    match-of_string_iff (codes "2x") (codes "a/*") two_a key_a (refl, (refl, tt)) read_two_a

get_matched_keys_lem_example :
    IsSorted (get_matched_keys four_keys two_a)
    × ((k : PlainName)
        → contains (get_matched_keys four_keys two_a) k
          ≡ (contains (keys four_keys.trusted_ids) k && (match two_a k && not (contains [] k))))
get_matched_keys_lem_example = get_matched_keys_lem four_keys two_a

pass_schema-replicate_example :
    pass_schema
      (record {
        pkt_name = packet_pattern;
        rule_id = codes "...";
        signers = three_b ∷ [];
        optional_signers = [];
        min_optional_signers = 0;
      })
      (replicate 3 key_c)
    ≡ true
unfolding match text_eq
pass_schema-replicate_example = pass_schema-replicate _ key_c 3 ((refl, omega arith), tt) refl

-- One key below /a and one below /b.
abbrev pub one_and_one : MultipartySchema PlainName
one_and_one = record {
  pkt_name = packet_pattern;
  rule_id = codes "...";
  signers = record two_a { times = 1 } ∷ [];
  optional_signers = record three_b { times = 1 } ∷ [];
  min_optional_signers = 1;
}

abbrev pub a_and_c : MpsSignerList PlainName
a_and_c = record { signers = key_a ∷ key_c ∷ [] }

one_and_one_enough :
    (1 ≤ length (get_matched_keys (mark_unavailable four_keys key_c) (record two_a { times = 1 })))
    × (1
        ≤ length
            (get_matched_keys (mark_unavailable four_keys key_c) (record three_b { times = 1 })))
unfolding get_matched_keys mark_unavailable gather_matched match text_eq contains same insert
one_and_one_enough = (omega arith, omega arith)

a_and_c-pass_schema : pass_schema one_and_one a_and_c.signers ≡ true
unfolding pass_schema pass_required total_matched count_if match text_eq
a_and_c-pass_schema = refl

a_and_c-Distinct : Distinct a_and_c.signers
unfolding contains same
a_and_c-Distinct = (refl, (refl, tt))

at_most_one : count_if (λ p. match p key_c) one_and_one.optional_signers ≤ 1
unfolding match text_eq count_if
at_most_one = omega arith

replace_signer-pass_schema_example :
    pass_schema one_and_one (replace_signer four_keys a_and_c key_c one_and_one).1.signers ≡ true
replace_signer-pass_schema_example =
    replace_signer-pass_schema four_keys a_and_c key_c one_and_one four_keys-NamedKeys
      a_and_c-Distinct a_and_c-pass_schema (one_and_one_enough.0, tt) (one_and_one_enough.1, tt)
      at_most_one

-- Only the two keys.
abbrev pub two_keys : MultipartySchemaContainer PlainName ℕ
two_keys = record {
  schemas = one_and_one ∷ [];
  trusted_ids = (key_a, 1) ∷ (key_c, 3) ∷ [];
  unavailable_signers = [];
}

pub a_and_c_needed :
    All (λ p. match p key_c ≡ false) one_and_one.signers
    × All
        (λ p.
          All
            (λ k. contains a_and_c.signers k ≡ true)
            (get_matched_keys (mark_unavailable two_keys key_c) p))
        one_and_one.optional_signers
    × (0 < length (remaining a_and_c key_c))
    × (matched_sum one_and_one.optional_signers (remaining a_and_c key_c)
        < one_and_one.min_optional_signers)
unfolding get_matched_keys mark_unavailable gather_matched match text_eq contains same insert erase
    insert_all count_if
a_and_c_needed = ((refl, tt), (tt, tt), omega arith, omega arith)

replace_signer-shortfall_example :
    let (c', result, diff) = replace_signer two_keys a_and_c key_c one_and_one in
    (result.signers ≡ remaining a_and_c key_c)
    × (diff ≡ [])
    × (0 < length result.signers)
    × (pass_schema one_and_one result.signers ≡ false)
replace_signer-shortfall_example =
    replace_signer-shortfall two_keys a_and_c key_c one_and_one a_and_c_needed.0 a_and_c_needed.1
      a_and_c_needed.2 a_and_c_needed.3

-- Two optional patterns of one key, which a single key of /b/1 can serve.
abbrev two_of_b : MultipartySchema PlainName
two_of_b = record {
  pkt_name = packet_pattern;
  rule_id = codes "...";
  signers = [];
  optional_signers = record three_b { times = 1 } ∷ record three_b { times = 1 } ∷ [];
  min_optional_signers = 2;
}

pass_schema_overlap_example :
    (pass_schema two_of_b (key_c ∷ []) ≡ true) ↔ (Required [] (key_c ∷ []) × (2 ≤ 2))
unfolding match text_eq
pass_schema_overlap_example =
    pass_schema_overlap two_of_b key_c ((refl, omega arith), ((refl, omega arith), tt))
