-- ===== src/Examples/Schemas.antt =====
-- Schemas like those of the unit tests (tests/unit-tests/schema.t.cpp), and the theorems on them.
use Prim.Native.String.{String}
use ndn_multi_party_signatur.Prelude.{
  ℕ, ◌≡◌, refl, true, false, List, [], ◌∷◌, codes, count_if, ok, stoi, find, text_eq,
}
use ndn_multi_party_signatur.Ordered.{same}
use ndn_multi_party_signatur.Ordered.Set.{contains, insert}
use ndn_multi_party_signatur.Schema.Pattern.{
  WildCardName, match, of_string, append_component, append_components, times_prefix,
}
use ndn_multi_party_signatur.Schema.Policy.{
  MultipartySchema, pass_schema, pass_required, total_matched,
}
use ndn_multi_party_signatur.Schema.Container.{
  MultipartySchemaContainer, get_matched_keys, gather_matched, get_available_signers,
  choose_required, choose_optional, insert_first, insert_until,
}
use ndn_multi_party_signatur.Examples.Names.{
  PlainName, Component, plain, plain_names, list_ord, component_ord, nat_ord,
}

abbrev pub name : List String → PlainName
name [] = []
name (s ∷ ss) = plain 8 (codes s) ∷ name ss

abbrev star : Component
star = plain 65534 []

abbrev pub key_a : PlainName
key_a = name ("a" ∷ "1" ∷ [])

abbrev pub key_b : PlainName
key_b = name ("a" ∷ "2" ∷ [])

abbrev pub key_c : PlainName
key_c = name ("b" ∷ "1" ∷ [])

abbrev pub key_d : PlainName
key_d = name ("b" ∷ "2" ∷ [])

-- 2x/a/*
abbrev pub two_a : WildCardName PlainName
two_a = record { name = plain 8 (codes "a") ∷ star ∷ []; times = 2 }

-- 3x/b/*
abbrev pub three_b : WildCardName PlainName
three_b = record { name = plain 8 (codes "b") ∷ star ∷ []; times = 3 }

abbrev pub packet_pattern : WildCardName PlainName
packet_pattern = record { name = plain 8 (codes "data") ∷ star ∷ []; times = 1 }

abbrev pub prefix_schema : MultipartySchema PlainName
prefix_schema = record {
  pkt_name = packet_pattern;
  rule_id = codes "...";
  signers = two_a ∷ [];
  optional_signers = three_b ∷ [];
  min_optional_signers = 2;
}

-- SchemaMinSignerWithPrefix
one_of_each : pass_schema prefix_schema (key_a ∷ key_c ∷ []) ≡ false
unfolding pass_schema pass_required total_matched count_if match text_eq
one_of_each = refl

two_of_each : pass_schema prefix_schema (key_a ∷ key_c ∷ key_b ∷ key_d ∷ []) ≡ true
unfolding pass_schema pass_required total_matched count_if match text_eq
two_of_each = refl

pub read_two_a : of_string (codes "2x/a/*") ≡ ok two_a
unfolding of_string append_components append_component times_prefix find stoi text_eq
read_two_a = refl

abbrev pub four_keys : MultipartySchemaContainer PlainName ℕ
four_keys = record {
  schemas = prefix_schema ∷ [];
  trusted_ids = (key_a, 1) ∷ (key_b, 2) ∷ (key_c, 3) ∷ (key_d, 4) ∷ [];
  unavailable_signers = [];
}

pub four_signers :
    get_available_signers four_keys prefix_schema
    ≡ ok (record { signers = key_a ∷ key_b ∷ key_c ∷ key_d ∷ [] })
unfolding get_available_signers choose_required choose_optional insert_first insert_until
    get_matched_keys gather_matched match text_eq contains same insert
four_signers = refl
