-- ===== src/Schema/Policy.antt =====
-- MultipartySchema of include/ndnmps/schema.hpp, with `passSchema` of src/schema.cpp. Its counters
-- count entries of vectors in memory, and are not bounded here.
pub mod Distinct
pub mod Repeats
pub mod Overlap
use ndn_multi_party_signatur.Prelude.{
  ℕ, ◌+◌, Bool, true, false, List, [], ◌∷◌, Text, ltb, leb, min, if◌then◌else◌, count_if,
}
use ndn_multi_party_signatur.Ndn.{NdnName}
use ndn_multi_party_signatur.Schema.Pattern.{WildCardName, match}

pub record MultipartySchema (Name : Type 0) : Type 0 where
  pub pkt_name : WildCardName Name
  pub rule_id : Text
  pub signers : List (WildCardName Name)
  pub optional_signers : List (WildCardName Name)
  pub min_optional_signers : ℕ

module _ {Name : Type 0} ⦃N : NdnName Name⦄ where
  -- MultipartySchema::match
  unfoldable pub match_packet : MultipartySchema Name → Name → Bool
  match_packet schema packet_name = match schema.pkt_name packet_name

  -- The first loop of `passSchema`, over the required patterns.
  unfoldable pub pass_required : List (WildCardName Name) → List Name → Bool
  pass_required [] names = true
  pass_required (p ∷ ps) names =
      let rest = pass_required ps names in
      if ltb (count_if (match p) names) p.times then false else rest

  -- The second loop: the matched keys of the optional patterns, on top of a total.
  unfoldable pub total_matched : ℕ → List (WildCardName Name) → List Name → ℕ
  total_matched total [] names = total
  total_matched total (p ∷ ps) names =
      total_matched (total + min (count_if (match p) names) p.times) ps names

  -- MultipartySchema::passSchema
  unfoldable pub pass_schema : MultipartySchema Name → List Name → Bool
  pass_schema schema names =
      if pass_required schema.signers names
      then (if leb schema.min_optional_signers (total_matched 0 schema.optional_signers names)
          then true
          else false)
      else false
