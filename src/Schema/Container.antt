-- ===== src/Schema/Container.antt =====
-- MultipartySchemaContainer of include/ndnmps/schema.hpp and src/schema.cpp: the schemas, the
-- trusted keys, and the signers found unavailable. `std::set` and `std::map` are those of `Ordered`.
pub mod Matched
pub mod Choose
pub mod Available
pub mod Decide
use ndn_multi_party_signatur.Prelude.{
  ℕ, zero, suc, ◌+◌, Bool, true, false, not, ◌&&◌, ◌<◌, Option, none, some, List, [], ◌∷◌, ltb, leb,
  min, if◌then◌else◌, length, count_if, Result, ok, throws, missing_keys, missing_optional_keys,
  out_of_bounds, ◌>>=◌,
}
use ndn_multi_party_signatur.Ndn.{NdnName}
use ndn_multi_party_signatur.Ordered.{Ord}
use ndn_multi_party_signatur.Ordered.Set.{insert, erase, contains, of_list}
use ndn_multi_party_signatur.Ordered.Map.{has_key}
use ndn_multi_party_signatur.SignerList.{MpsSignerList, empty_list}
use ndn_multi_party_signatur.Schema.Pattern.{WildCardName, match}
use ndn_multi_party_signatur.Schema.Policy.{MultipartySchema, match_packet, pass_schema}

pub record MultipartySchemaContainer (Name Key : Type 0) : Type 0 where
  pub schemas : List (MultipartySchema Name)
  pub trusted_ids : List (Name × Key)
  pub unavailable_signers : List Name

module _ {Name : Type 0} ⦃N : NdnName Name⦄ where
  -- The second loop of `passSchema`: the first schema for the packet decides.
  unfoldable pub pass_first : List (MultipartySchema Name) → Name → List Name → Bool
  pass_first [] packet_name names = false
  pass_first (schema ∷ schemas) packet_name names =
      let rest = pass_first schemas packet_name names in
      if match_packet schema packet_name then pass_schema schema names else rest

module _ {Name Key : Type 0} ⦃N : NdnName Name⦄ ⦃o : Ord Name⦄ where
  -- The first loop of `passSchema`: every signer is a trusted one.
  unfoldable pub all_trusted : List (Name × Key) → List Name → Bool
  all_trusted ids [] = true
  all_trusted ids (item ∷ items) =
      let rest = all_trusted ids items in if has_key ids item then rest else false

  -- MultipartySchemaContainer::passSchema
  unfoldable pub container_pass_schema :
      MultipartySchemaContainer Name Key → Name → MpsSignerList Name → Bool
  container_pass_schema c packet_name list =
      if all_trusted c.trusted_ids list.signers
      then pass_first c.schemas packet_name list.signers
      else false

  -- The loop of `getMatchedKeys` over the trusted keys.
  unfoldable pub gather_matched :
      WildCardName Name → List Name → List (Name × Key) → List Name → List Name
  gather_matched p unavailable [] result = result
  gather_matched p unavailable ((key, bits) ∷ ids) result =
      gather_matched p unavailable ids
        (if match p key && not (contains unavailable key) then insert key result else result)

  -- MultipartySchemaContainer::getMatchedKeys
  unfoldable pub get_matched_keys :
      MultipartySchemaContainer Name Key → WildCardName Name → List Name
  get_matched_keys c p = gather_matched p c.unavailable_signers c.trusted_ids []

module _ {Name : Type 0} ⦃o : Ord Name⦄ where
  -- Insert `matchedKeys[i]` for so many i from 0 on.
  unfoldable pub insert_first : ℕ → List Name → List Name → Result (List Name)
  insert_first zero ks result = ok result
  insert_first (suc n) [] result = throws out_of_bounds
  insert_first (suc n) (k ∷ ks) result = insert_first n ks (insert k result)

  -- The same for an optional pattern, which counts and stops at the minimum.
  unfoldable pub insert_until : ℕ → ℕ → List Name → List Name → ℕ → Result (List Name × ℕ)
  insert_until least zero ks result count = ok (result, count)
  insert_until least (suc n) [] result count = throws out_of_bounds
  insert_until least (suc n) (k ∷ ks) result count =
      let rest = insert_until least n ks (insert k result) (count + 1) in
      if leb least (count + 1) then ok (insert k result, count + 1) else rest

module _ {Name Key : Type 0} ⦃N : NdnName Name⦄ ⦃o : Ord Name⦄ where
  -- The loop of `getAvailableSigners` over the required patterns.
  unfoldable pub choose_required :
      MultipartySchemaContainer Name Key → List (WildCardName Name) → List Name → Result (List Name)
  choose_required c [] result = ok result
  choose_required c (p ∷ ps) result =
      if ltb (length (get_matched_keys c p)) p.times
      then throws missing_keys
      else insert_first p.times (get_matched_keys c p) result >>= choose_required c ps

  -- The loop over the optional patterns.
  unfoldable pub choose_optional :
      MultipartySchemaContainer Name Key
      → ℕ
      → List (WildCardName Name)
      → List Name
      → ℕ
      → Result (List Name × ℕ)
  choose_optional c least [] result count = ok (result, count)
  choose_optional c least (p ∷ ps) result count = do
    (result', count') ←
        insert_until least (min (length (get_matched_keys c p)) p.times) (get_matched_keys c p)
          result count
    let rest = choose_optional c least ps result' count'
    if leb least count' then ok (result', count') else rest

  -- MultipartySchemaContainer::getAvailableSigners
  unfoldable pub get_available_signers :
      MultipartySchemaContainer Name Key → MultipartySchema Name → Result (MpsSignerList Name)
  get_available_signers c schema = do
    required ← choose_required c schema.signers []
    (result, count) ←
        choose_optional c schema.min_optional_signers schema.optional_signers required 0
    if ltb count schema.min_optional_signers
        then throws missing_optional_keys
        else ok (record { signers = result })
