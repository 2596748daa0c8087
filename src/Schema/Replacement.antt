-- ===== src/Schema/Replacement.antt =====
-- `replaceSigner` and `findANewKeyForPattern` of MultipartySchemaContainer, in src/schema.cpp.
pub mod Find
pub mod Grow
pub mod Renewed
pub mod Promise
pub mod Keeps
pub mod Shortfall
use ndn_multi_party_signatur.Prelude.{
  ℕ, Bool, true, false, not, ◌&&◌, Option, none, some, List, [], ◌∷◌, leb, if◌then◌else◌, count_if,
}
use ndn_multi_party_signatur.Ndn.{NdnName}
use ndn_multi_party_signatur.Ordered.{Ord}
use ndn_multi_party_signatur.Ordered.Set.{insert, erase, contains, of_list}
use ndn_multi_party_signatur.SignerList.{MpsSignerList, empty_list}
use ndn_multi_party_signatur.Schema.Pattern.{WildCardName, match}
use ndn_multi_party_signatur.Schema.Policy.{MultipartySchema}
use ndn_multi_party_signatur.Schema.Container.{MultipartySchemaContainer, get_matched_keys}

module _ {Name : Type 0} ⦃N : NdnName Name⦄ ⦃o : Ord Name⦄ where
  -- The loop of `findANewKeyForPattern`: the first matched key that is not in use.
  unfoldable pub first_unused : List Name → List Name → Bool × Name
  first_unused existing [] = (false, N.empty_name)
  first_unused existing (k ∷ ks) =
      let rest = first_unused existing ks in if not (contains existing k) then (true, k) else rest

module _ {Name Key : Type 0} ⦃N : NdnName Name⦄ ⦃o : Ord Name⦄ where
  -- MultipartySchemaContainer::findANewKeyForPattern
  unfoldable pub find_new_key :
      MultipartySchemaContainer Name Key → List Name → WildCardName Name → Bool × Name
  find_new_key c existing p =
      if leb p.times (count_if (match p) existing)
      then (true, N.empty_name)
      else first_unused existing (get_matched_keys c p)

  -- One round of the first loop of `replaceSigner`, on the new set and the difference; `none` where
  -- it returns the empty lists.
  unfoldable pub replace_required_step :
      MultipartySchemaContainer Name Key
      → Name
      → WildCardName Name
      → List Name × List Name
      → Option (List Name × List Name)
  replace_required_step c unavailable p (result, diff) =
      if match p unavailable
      then (let found = find_new_key c result p in
          if found.0
          then (if not (N.empty found.1)
              then some (insert found.1 result, insert found.1 diff)
              else some (result, diff))
          else none)
      else some (result, diff)

  unfoldable pub replace_required :
      MultipartySchemaContainer Name Key
      → Name
      → List (WildCardName Name)
      → List Name × List Name
      → Option (List Name × List Name)
  replace_required c unavailable [] sets = some sets
  replace_required c unavailable (p ∷ ps) sets = elim (replace_required_step c unavailable p sets) [
    | none ↦ none
    | some sets' ↦ replace_required c unavailable ps sets'
  ]

  -- The second loop, over all optional patterns: it stops at the first new key.
  unfoldable pub replace_optional :
      MultipartySchemaContainer Name Key
      → List (WildCardName Name)
      → List Name × List Name
      → List Name × List Name
  replace_optional c [] sets = sets
  replace_optional c (p ∷ ps) (result, diff) =
      let rest = replace_optional c ps (result, diff) in
      let found = find_new_key c result p in
      if found.0 && N.empty found.1
      then rest
      else if found.0 && not (N.empty found.1)
      then (insert found.1 result, insert found.1 diff)
      else rest

  -- m_unavailableSigners.insert(unavailableKey)
  unfoldable pub mark_unavailable :
      MultipartySchemaContainer Name Key → Name → MultipartySchemaContainer Name Key
  mark_unavailable c unavailable = record c {
    unavailable_signers = insert unavailable c.unavailable_signers;
  }

  -- What `replaceSigner` returns: the new list with the difference.
  unfoldable pub replacement :
      MultipartySchemaContainer Name Key
      → MpsSignerList Name
      → Name
      → MultipartySchema Name
      → MpsSignerList Name × List Name
  replacement c list unavailable schema =
      elim (replace_required c unavailable schema.signers
        (erase unavailable (of_list list.signers), [])) [
          | none ↦ (empty_list, [])
          | some sets ↦
              let (result, diff) = replace_optional c schema.optional_signers sets in
              (record { signers = result }, diff)
        ]

  -- MultipartySchemaContainer::replaceSigner, with the container that it leaves.
  unfoldable pub replace_signer :
      MultipartySchemaContainer Name Key
      → MpsSignerList Name
      → Name
      → MultipartySchema Name
      → MultipartySchemaContainer Name Key × MpsSignerList Name × List Name
  replace_signer c list unavailable schema =
      let c' = mark_unavailable c unavailable in
      let (list', diff) = replacement c' list unavailable schema in (c', list', diff)

  -- MultipartySchemaContainer::resetCachedUnavailableSigners
  unfoldable pub reset_cached_unavailable_signers :
      MultipartySchemaContainer Name Key → MultipartySchemaContainer Name Key
  reset_cached_unavailable_signers c = record c { unavailable_signers = [] }
