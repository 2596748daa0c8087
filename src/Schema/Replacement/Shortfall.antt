-- ===== src/Schema/Replacement/Shortfall.antt =====
-- A list that `replaceSigner` returns although it fails the schema.
use ndn_multi_party_signatur.Prelude.{
  ◌<◌, ◌≡◌, refl, true, false, some, List, [], ◌∷◌, arith, All, length,
}
use ndn_multi_party_signatur.Ndn.{NdnName}
use ndn_multi_party_signatur.Ordered.{Ord}
use ndn_multi_party_signatur.Ordered.Set.{contains}
use ndn_multi_party_signatur.Ordered.Set.Members.{contains-insert, All-at, All-of_contains}
use ndn_multi_party_signatur.SignerList.{MpsSignerList}
use ndn_multi_party_signatur.Schema.Pattern.{WildCardName, match}
use ndn_multi_party_signatur.Schema.Policy.{MultipartySchema, pass_schema}
use ndn_multi_party_signatur.Schema.Policy.Distinct.{matched_sum, pass_schema_few}
use ndn_multi_party_signatur.Schema.Container.{MultipartySchemaContainer, get_matched_keys}
use ndn_multi_party_signatur.Schema.Container.Matched.{get_matched_keys_lem}
use ndn_multi_party_signatur.Schema.Replacement.{
  replace_required_step, replace_required, replace_optional, replacement, mark_unavailable,
  replace_signer,
}
use ndn_multi_party_signatur.Schema.Replacement.Find.{
  full, fresh, used_up, find_new_key-Answer, empty-empty_name,
}
use ndn_multi_party_signatur.Schema.Replacement.Renewed.{remaining, contains-remaining}

module _ {Name Key : Type 0} ⦃N : NdnName Name⦄ ⦃o : Ord Name⦄ where
  replace_required_unmatched :
      (c : MultipartySchemaContainer Name Key) (u : Name) (ps : List (WildCardName Name))
      (sets : List Name × List Name)
      → All (λ p. match p u ≡ false) ps
      → replace_required c u ps sets ≡ some sets
  unfolding replace_required replace_required_step
  replace_required_unmatched c u [] sets h = refl
  replace_required_unmatched c u (p ∷ ps) (r, d) h =
      rw (h.0, replace_required) (replace_required_unmatched c u ps (r, d) h.1)

  replace_optional_exhausted :
      (c : MultipartySchemaContainer Name Key) (ps : List (WildCardName Name)) (r d : List Name)
      → All (λ p. All (λ k. contains r k ≡ true) (get_matched_keys c p)) ps
      → replace_optional c ps (r, d) ≡ (r, d)
  unfolding replace_optional
  replace_optional_exhausted c [] r d h = refl
  replace_optional_exhausted c (p ∷ ps) r d h = elim (find_new_key-Answer c r p) [
    | full f _ ↦ rw (f, empty-empty_name N) (replace_optional_exhausted c ps r d h.1)
    | used_up f _ _ ↦ rw f (replace_optional_exhausted c ps r d h.1)
    | fresh k f _ free fit el ↦
        let there : contains (get_matched_keys c p) k ≡ true =
          ground (arith, (get_matched_keys_lem c p).1 k) in
        absurd (
          ground
            (arith, All-at (λ j. contains r j ≡ true) (get_matched_keys c p) k h.0 there, free))
  ]

  still_there :
      (c : MultipartySchemaContainer Name Key) (list : MpsSignerList Name) (u : Name)
      (p : WildCardName Name)
      → All (λ k. contains list.signers k ≡ true) (get_matched_keys (mark_unavailable c u) p)
      → All (λ k. contains (remaining list u) k ≡ true) (get_matched_keys (mark_unavailable c u) p)
  unfolding mark_unavailable
  still_there c list u p h =
      let keys = get_matched_keys (mark_unavailable c u) p in
      All-of_contains (λ k. contains (remaining list u) k ≡ true) keys
        λ k there. ground (
          arith,
          All-at (λ j. contains list.signers j ≡ true) keys k h there,
          (get_matched_keys_lem (mark_unavailable c u) p).1 k,
          contains-insert u c.unavailable_signers k,
          contains-remaining list u k,
        )

  still_there-All :
      (c : MultipartySchemaContainer Name Key) (list : MpsSignerList Name) (u : Name)
      (ps : List (WildCardName Name))
      → All
          (λ p.
            All (λ k. contains list.signers k ≡ true) (get_matched_keys (mark_unavailable c u) p))
          ps
      → All
          (λ p.
            All
              (λ k. contains (remaining list u) k ≡ true)
              (get_matched_keys (mark_unavailable c u) p))
          ps
  still_there-All c list u [] h = tt
  still_there-All c list u (p ∷ ps) h =
      (still_there c list u p h.0, still_there-All c list u ps h.1)

  replacement_shortfall :
      (c : MultipartySchemaContainer Name Key) (list : MpsSignerList Name) (u : Name)
      (schema : MultipartySchema Name)
      → All (λ p. match p u ≡ false) schema.signers
      → All
          (λ p. All (λ k. contains (remaining list u) k ≡ true) (get_matched_keys c p))
          schema.optional_signers
      → replacement c list u schema ≡ (record { signers = remaining list u }, [])
  unfolding replacement
  replacement_shortfall c list u schema none_required all_used =
      rw
        (
          replace_required_unmatched c u schema.signers (remaining list u, []) none_required,
          replacement,
          replace_optional_exhausted c schema.optional_signers (remaining list u) [] all_used,
        )
        refl

  pub replace_signer_left :
      (c : MultipartySchemaContainer Name Key) (list : MpsSignerList Name) (u : Name)
      (schema : MultipartySchema Name)
      → All (λ p. match p u ≡ false) schema.signers
      → All
          (λ p.
            All (λ k. contains list.signers k ≡ true) (get_matched_keys (mark_unavailable c u) p))
          schema.optional_signers
      → replace_signer c list u schema
        ≡ (mark_unavailable c u, record { signers = remaining list u }, [])
  unfolding replace_signer
  replace_signer_left c list u schema none_required all_used =
      rw
        (
          replace_signer,
          replacement_shortfall (mark_unavailable c u) list u schema none_required
              (still_there-All c list u schema.optional_signers all_used),
        )
        refl

  -- Where no required pattern matches the unavailable key, the list already holds every other
  -- available key that an optional pattern matches, and what is left of the list without the key is
  -- not empty and is below the optional minimum, `replaceSigner` returns what is left, with no
  -- difference: a list that is not the empty one of a failure, and that fails the schema.
  pub replace_signer-shortfall :
      (c : MultipartySchemaContainer Name Key) (list : MpsSignerList Name) (u : Name)
      (schema : MultipartySchema Name)
      → All (λ p. match p u ≡ false) schema.signers
      → All
          (λ p.
            All (λ k. contains list.signers k ≡ true) (get_matched_keys (mark_unavailable c u) p))
          schema.optional_signers
      → 0 < length (remaining list u)
      → matched_sum schema.optional_signers (remaining list u) < schema.min_optional_signers
      → let (c', result, diff) = replace_signer c list u schema in
        (result.signers ≡ remaining list u)
        × (diff ≡ [])
        × (0 < length result.signers)
        × (pass_schema schema result.signers ≡ false)
  replace_signer-shortfall c list u schema none_required all_used some_left few =
      rw (replace_signer_left c list u schema none_required all_used)
        (refl, refl, some_left, pass_schema_few schema (remaining list u) few)
