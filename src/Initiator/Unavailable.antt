-- ===== src/Initiator/Unavailable.antt =====
-- The loss of a signer while its piece is awaited.
use ndn_multi_party_signatur.Prelude.{
  ◌≡◌, ◌≢◌, refl, ◌⊎◌, inl, inr, Bool-cases, true, false, [], ◌==◌, ◌<◌, length, All, arith,
}
use mathlib.Core.Path.{subst}
use ndn_multi_party_signatur.Ndn.{NdnName}
use ndn_multi_party_signatur.Ordered.{Ord}
use ndn_multi_party_signatur.Ordered.Set.{Distinct, contains}
use ndn_multi_party_signatur.SignerList.{empty_list}
use ndn_multi_party_signatur.Schema.Policy.{pass_schema}
use ndn_multi_party_signatur.Schema.Policy.Distinct.{Required, matched_sum, pass_schema_few}
use ndn_multi_party_signatur.Schema.Container.{MultipartySchemaContainer, get_matched_keys}
use ndn_multi_party_signatur.Schema.Replacement.{replace_signer, mark_unavailable}
use ndn_multi_party_signatur.Schema.Replacement.Renewed.{remaining}
use ndn_multi_party_signatur.Schema.Replacement.Shortfall.{replace_signer_left}
use ndn_multi_party_signatur.Schema.Pattern.{match}
use ndn_multi_party_signatur.Schema.Replacement.Grow.{NamedKeys}
use ndn_multi_party_signatur.Schema.Replacement.Promise.{Replaced, replace_signer-Replaced}
use ndn_multi_party_signatur.Schema.Replacement.Keeps.{replace_signer-Required}
use ndn_multi_party_signatur.Initiator.{MultiSignGlobalState, on_unavailable_signer}

module _ {Name Data Key : Type 0} ⦃N : NdnName Name⦄ ⦃o : Ord Name⦄ where
  -- When a signer of a list without repeated names that passes the schema is lost, the initiator
  -- either calls the failure callback, with no one asked and its signers as before, or goes on with
  -- signers that still match each required pattern as often as it asks. It goes on with the same
  -- signers but the lost one, and those it then asks, which are new, trusted and not marked
  -- unavailable. It is assumed that no trusted key has the name with no components.
  pub on_unavailable_signer-Required :
      (c : MultipartySchemaContainer Name Key) (g : MultiSignGlobalState Name Data) (u : Name)
      → NamedKeys c
      → Distinct g.signers.signers
      → pass_schema g.schema g.signers.signers ≡ true
      → let (c', g', asked, failed) = on_unavailable_signer c g u in
        ((failed ≡ true) × (asked ≡ []) × (g' ≡ g))
        ⊎ ((failed ≡ false)
            × Required g.schema.signers g'.signers.signers
            × Replaced c g.signers u g'.signers asked)
  unfolding on_unavailable_signer
  on_unavailable_signer-Required c g u named d pass =
      let list' = (replace_signer c g.signers u g.schema).1 in
      elim (Bool-cases (length list'.signers == 0)) [
        | inl e ↦ inl (rw e (refl, refl, refl))
        | inr e ↦
            let nonempty : list' ≢ empty_list =
              λ r. cc (subst (λ l. (length l.signers == 0) ≡ false) r e) in
            inr (rw e (refl, required nonempty, replaced nonempty))
      ]
    where
      required :
          (replace_signer c g.signers u g.schema).1 ≢ empty_list
          → Required g.schema.signers (replace_signer c g.signers u g.schema).1.signers
      required some_left = elim (replace_signer-Required c g.signers u g.schema named d pass) [
        | inl (none_left, same) ↦ absurd (some_left none_left)
        | inr r ↦ r
      ]

      replaced :
          (replace_signer c g.signers u g.schema).1 ≢ empty_list
          → Replaced c g.signers u
              (replace_signer c g.signers u g.schema).1
              (replace_signer c g.signers u g.schema).2
      replaced some_left = elim (replace_signer-Replaced c g.signers u g.schema named).1 [
        | inl (none_left, same) ↦ absurd (some_left none_left)
        | inr r ↦ r
      ]

  -- Where no required pattern matches the lost signer, the signers already hold every other available
  -- key that an optional pattern matches, and the signers without the lost one are not empty and are
  -- below the optional minimum, the initiator does not call the failure callback: it goes on with those
  -- signers, which fail the schema, and asks no one.
  pub on_unavailable_signer-shortfall :
      (c : MultipartySchemaContainer Name Key) (g : MultiSignGlobalState Name Data) (u : Name)
      → All (λ p. match p u ≡ false) g.schema.signers
      → All
          (λ p.
            All
              (λ k. contains g.signers.signers k ≡ true)
              (get_matched_keys (mark_unavailable c u) p))
          g.schema.optional_signers
      → 0 < length (remaining g.signers u)
      → matched_sum g.schema.optional_signers (remaining g.signers u)
        < g.schema.min_optional_signers
      → let (c', g', asked, failed) = on_unavailable_signer c g u in
        (failed ≡ false)
        × (asked ≡ [])
        × (g'.signers.signers ≡ remaining g.signers u)
        × (pass_schema g.schema g'.signers.signers ≡ false)
  unfolding on_unavailable_signer
  on_unavailable_signer-shortfall c g u none_required all_used some_left few =
      let nonempty : (length (remaining g.signers u) == 0) ≡ false = ground (arith, some_left) in
      rw
        (
          on_unavailable_signer,
          replace_signer_left c g.signers u g.schema none_required all_used,
          nonempty,
        )
        (refl, refl, refl, pass_schema_few g.schema (remaining g.signers u) few)
