-- ===== src/Schema/Policy/Overlap.antt =====
-- Optional patterns that match the same name.
use ndn_multi_party_signatur.Prelude.{
  ◌≤◌, ◌≡◌, ◌↔◌, true, List, [], ◌∷◌, count_if, arith, length, All, refl,
}
use ndn_multi_party_signatur.Ndn.{NdnName}
use ndn_multi_party_signatur.Schema.Pattern.{WildCardName, match}
use ndn_multi_party_signatur.Schema.Policy.{MultipartySchema, pass_schema}
use ndn_multi_party_signatur.Schema.Policy.Distinct.{Required, matched_sum, pass_schema_iff}

module _ {Name : Type 0} ⦃N : NdnName Name⦄ where
  matched_sum_one :
      (ps : List (WildCardName Name)) (k : Name)
      → All (λ p. (match p k ≡ true) × (1 ≤ p.times)) ps
      → matched_sum ps (k ∷ []) ≡ length ps
  unfolding count_if
  matched_sum_one [] k h = refl
  matched_sum_one (p ∷ ps) k h = ground (arith, matched_sum_one ps k h.1)

  -- Where one name matches every optional pattern of a schema, each with a multiplicity of at least
  -- one, the list with this name alone passes the schema exactly when it meets the required patterns
  -- and the optional minimum is at most the number of optional patterns: the name counts once for
  -- each pattern.
  pub pass_schema_overlap :
      (s : MultipartySchema Name) (k : Name)
      → All (λ p. (match p k ≡ true) × (1 ≤ p.times)) s.optional_signers
      → (pass_schema s (k ∷ []) ≡ true)
        ↔ (Required s.signers (k ∷ []) × (s.min_optional_signers ≤ length s.optional_signers))
  pass_schema_overlap s k h =
      let both = pass_schema_iff s (k ∷ []) in
      let sum = matched_sum_one s.optional_signers k h in
      (
        λ pass. ((both.0 pass).0, omega (arith, sum, (both.0 pass).1)),
        λ r. both.1 (r.0, omega (arith, sum, r.1)),
      )
