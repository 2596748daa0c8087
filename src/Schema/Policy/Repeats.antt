-- ===== src/Schema/Policy/Repeats.antt =====
-- Lists in which a name is repeated.
use ndn_multi_party_signatur.Prelude.{
  ℕ, zero, suc, ◌≤◌, ◌≡◌, refl, Bool, true, count_if, arith, replicate, All, All-imp,
}
use ndn_multi_party_signatur.Ndn.{NdnName}
use ndn_multi_party_signatur.Schema.Pattern.{match}
use ndn_multi_party_signatur.Schema.Policy.{MultipartySchema, pass_schema}
use ndn_multi_party_signatur.Schema.Policy.Distinct.{pass_schema_iff}

module _ {Name : Type 0} ⦃N : NdnName Name⦄ where
  count_if-replicate :
      (p : Name → Bool) (n : ℕ) (k : Name) → p k ≡ true → count_if p (replicate n k) ≡ n
  unfolding count_if
  count_if-replicate p zero k h = refl
  count_if-replicate p (suc n) k h = ground (arith, count_if-replicate p n k)

  -- A schema whose optional minimum is 0 is passed by one name alone, if the name matches every
  -- required pattern and stands in the list as often as the largest multiplicity asks: the
  -- multiplicity counts entries of the list and not different names.
  pub pass_schema-replicate :
      (s : MultipartySchema Name) (k : Name) (n : ℕ)
      → All (λ p. (match p k ≡ true) × (p.times ≤ n)) s.signers
      → s.min_optional_signers ≡ 0
      → pass_schema s (replicate n k) ≡ true
  pass_schema-replicate s k n h least = (pass_schema_iff s (replicate n k)).1 (
    All-imp (λ p. (match p k ≡ true) × (p.times ≤ n)) _
        (λ p fit. omega (arith, count_if-replicate (match p) n k fit.0)) s.signers h,
    omega arith,
  )
