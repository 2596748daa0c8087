-- ===== src/Schema/Container/Available.antt =====
-- What `getAvailableSigners` promises.
use ndn_multi_party_signatur.Prelude.{
  ◌≤◌, ◌<◌, ◌≡◌, refl, true, List, [], ◌∷◌, count_if, arith, length, ltb, All, Bool-cases, inl, inr,
  ok, throws, missing_keys, missing_optional_keys, All-imp,
}
use mathlib.Core.Path.{subst}
use native.Mathlib.Decide.{dec_le}
use ndn_multi_party_signatur.Ndn.{NdnName}
use ndn_multi_party_signatur.Ordered.{Ord}
use ndn_multi_party_signatur.Ordered.Set.{IsSorted, insert_all}
use ndn_multi_party_signatur.Ordered.Set.Members.{
  insert_all-IsSorted, All-of_contains, All-at, contains-insert_all, contains_empty,
}
use ndn_multi_party_signatur.SignerList.{MpsSignerList}
use ndn_multi_party_signatur.Schema.Pattern.{WildCardName, match}
use ndn_multi_party_signatur.Schema.Policy.{MultipartySchema, pass_schema}
use ndn_multi_party_signatur.Schema.Policy.Distinct.{pass_schema_iff}
use ndn_multi_party_signatur.Schema.Container.{
  MultipartySchemaContainer, get_matched_keys, get_available_signers,
}
use ndn_multi_party_signatur.Schema.Container.Matched.{Eligible}
use ndn_multi_party_signatur.Schema.Container.Choose.{
  Extends, Extends-trans, Extends-count, EnoughRequired, choose_required-ok, choose_required-throws,
  supply, choose_optional-Chooses,
}

module _ {Name Key : Type 0} ⦃N : NdnName Name⦄ ⦃o : Ord Name⦄ where
  -- How a call ends that does not throw.
  pub record Available (c : MultipartySchemaContainer Name Key) (schema : MultipartySchema Name)
      (list : MpsSignerList Name) : Type 0 where
    pub passes : pass_schema schema list.signers ≡ true
    pub sorted : IsSorted list.signers
    pub eligible : All (Eligible c) list.signers

  EnoughRequired-dec :
      (c : MultipartySchemaContainer Name Key) (ps : List (WildCardName Name))
      → Dec (EnoughRequired c ps)
  EnoughRequired-dec c [] = yes tt
  EnoughRequired-dec c (p ∷ ps) = elim (dec_le p.times (length (get_matched_keys c p))) [
    | no few ↦ no (λ h. few h.0)
    | yes many ↦ elim (EnoughRequired-dec c ps) [
      | yes rest ↦ yes (many, rest)
      | no short ↦ no (λ h. short h.1)
    ]
  ]

  Extends-Eligible :
      (c : MultipartySchemaContainer Name Key) (r : List Name)
      → Extends c [] r
      → IsSorted r × All (Eligible c) r
  Extends-Eligible c r x = rw x.result (
    insert_all-IsSorted x.added [] tt,
    All-of_contains (Eligible c) (insert_all x.added []) λ k h.
        All-at (Eligible c) x.added k x.eligible
          (ground (arith, contains-insert_all x.added [] k, contains_empty k)),
  )

  -- The three ways in which a call ends.
  pub data Outcome (c : MultipartySchemaContainer Name Key) (schema : MultipartySchema Name)
      : Type 0 where
    available :
        (list : MpsSignerList Name)
        → get_available_signers c schema ≡ ok list
        → EnoughRequired c schema.signers
        → schema.min_optional_signers ≤ supply c schema.optional_signers
        → Available c schema list
        → Outcome c schema
    too_few_required :
        get_available_signers c schema ≡ throws missing_keys
        → ¬ EnoughRequired c schema.signers
        → Outcome c schema
    too_few_optional :
        get_available_signers c schema ≡ throws missing_optional_keys
        → EnoughRequired c schema.signers
        → supply c schema.optional_signers < schema.min_optional_signers
        → Outcome c schema

  get_available_signers-enough :
      (c : MultipartySchemaContainer Name Key) (schema : MultipartySchema Name)
      → EnoughRequired c schema.signers
      → Outcome c schema
  unfolding get_available_signers
  get_available_signers-enough c schema enough =
      let least = schema.min_optional_signers in
      let (r, e, x, required) = choose_required-ok c schema.signers [] enough in
      let chosen = choose_optional-Chooses c least schema.optional_signers r 0 in
      let whole = Extends-trans x chosen.extends in
      let good = Extends-Eligible c chosen.result whole in
      elim (Bool-cases (ltb chosen.total least)) [
        | inl few ↦
            too_few_optional (rw (e, chosen.runs, few) refl) enough (ground (arith, chosen.ended))
        | inr many ↦
            available (record { signers = chosen.result }) (rw (e, chosen.runs, many) refl) enough
              (ground (arith, chosen.within))
              (record {
                passes = (pass_schema_iff schema chosen.result).1 (
                  All-imp (λ p. p.times ≤ count_if (match p) r) _
                      (λ p le. omega (arith, Extends-count (match p) chosen.extends)) schema.signers
                      required,
                  ground (arith, chosen.covered),
                );
                sorted = good.0;
                eligible = good.1;
              })
      ]

  -- `getAvailableSigners` reads no vector out of its bounds and always ends in one of three ways. It
  -- returns a list exactly when each required pattern has its number of matched keys and the
  -- optional patterns, each up to its multiplicity, have the minimum of them; the list then passes
  -- the schema, is strictly sorted, and holds trusted keys only, none marked unavailable. Otherwise
  -- it throws: for missing keys if a required pattern has too few, else for missing optional keys.
  pub get_available_signers-Outcome :
      (c : MultipartySchemaContainer Name Key) (schema : MultipartySchema Name) → Outcome c schema
  unfolding get_available_signers
  get_available_signers-Outcome c schema = elim (EnoughRequired-dec c schema.signers) [
    | yes enough ↦ get_available_signers-enough c schema enough
    | no short ↦ too_few_required (rw (choose_required-throws c schema.signers [] short) refl) short
  ]

  -- A list that the call returned.
  pub Available-of_ok :
      (c : MultipartySchemaContainer Name Key) (schema : MultipartySchema Name)
      (list : MpsSignerList Name)
      → get_available_signers c schema ≡ ok list
      → Available c schema list
  Available-of_ok c schema list e = pick (get_available_signers-Outcome c schema)
    where
      pick : Outcome c schema → Available c schema list
      pick (available l e' _ _ a) =
          let same_list : l ≡ list = cc in subst (Available c schema) same_list a
      pick (too_few_required e' _) = absurd (ground arith)
      pick (too_few_optional e' _ _) = absurd (ground arith)
