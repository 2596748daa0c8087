-- ===== src/Schema/Replacement/Keeps.antt =====
-- When the list that `replaceSigner` returns still passes the schema.
use ndn_multi_party_signatur.Prelude.{
  ◌+◌, ◌≤◌, ◌<◌, ◌≡◌, ◌≢◌, ap, ◌⊎◌, Bool, true, none, List, [], ◌∷◌, if◌then◌else◌, count_if, arith,
  All, Bool-cases, inl, inr, All-imp, All-zip,
}
use ndn_multi_party_signatur.Ndn.{NdnName}
use ndn_multi_party_signatur.Ordered.{Ord}
use ndn_multi_party_signatur.Ordered.Set.{contains, insert, Distinct, of_list}
use ndn_multi_party_signatur.Ordered.Set.Members.{sorted-Distinct, insert_all-IsSorted}
use ndn_multi_party_signatur.Ordered.Set.Count.{count_if-erase_once, count_if-of_list}
use ndn_multi_party_signatur.SignerList.{MpsSignerList, empty_list}
use ndn_multi_party_signatur.Schema.Pattern.{WildCardName, match}
use ndn_multi_party_signatur.Schema.Policy.{MultipartySchema, pass_schema}
use ndn_multi_party_signatur.Schema.Policy.Distinct.{Required, matched_sum, pass_schema_iff}
use ndn_multi_party_signatur.Schema.Container.{MultipartySchemaContainer, get_matched_keys}
use ndn_multi_party_signatur.Schema.Container.Choose.{EnoughRequired}
use ndn_multi_party_signatur.Schema.Replacement.{
  replace_required, replacement, mark_unavailable, replace_signer,
}
use ndn_multi_party_signatur.Schema.Replacement.Find.{not-used_up}
use ndn_multi_party_signatur.Schema.Replacement.Grow.{
  NamedKeys, kept, added, stopped, replace_required_step-Round,
}
use ndn_multi_party_signatur.Schema.Replacement.Renewed.{remaining, Renewed, replacement-Renewed}
use ndn_multi_party_signatur.Schema.Replacement.Promise.{NamedKeys-mark}

module _ {Name : Type 0} ⦃o : Ord Name⦄ where
  -- The unavailable key is missed once at most.
  missed_once :
      (list : MpsSignerList Name) (u : Name) (q : Name → Bool)
      → Distinct list.signers
      → count_if q list.signers ≤ count_if q (remaining list u) + (if q u then 1 else 0)
  missed_once list u q d = omega (
    arith,
    count_if-of_list q list.signers d,
    count_if-erase_once q u (of_list list.signers)
        (sorted-Distinct (of_list list.signers) (insert_all-IsSorted list.signers [] tt)),
  )

module _ {Name : Type 0} ⦃N : NdnName Name⦄ ⦃o : Ord Name⦄ where
  matched_sum-remaining :
      (list : MpsSignerList Name) (u : Name) (ps : List (WildCardName Name))
      → Distinct list.signers
      → matched_sum ps list.signers
        ≤ matched_sum ps (remaining list u) + count_if (λ p. match p u) ps
  unfolding count_if
  matched_sum-remaining list u [] d = omega arith
  matched_sum-remaining list u (p ∷ ps) d =
      ground (arith, missed_once list u (match p) d, matched_sum-remaining list u ps d)

  -- Where every pattern has its number of keys in a list, no list matches more.
  matched_sum-full :
      (ps : List (WildCardName Name)) (r s : List Name)
      → Required ps r
      → matched_sum ps s ≤ matched_sum ps r
  matched_sum-full [] r s h = omega arith
  matched_sum-full (p ∷ ps) r s h = omega (arith, h.0, matched_sum-full ps r s h.1)

module _ {Name Key : Type 0} ⦃N : NdnName Name⦄ ⦃o : Ord Name⦄ where
  Required-of_Renewed :
      (c : MultipartySchemaContainer Name Key) (list : MpsSignerList Name) (u : Name)
      (schema : MultipartySchema Name) (result diff : List Name)
      → Distinct list.signers
      → Required schema.signers list.signers
      → Renewed c list u schema result diff
      → Required schema.signers result
  Required-of_Renewed c list u schema result diff d req r =
      All-imp
        (λ p.
          (p.times ≤ count_if (match p) list.signers)
          × (match p u ≡ true
              → p.times ≤ count_if (match p) (remaining list u) + 1
              → p.times ≤ count_if (match p) result))
        (λ p. p.times ≤ count_if (match p) result) one schema.signers
        (All-zip (λ p. p.times ≤ count_if (match p) list.signers)
          (λ p.
            match p u ≡ true
            → p.times ≤ count_if (match p) (remaining list u) + 1
            → p.times ≤ count_if (match p) result)
          schema.signers req r.enough)
    where
      one :
          (p : WildCardName Name)
          → ((p.times ≤ count_if (match p) list.signers)
              × (match p u ≡ true
                  → p.times ≤ count_if (match p) (remaining list u) + 1
                  → p.times ≤ count_if (match p) result))
          → p.times ≤ count_if (match p) result
      one p h = elim (Bool-cases (match p u)) [
        | inl hit ↦ h.1 hit (omega (arith, h.0, rw hit at (missed_once list u (match p) d)))
        | inr miss ↦
            omega (arith, h.0, rw miss at (missed_once list u (match p) d), r.grown.more (match p))
      ]

  -- Losing a signer never costs the required part of a schema: from a list without repeated names
  -- that passes the schema, `replaceSigner` returns two empty lists, or a list that still matches
  -- each required pattern as often as it asks. It is assumed that no trusted key has the name with
  -- no components.
  pub replace_signer-Required :
      (c : MultipartySchemaContainer Name Key) (list : MpsSignerList Name) (u : Name)
      (schema : MultipartySchema Name)
      → NamedKeys c
      → Distinct list.signers
      → pass_schema schema list.signers ≡ true
      → let (c', result, diff) = replace_signer c list u schema in
        ((result ≡ empty_list) × (diff ≡ [])) ⊎ Required schema.signers result.signers
  unfolding replace_signer
  replace_signer-Required c list u schema named d pass =
      let c' = mark_unavailable c u in
      elim (replacement-Renewed c' list u schema (NamedKeys-mark c u named)) [
        | inl (e, stop) ↦ inl (
          ap (λ (x : MpsSignerList Name × List Name). x.0) e,
          ap (λ (x : MpsSignerList Name × List Name). x.1) e,
        )
        | inr r ↦ inr (
            Required-of_Renewed c' list u schema (replacement c' list u schema).0.signers
              (replacement c' list u schema).1 d ((pass_schema_iff schema list.signers).0 pass).0 r)
      ]

  -- With keys enough for each pattern the first loop does not stop the call.
  replace_required-ne-none :
      (c : MultipartySchemaContainer Name Key) (u : Name) (ps : List (WildCardName Name))
      (r d : List Name)
      → NamedKeys c
      → EnoughRequired c ps
      → replace_required c u ps (r, d) ≢ none
  unfolding replace_required
  replace_required-ne-none c u [] r d named en e = cc
  replace_required-ne-none c u (p ∷ ps) r d named en e =
      elim (replace_required_step-Round c u p r d named) [
        | kept f _ ↦ replace_required-ne-none c u ps r d named en.1 (rw (f, replace_required) at e)
        | added k f _ _ _ ↦
            replace_required-ne-none c u ps (insert k r) (insert k d) named en.1
              (rw (f, replace_required) at e)
        | stopped f few all ↦ not-used_up c r p en.0 few all
      ]

  Required-of_Supplemented :
      (c : MultipartySchemaContainer Name Key) (ps : List (WildCardName Name)) (r : List Name)
      → EnoughRequired c ps
      → All
          (λ p.
            (p.times ≤ count_if (match p) r)
            ⊎ ((count_if (match p) r < p.times)
                × All (λ k. contains r k ≡ true) (get_matched_keys c p)))
          ps
      → Required ps r
  Required-of_Supplemented c [] r en h = tt
  Required-of_Supplemented c (p ∷ ps) r en h = (
    elim h.0 [ inl le ↦ le | inr (few, all) ↦ absurd (not-used_up c r p en.0 few all) ],
    Required-of_Supplemented c ps r en.1 h.1,
  )

  -- A list without repeated names that passes the schema is renewed to one that passes it, if each
  -- pattern of the schema has, without the unavailable key, as many keys available as its
  -- multiplicity, and at most one optional pattern matches the unavailable key. It is assumed that
  -- no trusted key has the name with no components.
  pub replace_signer-pass_schema :
      (c : MultipartySchemaContainer Name Key) (list : MpsSignerList Name) (u : Name)
      (schema : MultipartySchema Name)
      → NamedKeys c
      → Distinct list.signers
      → pass_schema schema list.signers ≡ true
      → EnoughRequired (mark_unavailable c u) schema.signers
      → EnoughRequired (mark_unavailable c u) schema.optional_signers
      → count_if (λ p. match p u) schema.optional_signers ≤ 1
      → pass_schema schema (replace_signer c list u schema).1.signers ≡ true
  unfolding replace_signer
  replace_signer-pass_schema c list u schema named d pass en en' once =
      let c' = mark_unavailable c u in
      let result = (replacement c' list u schema).0.signers in
      let both = (pass_schema_iff schema list.signers).0 pass in
      let opt = schema.optional_signers in
      elim (replacement-Renewed c' list u schema (NamedKeys-mark c u named)) [
        | inl (e, stop) ↦ absurd (
            replace_required-ne-none c' u schema.signers (remaining list u) []
              (NamedKeys-mark c u named) en stop)
        | inr r ↦ (pass_schema_iff schema result).1 (
          Required-of_Renewed c' list u schema result (replacement c' list u schema).1 d both.0 r,
          elim r.supplemented [
            | inl all ↦ omega (
              arith,
              both.1,
              matched_sum-full opt result list.signers
                  (Required-of_Supplemented c' opt result en' all),
            )
            | inr more ↦ omega (arith, both.1, matched_sum-remaining list u opt d, more, once)
          ],
        )
      ]
