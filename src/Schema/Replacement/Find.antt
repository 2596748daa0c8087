-- ===== src/Schema/Replacement/Find.antt =====
-- What `findANewKeyForPattern` finds.
use ndn_multi_party_signatur.Prelude.{
  ◌≤◌, ◌<◌, ◌≡◌, refl, ◌⊎◌, true, false, List, [], ◌∷◌, count_if, arith, length, leb, All,
  Bool-cases, inl, inr, All-imp,
}
use ndn_multi_party_signatur.Ndn.{NdnName}
use ndn_multi_party_signatur.Ordered.{Ord}
use ndn_multi_party_signatur.Ordered.Set.{contains}
use ndn_multi_party_signatur.Ordered.Set.Count.{outside_of_fewer}
use ndn_multi_party_signatur.Schema.Pattern.{WildCardName, match}
use ndn_multi_party_signatur.Schema.Container.{MultipartySchemaContainer, get_matched_keys}
use ndn_multi_party_signatur.Schema.Container.Matched.{Eligible, matched-Eligible, matched-Distinct}
use ndn_multi_party_signatur.Schema.Replacement.{first_unused, find_new_key}

module _ {Name : Type 0} ⦃N : NdnName Name⦄ ⦃o : Ord Name⦄ where
  -- A search in a vector of keys ends at a key that is not in use, or with all in use.
  abbrev Search : List Name → List Name → (Name → Type 0) → Type 0
  Search existing ks P =
      ((k : Name) × (first_unused existing ks ≡ (true, k)) × (contains existing k ≡ false) × P k)
      ⊎ ((first_unused existing ks ≡ (false, N.empty_name))
          × All (λ k. contains existing k ≡ true) ks)

  first_unused-Search :
      (existing ks : List Name) (P : Name → Type 0) → All P ks → Search existing ks P
  unfolding first_unused
  first_unused-Search existing [] P h = inr (refl, tt)
  first_unused-Search existing (k ∷ ks) P h = elim (Bool-cases (contains existing k)) [
    | inr free ↦ inl (k, rw free refl, free, h.0)
    | inl used ↦ elim (first_unused-Search existing ks P h.1) [
      | inl (j, e, free, hj) ↦ inl (j, rw used e, free, hj)
      | inr (e, all) ↦ inr (rw used e, (used, all))
    ]
  ]

module _ {Name Key : Type 0} ⦃N : NdnName Name⦄ ⦃o : Ord Name⦄ where
  -- The three ways in which `findANewKeyForPattern` ends.
  pub data Answer (c : MultipartySchemaContainer Name Key) (existing : List Name)
      (p : WildCardName Name) : Type 0 where
    full :
        find_new_key c existing p ≡ (true, N.empty_name)
        → p.times ≤ count_if (match p) existing
        → Answer c existing p
    fresh :
        (k : Name)
        → find_new_key c existing p ≡ (true, k)
        → count_if (match p) existing < p.times
        → contains existing k ≡ false
        → match p k ≡ true
        → Eligible c k
        → Answer c existing p
    used_up :
        find_new_key c existing p ≡ (false, N.empty_name)
        → count_if (match p) existing < p.times
        → All (λ k. contains existing k ≡ true) (get_matched_keys c p)
        → Answer c existing p

  pub find_new_key-Answer :
      (c : MultipartySchemaContainer Name Key) (existing : List Name) (p : WildCardName Name)
      → Answer c existing p
  unfolding find_new_key
  find_new_key-Answer c existing p = elim (Bool-cases (leb p.times (count_if (match p) existing))) [
    | inl enough ↦ full (rw enough refl) (ground arith)
    | inr few ↦
        elim (first_unused-Search existing (get_matched_keys c p)
          (λ k. (match p k ≡ true) × Eligible c k) (matched-Eligible c p)) [
            | inl (k, e, free, fit) ↦ fresh k (rw few e) (ground arith) free fit.0 fit.1
            | inr (e, all) ↦ used_up (rw few e) (ground arith) all
          ]
  ]

  -- With as many available keys as the multiplicity the search does not fail.
  pub not-used_up :
      (c : MultipartySchemaContainer Name Key) (existing : List Name) (p : WildCardName Name)
      → p.times ≤ length (get_matched_keys c p)
      → count_if (match p) existing < p.times
      → ¬ All (λ k. contains existing k ≡ true) (get_matched_keys c p)
  not-used_up c existing p many few =
      outside_of_fewer (match p) (get_matched_keys c p) existing (matched-Distinct c p)
        (All-imp (λ k. (match p k ≡ true) × Eligible c k) (λ k. match p k ≡ true) (λ k h. h.0)
          (get_matched_keys c p) (matched-Eligible c p))
        (omega arith)

pub empty-empty_name : {Name : Type 0} (N : NdnName Name) → N.empty N.empty_name ≡ true
empty-empty_name N = ground (arith, N.empty_size N.empty_name, N.size_empty_name)
