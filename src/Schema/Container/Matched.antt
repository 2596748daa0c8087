-- ===== src/Schema/Container/Matched.antt =====
-- Which keys `getMatchedKeys` returns.
use ndn_multi_party_signatur.Prelude.{
  ℕ, ◌≤◌, ◌≡◌, refl, true, false, not, ◌&&◌, ◌||◌, List, [], ◌∷◌, count_if, arith, length, take,
  All, All-take, length-take, Bool-cases, inl, inr,
}
use ndn_multi_party_signatur.Ndn.{NdnName}
use ndn_multi_party_signatur.Ordered.{Ord, eq_of_same}
use ndn_multi_party_signatur.Ordered.Map.{keys}
use ndn_multi_party_signatur.Ordered.Set.{insert, contains, IsSorted, Distinct, insert_all}
use ndn_multi_party_signatur.Ordered.Set.Members.{
  contains-insert, contains_empty, insert-IsSorted, sorted-Distinct, All-of_contains, All-at,
  contains-insert_all,
}
use ndn_multi_party_signatur.Ordered.Set.Count.{take-Distinct, length-le-count_if}
use ndn_multi_party_signatur.Schema.Pattern.{WildCardName, match}
use ndn_multi_party_signatur.Schema.Container.{
  MultipartySchemaContainer, gather_matched, get_matched_keys,
}

module _ {Name Key : Type 0} ⦃N : NdnName Name⦄ ⦃o : Ord Name⦄ where
  gather_matched-contains :
      (p : WildCardName Name) (u : List Name) (ids : List (Name × Key)) (r : List Name) (k : Name)
      → contains (gather_matched p u ids r) k
        ≡ (contains (keys ids) k && (match p k && not (contains u k)) || contains r k)
  unfolding gather_matched contains
  gather_matched-contains p u [] r k = refl
  gather_matched-contains p u ((key, bits) ∷ ids) r k =
      elim (Bool-cases (match p key && not (contains u key))) [
        | inl fit ↦ rw fit (
            ground (
              arith,
              gather_matched-contains p u ids (insert key r) k,
              contains-insert key r k,
              eq_of_same key k,
            ))
        | inr unfit ↦
            rw unfit (ground (arith, gather_matched-contains p u ids r k, eq_of_same key k))
      ]

  gather_matched-IsSorted :
      (p : WildCardName Name) (u : List Name) (ids : List (Name × Key)) (r : List Name)
      → IsSorted r
      → IsSorted (gather_matched p u ids r)
  unfolding gather_matched
  gather_matched-IsSorted p u [] r h = h
  gather_matched-IsSorted p u ((key, bits) ∷ ids) r h =
      elim (Bool-cases (match p key && not (contains u key))) [
        | inl hit ↦
            rw hit (gather_matched-IsSorted p u ids (insert key r) (insert-IsSorted key r h))
        | inr miss ↦ rw miss (gather_matched-IsSorted p u ids r h)
      ]

  -- `getMatchedKeys` returns exactly the trusted names that match the pattern and are not marked
  -- unavailable, in strictly increasing order.
  pub get_matched_keys_lem :
      (c : MultipartySchemaContainer Name Key) (p : WildCardName Name)
      → IsSorted (get_matched_keys c p)
        × ((k : Name)
            → contains (get_matched_keys c p) k ≡ (
                contains (keys c.trusted_ids) k
                && (match p k && not (contains c.unavailable_signers k))))
  unfolding get_matched_keys
  get_matched_keys_lem c p = (
    gather_matched-IsSorted p c.unavailable_signers c.trusted_ids [] tt,
    λ k. ground (
      arith,
      gather_matched-contains p c.unavailable_signers c.trusted_ids [] k,
      contains_empty k,
    ),
  )

  -- A key that may be chosen: trusted, and not marked unavailable.
  abbrev pub Eligible : MultipartySchemaContainer Name Key → Name → Type 0
  Eligible c k =
      (contains (keys c.trusted_ids) k ≡ true) × (contains c.unavailable_signers k ≡ false)

  pub matched-Eligible :
      (c : MultipartySchemaContainer Name Key) (p : WildCardName Name)
      → All (λ k. (match p k ≡ true) × Eligible c k) (get_matched_keys c p)
  matched-Eligible c p =
      All-of_contains (λ k. (match p k ≡ true) × Eligible c k) (get_matched_keys c p)
        λ k h. ground (arith, (get_matched_keys_lem c p).1 k)

  pub matched-Distinct :
      (c : MultipartySchemaContainer Name Key) (p : WildCardName Name)
      → Distinct (get_matched_keys c p)
  matched-Distinct c p = sorted-Distinct (get_matched_keys c p) (get_matched_keys_lem c p).0

  -- After the first m matched keys of a pattern went in, m keys of the set match it.
  pub le-count_if-insert_all :
      (c : MultipartySchemaContainer Name Key) (p : WildCardName Name) (m : ℕ) (r : List Name)
      → m ≤ length (get_matched_keys c p)
      → m ≤ count_if (match p) (insert_all (take m (get_matched_keys c p)) r)
  le-count_if-insert_all c p m r h =
      let ks = take m (get_matched_keys c p) in
      omega (
        arith,
        length-take m (get_matched_keys c p) h,
        length-le-count_if (match p) ks (insert_all ks r)
            (take-Distinct m (get_matched_keys c p) (matched-Distinct c p))
            (inserted ks (
              All-take (λ k. (match p k ≡ true) × Eligible c k) m (get_matched_keys c p)
                (matched-Eligible c p))),
      )
    where
      inserted :
          (ks : List Name)
          → All (λ k. (match p k ≡ true) × Eligible c k) ks
          → All (λ k. (contains (insert_all ks r) k ≡ true) × (match p k ≡ true)) ks
      inserted ks a =
          All-of_contains (λ k. (contains (insert_all ks r) k ≡ true) × (match p k ≡ true)) ks
            λ k hit. (
              ground (arith, contains-insert_all ks r k),
              (All-at (λ k. (match p k ≡ true) × Eligible c k) ks k a hit).0,
            )
