-- ===== src/Schema/Policy/Distinct.antt =====
-- What `passSchema` decides, in terms of different signers for each pattern.
use ndn_multi_party_signatur.Prelude.{
  ℕ, ◌+◌, ◌≤◌, ◌≡◌, refl, ◌↔◌, ◌<◌, true, false, Bool-cases, inl, inr, List, [], ◌∷◌, min, count_if,
  arith, length, take, All, All-take, length-take, All-imp,
}
use ndn_multi_party_signatur.Ndn.{NdnName}
use ndn_multi_party_signatur.Ordered.{Ord}
use ndn_multi_party_signatur.Ordered.Set.{contains, Distinct}
use ndn_multi_party_signatur.Ordered.Set.Members.{All-of_contains}
use ndn_multi_party_signatur.Ordered.Set.Count.{
  passing, length-passing, contains-passing, passing-Distinct, take-Distinct, length-le-count_if,
}
use ndn_multi_party_signatur.Schema.Pattern.{WildCardName, match}
use ndn_multi_party_signatur.Schema.Policy.{
  MultipartySchema, pass_required, total_matched, pass_schema,
}

module _ {Name : Type 0} ⦃N : NdnName Name⦄ where
  -- Each pattern is matched as often as it asks.
  abbrev pub Required : List (WildCardName Name) → List Name → Type 0
  Required ps names = All (λ p. p.times ≤ count_if (match p) names) ps

  pub pass_required_iff :
      (ps : List (WildCardName Name)) (names : List Name)
      → (pass_required ps names ≡ true) ↔ Required ps names
  unfolding pass_required
  pass_required_iff [] names = (λ h. tt, λ h. refl)
  pass_required_iff (p ∷ ps) names =
      let ih = pass_required_iff ps names in
      (λ h. (ground arith, ih.0 (ground arith)), λ h. ground (arith, ih.1 h.1))

  -- The sum of the matches of the patterns, each up to its multiplicity.
  abbrev pub matched_sum : List (WildCardName Name) → List Name → ℕ
  matched_sum [] names = 0
  matched_sum (p ∷ ps) names = min (count_if (match p) names) p.times + matched_sum ps names

  pub total_matched-eq-sum :
      (t : ℕ) (ps : List (WildCardName Name)) (names : List Name)
      → total_matched t ps names ≡ t + matched_sum ps names
  unfolding total_matched
  total_matched-eq-sum t [] names = omega arith
  total_matched-eq-sum t (p ∷ ps) names =
      omega (arith, total_matched-eq-sum (t + min (count_if (match p) names) p.times) ps names)

  pub pass_schema_iff :
      (s : MultipartySchema Name) (names : List Name)
      → (pass_schema s names ≡ true) ↔ (
          Required s.signers names
          × (s.min_optional_signers ≤ matched_sum s.optional_signers names))
  unfolding pass_schema
  pass_schema_iff s names =
      let req = pass_required_iff s.signers names in
      let sum = total_matched-eq-sum 0 s.optional_signers names in
      (λ h. (req.0 (ground arith), ground (arith, sum)), λ h. ground (arith, req.1 h.0, sum))

  pub pass_schema_few :
      (schema : MultipartySchema Name) (names : List Name)
      → matched_sum schema.optional_signers names < schema.min_optional_signers
      → pass_schema schema names ≡ false
  pass_schema_few schema names few = elim (Bool-cases (pass_schema schema names)) [
    | inl pass ↦ absurd (omega (arith, ((pass_schema_iff schema names).0 pass).1, few))
    | inr fail ↦ fail
  ]

module _ {Name : Type 0} ⦃N : NdnName Name⦄ ⦃o : Ord Name⦄ where
  -- So many different keys of a list that match a pattern.
  pub record Chosen (p : WildCardName Name) (names : List Name) (n : ℕ) : Type 0 where
    pub keys : List Name
    pub distinct : Distinct keys
    pub fit : All (λ k. (contains names k ≡ true) × (match p k ≡ true)) keys
    pub amount : length keys ≡ n

  -- The optional patterns supply so many keys, none more than its multiplicity. A key counts once for
  -- each pattern that it matches.
  abbrev pub Supplies : List (WildCardName Name) → List Name → ℕ → Type 0
  Supplies [] names n = n ≡ 0
  Supplies (p ∷ ps) names n =
      (m : ℕ) × (r : ℕ) × Chosen p names m × (m ≤ p.times) × Supplies ps names r × (n ≡ m + r)

  -- Each required pattern has its number of different signers, and the optional patterns together
  -- supply the minimum. Each pattern is counted by itself, so that one key can serve several patterns;
  -- the document of the class speaks of the total number of matched keys.
  pub record Satisfies (s : MultipartySchema Name) (names : List Name) : Type 0 where
    pub required : All (λ p. Chosen p names p.times) s.signers
    pub supplied : ℕ
    pub optional : Supplies s.optional_signers names supplied
    pub least : s.min_optional_signers ≤ supplied

  Chosen-of_count :
      (p : WildCardName Name) (names : List Name) (n : ℕ)
      → Distinct names
      → n ≤ count_if (match p) names
      → Chosen p names n
  Chosen-of_count p names n d h =
      let keys = passing (match p) names in
      record {
        keys = take n keys;
        distinct = take-Distinct n keys (passing-Distinct (match p) names d);
        fit =
            All-take (λ k. (contains names k ≡ true) × (match p k ≡ true)) n keys
              (All-of_contains (λ k. (contains names k ≡ true) × (match p k ≡ true)) keys
                λ k c. ground (arith, contains-passing (match p) names k));
        amount = length-take n keys (omega (arith, length-passing (match p) names));
      }

  count_of_Chosen :
      (p : WildCardName Name) (names : List Name) (n : ℕ)
      → Chosen p names n
      → n ≤ count_if (match p) names
  count_of_Chosen p names n c =
      omega (arith, length-le-count_if (match p) c.keys names c.distinct c.fit, c.amount)

  Supplies-of_sum :
      (ps : List (WildCardName Name)) (names : List Name)
      → Distinct names
      → Supplies ps names (matched_sum ps names)
  Supplies-of_sum [] names d = refl
  Supplies-of_sum (p ∷ ps) names d = (
    min (count_if (match p) names) p.times,
    matched_sum ps names,
    Chosen-of_count p names _ d (omega arith),
    omega arith,
    Supplies-of_sum ps names d,
    refl,
  )

  sum_of_Supplies :
      (ps : List (WildCardName Name)) (names : List Name) (n : ℕ)
      → Supplies ps names n
      → n ≤ matched_sum ps names
  sum_of_Supplies [] names n h = omega arith
  sum_of_Supplies (p ∷ ps) names n (m, r, c, le, rest, e) =
      omega (arith, count_of_Chosen p names m c, sum_of_Supplies ps names r rest)

  -- On a list without repeated names, `passSchema` returns true exactly when each required pattern
  -- is matched by its number of different names of the list, and the optional patterns together
  -- supply the minimum, each with different names and at most its multiplicity of them. A name that
  -- several patterns match is counted for each of them.
  pub pass_schema-Satisfies_iff :
      (s : MultipartySchema Name) (names : List Name)
      → Distinct names
      → (pass_schema s names ≡ true) ↔ Satisfies s names
  pass_schema-Satisfies_iff s names d = (
    λ h.
        let both = (pass_schema_iff s names).0 h in
        record {
          required = All-imp _ _ (λ p le. Chosen-of_count p names p.times d le) s.signers both.0;
          supplied = matched_sum s.optional_signers names;
          optional = Supplies-of_sum s.optional_signers names d;
          least = both.1;
        },
    λ h. (pass_schema_iff s names).1 (
      All-imp _ _ (λ p c. count_of_Chosen p names p.times c) s.signers h.required,
      omega (arith, sum_of_Supplies s.optional_signers names h.supplied h.optional, h.least),
    ),
  )
