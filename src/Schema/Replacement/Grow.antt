-- ===== src/Schema/Replacement/Grow.antt =====
-- How the two loops of `replaceSigner` grow the set and the difference.
use ndn_multi_party_signatur.Prelude.{
  ℕ, ◌+◌, ◌≤◌, ◌<◌, ◌≡◌, refl, ◌∙◌, ◌⊎◌, Bool, true, false, ◌||◌, none, some, List, [], ◌∷◌,
  if◌then◌else◌, count_if, arith, All, Bool-cases, inl, inr, All-imp,
}
use mathlib.Core.Path.{subst}
use ndn_multi_party_signatur.Ndn.{NdnName}
use ndn_multi_party_signatur.Ordered.{Ord, same, eq_of_same}
use ndn_multi_party_signatur.Ordered.Map.{keys}
use ndn_multi_party_signatur.Ordered.Set.{contains, insert, IsSorted}
use ndn_multi_party_signatur.Ordered.Set.Members.{contains-insert, insert-IsSorted, contains_empty}
use ndn_multi_party_signatur.Ordered.Set.Count.{count_if-insert-le, count_if-insert_new}
use ndn_multi_party_signatur.Schema.Pattern.{WildCardName, match}
use ndn_multi_party_signatur.Schema.Policy.Distinct.{matched_sum}
use ndn_multi_party_signatur.Schema.Container.{MultipartySchemaContainer, get_matched_keys}
use ndn_multi_party_signatur.Schema.Container.Matched.{Eligible}
use ndn_multi_party_signatur.Schema.Replacement.{
  replace_required_step, replace_required, replace_optional,
}
use ndn_multi_party_signatur.Schema.Replacement.Find.{
  full, fresh, used_up, find_new_key-Answer, empty-empty_name,
}

module _ {Name Key : Type 0} ⦃N : NdnName Name⦄ ⦃o : Ord Name⦄ where
  -- No trusted key has the name with no components.
  abbrev pub NamedKeys : MultipartySchemaContainer Name Key → Type 0
  NamedKeys c = (k : Name) → contains (keys c.trusted_ids) k ≡ true → N.empty k ≡ false

  -- The set is the base with the difference added: eligible keys that the base has not.
  pub record Grown (c : MultipartySchemaContainer Name Key) (base : List Name)
      (sets : List Name × List Name) : Type 0 where
    pub sorted : IsSorted sets.0
    pub diff_sorted : IsSorted sets.1
    pub union : (k : Name) → contains sets.0 k ≡ (contains base k || contains sets.1 k)
    pub diff_new : (k : Name) → contains sets.1 k ≡ true → (contains base k ≡ false) × Eligible c k
    pub more : (q : Name → Bool) → count_if q base ≤ count_if q sets.0

  pub Grown-refl :
      (c : MultipartySchemaContainer Name Key) (base : List Name)
      → IsSorted base
      → Grown c base (base, [])
  Grown-refl c base h = record {
    sorted = h;
    diff_sorted = tt;
    union = λ k. ground (arith, contains_empty k);
    diff_new = λ k e. absurd (ground (arith, contains_empty k));
    more = λ q. omega arith;
  }

  pub Grown-insert :
      (c : MultipartySchemaContainer Name Key) (base r d : List Name) (k : Name)
      → contains r k ≡ false
      → Eligible c k
      → Grown c base (r, d)
      → Grown c base (insert k r, insert k d)
  Grown-insert c base r d k free fit g = record {
    sorted = insert-IsSorted k r g.sorted;
    diff_sorted = insert-IsSorted k d g.diff_sorted;
    union = λ j. ground (arith, contains-insert k r j, contains-insert k d j, g.union j);
    diff_new = λ j e. elim (Bool-cases (same k j)) [
      | inl hit ↦
          let eq = eq_of_same k j hit in (ground (arith, g.union k, eq), subst (Eligible c) eq fit)
      | inr miss ↦ g.diff_new j (ground (arith, contains-insert k d j))
    ];
    more = λ q. omega (arith, g.more q, count_if-insert-le q k r);
  }

  -- One round of the loop over the required patterns keeps the sets, adds a key, or stops the call.
  pub data Round (c : MultipartySchemaContainer Name Key) (u : Name) (p : WildCardName Name)
      (r d : List Name) : Type 0 where
    kept :
        replace_required_step c u p (r, d) ≡ some (r, d)
        → (match p u ≡ true → p.times ≤ count_if (match p) r)
        → Round c u p r d
    added :
        (k : Name)
        → replace_required_step c u p (r, d) ≡ some (insert k r, insert k d)
        → contains r k ≡ false
        → match p k ≡ true
        → Eligible c k
        → Round c u p r d
    stopped :
        replace_required_step c u p (r, d) ≡ none
        → count_if (match p) r < p.times
        → All (λ k. contains r k ≡ true) (get_matched_keys c p)
        → Round c u p r d

  pub replace_required_step-Round :
      (c : MultipartySchemaContainer Name Key) (u : Name) (p : WildCardName Name) (r d : List Name)
      → NamedKeys c
      → Round c u p r d
  unfolding replace_required_step
  replace_required_step-Round c u p r d named = elim (Bool-cases (match p u)) [
    | inr other ↦ kept (rw other refl) (λ h. absurd (ground arith))
    | inl hit ↦ elim (find_new_key-Answer c r p) [
      | full f enough ↦ kept (rw (hit, f, empty-empty_name N) refl) (λ h. enough)
      | fresh k f few free fit el ↦ added k (rw (hit, f, named k el.0) refl) free fit el
      | used_up f few all ↦ stopped (rw (hit, f) refl) few all
    ]
  ]

  -- The sets after the loop, where it does not stop the call: each pattern that matches the
  -- unavailable key has its number of keys, if it missed one at most.
  pub record Refilled (c : MultipartySchemaContainer Name Key) (u : Name)
      (ps : List (WildCardName Name)) (base r : List Name) (sets : List Name × List Name)
      : Type 0 where
    pub grown : Grown c base sets
    pub more : (q : Name → Bool) → count_if q r ≤ count_if q sets.0
    pub enough :
        All
          (λ p.
            match p u ≡ true
            → p.times ≤ count_if (match p) r + 1
            → p.times ≤ count_if (match p) sets.0)
          ps

  Refilled-cons :
      (c : MultipartySchemaContainer Name Key) (u : Name) (p : WildCardName Name)
      (ps : List (WildCardName Name)) (base r s : List Name) (sets : List Name × List Name)
      → ((q : Name → Bool) → count_if q r ≤ count_if q s)
      → (match p u ≡ true → p.times ≤ count_if (match p) r + 1 → p.times ≤ count_if (match p) s)
      → Refilled c u ps base s sets
      → Refilled c u (p ∷ ps) base r sets
  Refilled-cons c u p ps base r s sets m en f = record {
    grown = f.grown;
    more = λ q. omega (arith, m q, f.more q);
    enough = (
      λ h le. omega (arith, en h le, f.more (match p)),
      All-imp
          (λ q.
            match q u ≡ true
            → q.times ≤ count_if (match q) s + 1
            → q.times ≤ count_if (match q) sets.0)
          (λ q.
            match q u ≡ true
            → q.times ≤ count_if (match q) r + 1
            → q.times ≤ count_if (match q) sets.0)
          (λ q ih h le. ih h (omega (arith, m (match q)))) ps f.enough,
    );
  }

  pub replace_required-Refilled :
      (c : MultipartySchemaContainer Name Key) (u : Name) (ps : List (WildCardName Name))
      (base r d : List Name) (sets : List Name × List Name)
      → NamedKeys c
      → Grown c base (r, d)
      → replace_required c u ps (r, d) ≡ some sets
      → Refilled c u ps base r sets
  unfolding replace_required
  replace_required-Refilled c u [] base r d sets named g e =
      let same_sets : ◌≡◌ {A = List Name × List Name} (r, d) sets = cc in
      subst (Refilled c u [] base r) same_sets
        (record { grown = g; more = λ q. omega arith; enough = tt })
  replace_required-Refilled c u (p ∷ ps) base r d sets named g e =
      elim (replace_required_step-Round c u p r d named) [
        | kept f enough ↦
            Refilled-cons c u p ps base r r sets (λ q. omega arith) (λ h le. enough h)
              (replace_required-Refilled c u ps base r d sets named g
                (rw (f, replace_required) at e))
        | added k f free fit el ↦
            Refilled-cons c u p ps base r (insert k r) sets (λ q. count_if-insert-le q k r)
              (λ h le. ground (arith, count_if-insert_new (match p) k r free, fit))
              (replace_required-Refilled c u ps base (insert k r) (insert k d) sets named
                (Grown-insert c base r d k free el g) (rw (f, replace_required) at e))
        | stopped f _ _ ↦ absurd (ground (arith, rw (f, replace_required) at e))
      ]

module _ {Name : Type 0} ⦃N : NdnName Name⦄ where
  pub matched_sum_mono :
      (ps : List (WildCardName Name)) (r s : List Name)
      → ((q : Name → Bool) → count_if q r ≤ count_if q s)
      → matched_sum ps r ≤ matched_sum ps s
  matched_sum_mono [] r s h = omega arith
  matched_sum_mono (p ∷ ps) r s h = omega (arith, h (match p), matched_sum_mono ps r s h)

module _ {Name Key : Type 0} ⦃N : NdnName Name⦄ ⦃o : Ord Name⦄ where
  -- The loop over the optional patterns keeps the sets, or adds one key.
  pub data Refill (c : MultipartySchemaContainer Name Key) (ps : List (WildCardName Name))
      (r d : List Name) : Type 0 where
    kept :
        replace_optional c ps (r, d) ≡ (r, d)
        → All
            (λ p.
              (p.times ≤ count_if (match p) r)
              ⊎ ((count_if (match p) r < p.times)
                  × All (λ k. contains r k ≡ true) (get_matched_keys c p)))
            ps
        → Refill c ps r d
    added :
        (k : Name)
        → replace_optional c ps (r, d) ≡ (insert k r, insert k d)
        → contains r k ≡ false
        → Eligible c k
        → matched_sum ps r + 1 ≤ matched_sum ps (insert k r)
        → Refill c ps r d

  pub replace_optional-Refill :
      (c : MultipartySchemaContainer Name Key) (ps : List (WildCardName Name)) (r d : List Name)
      → NamedKeys c
      → Refill c ps r d
  unfolding replace_optional
  replace_optional-Refill c [] r d named = Refill.kept refl tt
  replace_optional-Refill c (p ∷ ps) r d named = elim (find_new_key-Answer c r p) [
    | full f enough ↦
        later (inl enough) (rw (f, empty-empty_name N) refl)
          (replace_optional-Refill c ps r d named)
    | used_up f few all ↦
        later (inr (few, all)) (rw f refl) (replace_optional-Refill c ps r d named)
    | fresh k f few free fit el ↦ Refill.added k (rw (f, named k el.0) refl) free el (
        omega (
          arith,
          count_if-insert_new (match p) k r free,
          fits k fit,
          matched_sum_mono ps r (insert k r) (λ q. count_if-insert-le q k r),
        ))
  ]
    where
      fits : (k : Name) → match p k ≡ true → ◌≡◌ {A = ℕ} (if match p k then 1 else 0) 1
      fits k h = rw h refl

      later :
          (p.times ≤ count_if (match p) r)
            ⊎ ((count_if (match p) r < p.times)
                × All (λ k. contains r k ≡ true) (get_matched_keys c p))
          → replace_optional c (p ∷ ps) (r, d) ≡ replace_optional c ps (r, d)
          → Refill c ps r d
          → Refill c (p ∷ ps) r d
      later w f (Refill.kept e all) = Refill.kept (f ∙ e) (w, all)
      later w f (Refill.added k e free el up) =
          Refill.added k (f ∙ e) free el (omega (arith, up, count_if-insert-le (match p) k r))
