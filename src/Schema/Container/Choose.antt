-- ===== src/Schema/Container/Choose.antt =====
-- The loops of `getAvailableSigners`: what they insert, and when they go through.
use ndn_multi_party_signatur.Prelude.{
  ℕ, zero, suc, ◌+◌, ◌≤◌, ◌≡◌, refl, ◌⊎◌, Bool, true, List, [], ◌∷◌, ◌++◌, count_if, arith, length,
  ltb, leb, min, take, All, All-take, Bool-cases, ltb-false_of_le, inl, inr, All-imp, All-append,
  ok, throws, missing_keys,
}
use ndn_multi_party_signatur.Ndn.{NdnName}
use ndn_multi_party_signatur.Ordered.{Ord}
use ndn_multi_party_signatur.Ordered.Set.{insert, insert_all}
use ndn_multi_party_signatur.Ordered.Set.Members.{insert_all-append}
use ndn_multi_party_signatur.Ordered.Set.Count.{count_if-insert_all-le}
use ndn_multi_party_signatur.Schema.Pattern.{WildCardName, match}
use ndn_multi_party_signatur.Schema.Policy.Distinct.{Required, matched_sum}
use ndn_multi_party_signatur.Schema.Container.{
  MultipartySchemaContainer, get_matched_keys, insert_first, insert_until, choose_required,
  choose_optional,
}
use ndn_multi_party_signatur.Schema.Container.Matched.{
  Eligible, matched-Eligible, le-count_if-insert_all,
}

module _ {Name : Type 0} ⦃o : Ord Name⦄ where
  pub insert_first-eq-ok :
      (n : ℕ) (ks r : List Name)
      → n ≤ length ks
      → insert_first n ks r ≡ ok (insert_all (take n ks) r)
  unfolding insert_first insert_all
  insert_first-eq-ok zero ks r h = refl
  insert_first-eq-ok (suc n) [] r h = absurd (omega arith)
  insert_first-eq-ok (suc n) (k ∷ ks) r h = insert_first-eq-ok n ks (insert k r) (omega arith)

  -- The loop inserts a first part of the keys, all that it may unless the minimum is reached.
  pub insert_until-eq-ok :
      (least n : ℕ) (ks r : List Name) (count : ℕ)
      → n ≤ length ks
      → (m : ℕ) × (insert_until least n ks r count ≡ ok (insert_all (take m ks) r, count + m))
        × (m ≤ n)
        × ((least ≤ count + m) ⊎ (m ≡ n))
  unfolding insert_until insert_all
  insert_until-eq-ok least zero ks r count h = (0, ground arith, omega arith, inr refl)
  insert_until-eq-ok least (suc n) [] r count h = absurd (omega arith)
  insert_until-eq-ok least (suc n) (k ∷ ks) r count h = elim (Bool-cases (leb least (count + 1))) [
    | inl stop ↦ rw stop (1, refl, omega arith, inl (ground arith))
    | inr on ↦
        let (m, e, le, d) = insert_until-eq-ok least n ks (insert k r) (count + 1) (omega arith) in
        rw on (suc m, rw e (ground arith), omega arith, ground arith)
  ]

module _ {Name Key : Type 0} ⦃N : NdnName Name⦄ ⦃o : Ord Name⦄ where
  -- One set is another with eligible keys inserted.
  pub record Extends (c : MultipartySchemaContainer Name Key) (r r' : List Name) : Type 0 where
    pub added : List Name
    pub eligible : All (Eligible c) added
    pub result : r' ≡ insert_all added r

  pub Extends-refl : (c : MultipartySchemaContainer Name Key) (r : List Name) → Extends c r r
  unfolding insert_all
  Extends-refl c r = record { added = []; eligible = tt; result = refl }

  pub Extends-trans :
      {c : MultipartySchemaContainer Name Key} {r s t : List Name}
      → Extends c r s
      → Extends c s t
      → Extends c r t
  Extends-trans {c} {r} {s} {t} a b = record {
    added = a.added ++ b.added;
    eligible = All-append (Eligible c) a.added b.added a.eligible b.eligible;
    result = rw (insert_all-append a.added b.added r, ← a.result) b.result;
  }

  pub Extends-count :
      {c : MultipartySchemaContainer Name Key} {r s : List Name} (p : Name → Bool)
      → Extends c r s
      → count_if p r ≤ count_if p s
  Extends-count {c} {r} {s} p a = rw a.result (count_if-insert_all-le p a.added r)

  pub take-Extends :
      (c : MultipartySchemaContainer Name Key) (p : WildCardName Name) (m : ℕ) (r : List Name)
      → Extends c r (insert_all (take m (get_matched_keys c p)) r)
  take-Extends c p m r = record {
    added = take m (get_matched_keys c p);
    eligible = All-take (Eligible c) m (get_matched_keys c p) (
        All-imp (λ k. (match p k ≡ true) × Eligible c k) (Eligible c) (λ k h. h.1)
          (get_matched_keys c p) (matched-Eligible c p));
    result = refl;
  }

  Required-mono :
      {c : MultipartySchemaContainer Name Key} (ps : List (WildCardName Name)) {r s : List Name}
      → Extends c r s
      → Required ps r
      → Required ps s
  Required-mono {c} ps {r} {s} x h =
      All-imp (λ p. p.times ≤ count_if (match p) r) (λ p. p.times ≤ count_if (match p) s)
        (λ p le. omega (arith, Extends-count (match p) x)) ps h

  -- There are keys enough for each required pattern.
  abbrev pub EnoughRequired : MultipartySchemaContainer Name Key → List (WildCardName Name) → Type 0
  EnoughRequired c ps = All (λ p. p.times ≤ length (get_matched_keys c p)) ps

  pub choose_required-ok :
      (c : MultipartySchemaContainer Name Key) (ps : List (WildCardName Name)) (r : List Name)
      → EnoughRequired c ps
      → (r' : List Name) × (choose_required c ps r ≡ ok r') × Extends c r r' × Required ps r'
  unfolding choose_required
  choose_required-ok c [] r h = (r, refl, Extends-refl c r, tt)
  choose_required-ok c (p ∷ ps) r h =
      let s : List Name = insert_all (take p.times (get_matched_keys c p)) r in
      let (r', e, x, q) = choose_required-ok c ps s h.1 in
      (
        r',
        rw
            (
              ltb-false_of_le (length (get_matched_keys c p)) p.times h.0,
              insert_first-eq-ok p.times (get_matched_keys c p) r h.0,
            )
            e,
        Extends-trans (take-Extends c p p.times r) x,
        (omega (arith, Extends-count (match p) x, le-count_if-insert_all c p p.times r h.0), q),
      )

  -- The first pattern with too few keys makes the loop throw.
  pub choose_required-Enough :
      (c : MultipartySchemaContainer Name Key) (ps : List (WildCardName Name)) (r r' : List Name)
      → choose_required c ps r ≡ ok r'
      → EnoughRequired c ps
  unfolding choose_required
  choose_required-Enough c [] r r' e = tt
  choose_required-Enough c (p ∷ ps) r r' e =
      elim (Bool-cases (ltb (length (get_matched_keys c p)) p.times)) [
        | inl few ↦ absurd (ground (arith, rw few at e))
        | inr many ↦
            let le : p.times ≤ length (get_matched_keys c p) = ground arith in
            (
              le,
              choose_required-Enough c ps (insert_all (take p.times (get_matched_keys c p)) r) r'
                  (rw (many, insert_first-eq-ok p.times (get_matched_keys c p) r le) at e),
            )
      ]

  pub choose_required-throws :
      (c : MultipartySchemaContainer Name Key) (ps : List (WildCardName Name)) (r : List Name)
      → ¬ EnoughRequired c ps
      → choose_required c ps r ≡ throws missing_keys
  unfolding choose_required
  choose_required-throws c [] r short = absurd (short tt)
  choose_required-throws c (p ∷ ps) r short =
      elim (Bool-cases (ltb (length (get_matched_keys c p)) p.times)) [
        | inl few ↦ rw few refl
        | inr many ↦
            let le : p.times ≤ length (get_matched_keys c p) = ground arith in
            rw (many, insert_first-eq-ok p.times (get_matched_keys c p) r le)
              (choose_required-throws c ps (insert_all (take p.times (get_matched_keys c p)) r)
                (λ h. short (le, h)))
      ]

  -- How many keys the optional patterns have to give, each up to its multiplicity.
  abbrev pub supply : MultipartySchemaContainer Name Key → List (WildCardName Name) → ℕ
  supply c [] = 0
  supply c (p ∷ ps) = min (length (get_matched_keys c p)) p.times + supply c ps

  -- The loop goes through; its count is covered by what its set matches, and it ends at the minimum
  -- or with all that the patterns have to give.
  pub record Chooses (c : MultipartySchemaContainer Name Key) (least : ℕ)
      (ps : List (WildCardName Name)) (r : List Name) (count : ℕ) : Type 0 where
    pub result : List Name
    pub total : ℕ
    pub runs : choose_optional c least ps r count ≡ ok (result, total)
    pub extends : Extends c r result
    pub covered : total ≤ count + matched_sum ps result
    pub within : total ≤ count + supply c ps
    pub ended : (least ≤ total) ⊎ (total ≡ count + supply c ps)

  pub choose_optional-Chooses :
      (c : MultipartySchemaContainer Name Key) (least : ℕ) (ps : List (WildCardName Name))
      (r : List Name) (count : ℕ)
      → Chooses c least ps r count
  unfolding choose_optional
  choose_optional-Chooses c least [] r count = record {
    result = r;
    total = count;
    runs = refl;
    extends = Extends-refl c r;
    covered = omega arith;
    within = omega arith;
    ended = inr (omega arith);
  }
  choose_optional-Chooses c least (p ∷ ps) r count =
      let ks : List Name = get_matched_keys c p in
      let (m, e, le, d) =
        insert_until-eq-ok least (min (length ks) p.times) ks r count (omega arith) in
      let s : List Name = insert_all (take m ks) r in
      let some_fit : m ≤ count_if (match p) s = le-count_if-insert_all c p m r (omega arith) in
      elim (Bool-cases (leb least (count + m))) [
        | inl stop ↦ record {
          result = s;
          total = count + m;
          runs = rw (e, stop) refl;
          extends = take-Extends c p m r;
          covered = omega arith;
          within = omega arith;
          ended = inl (ground arith);
        }
        | inr on ↦
            let rest = choose_optional-Chooses c least ps s (count + m) in
            let all : m ≡ min (length ks) p.times = ground (arith, d, on) in
            record {
              result = rest.result;
              total = rest.total;
              runs = rw (e, on) rest.runs;
              extends = Extends-trans (take-Extends c p m r) rest.extends;
              covered = omega (arith, rest.covered, some_fit, Extends-count (match p) rest.extends);
              within = omega (arith, rest.within);
              ended = ground (arith, rest.ended, all);
            }
      ]
