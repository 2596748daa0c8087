-- ===== src/Ordered/Set/Count.antt =====
-- How many keys of a list pass a test, as sets grow and shrink.
use ndn_multi_party_signatur.Prelude.{
  ℕ, zero, suc, ◌+◌, ◌≤◌, ◌≡◌, refl, Bool, true, false, ◌&&◌, List, [], ◌∷◌, arith, length, All,
  if◌then◌else◌, take, count_if, ◌<◌, All-zip,
}
use ndn_multi_party_signatur.Ordered.{Ord, same_refl, eq_of_same, same_symm}
use ndn_multi_party_signatur.Ordered.Set.{insert, contains, erase, insert_all, Distinct}
use ndn_multi_party_signatur.Ordered.Set.Members.{
  contains-erase, contains-insert_all, All-of_contains,
}

module _ {ℓ} {A : Type ℓ} ⦃o : Ord A⦄ (p : A → Bool) where
  pub count_if-insert-le : (k : A) (s : List A) → count_if p s ≤ count_if p (insert k s)
  unfolding count_if insert
  count_if-insert-le k [] = omega arith
  count_if-insert-le k (x ∷ s) = ground (arith, count_if-insert-le k s)

  pub count_if-insert_new :
      (k : A) (s : List A)
      → contains s k ≡ false
      → count_if p (insert k s) ≡ (if p k then 1 else 0) + count_if p s
  unfolding count_if insert contains
  count_if-insert_new k [] c = refl
  count_if-insert_new k (x ∷ s) c =
      ground (arith, count_if-insert_new k s, o.lt_connected k x, same_refl k)

  pub count_if-insert_all-le : (ks s : List A) → count_if p s ≤ count_if p (insert_all ks s)
  unfolding insert_all
  count_if-insert_all-le [] s = omega arith
  count_if-insert_all-le (k ∷ ks) s =
      omega (arith, count_if-insert-le k s, count_if-insert_all-le ks (insert k s))

  pub count_if-erase-le : (k : A) (s : List A) → count_if p (erase k s) ≤ count_if p s
  unfolding count_if erase
  count_if-erase-le k [] = omega arith
  count_if-erase-le k (x ∷ s) = ground (arith, count_if-erase-le k s)

  count_if-erase_hit :
      (k : A) (s : List A)
      → contains s k ≡ true
      → p k ≡ true
      → count_if p (erase k s) + 1 ≤ count_if p s
  unfolding count_if erase contains
  count_if-erase_hit k [] c h = absurd (ground arith)
  count_if-erase_hit k (x ∷ s) c h =
      ground (arith, count_if-erase_hit k s, count_if-erase-le k s, eq_of_same x k)

  erase_absent : (k : A) (s : List A) → contains s k ≡ false → erase k s ≡ s
  unfolding erase contains
  erase_absent k [] c = refl
  erase_absent k (x ∷ s) c = ground (arith, erase_absent k s)

  -- Where no key occurs twice, an erased key is missed once at most.
  pub count_if-erase_once :
      (k : A) (s : List A)
      → Distinct s
      → count_if p s ≤ count_if p (erase k s) + (if p k then 1 else 0)
  unfolding count_if erase
  count_if-erase_once k [] d = omega arith
  count_if-erase_once k (x ∷ s) d =
      ground (arith, count_if-erase_once k s d.1, erase_absent k s, eq_of_same x k)

  others :
      (k : A) (s js : List A)
      → contains js k ≡ false
      → All (λ j. (contains s j ≡ true) × (p j ≡ true)) js
      → All (λ j. (contains (erase k s) j ≡ true) × (p j ≡ true)) js
  unfolding contains
  others k s [] c a = tt
  others k s (j ∷ js) c a = (
    (ground (arith, contains-erase k s j, same_symm k j), a.0.1),
    others k s js (ground arith) a.1,
  )

  -- Distinct keys of a list that pass the test are no more than it counts.
  pub length-le-count_if :
      (ks s : List A)
      → Distinct ks
      → All (λ k. (contains s k ≡ true) × (p k ≡ true)) ks
      → length ks ≤ count_if p s
  length-le-count_if [] s d h = omega arith
  length-le-count_if (k ∷ ks) s d h = omega (
    arith,
    count_if-erase_hit k s h.0.0 h.0.1,
    length-le-count_if ks (erase k s) d.1 (others k s ks d.0 h.1),
  )

  -- The entries that pass the test, in their order.
  unfoldable pub passing : List A → List A
  passing [] = []
  passing (x ∷ s) = let rest = passing s in if p x then x ∷ rest else rest

  pub length-passing : (s : List A) → length (passing s) ≡ count_if p s
  unfolding passing count_if
  length-passing [] = refl
  length-passing (x ∷ s) = ground (arith, length-passing s)

  pub contains-passing : (s : List A) (k : A) → contains (passing s) k ≡ (contains s k && p k)
  unfolding passing contains
  contains-passing [] k = refl
  contains-passing (x ∷ s) k = ground (arith, contains-passing s k, eq_of_same x k)

  pub passing-Distinct : (s : List A) → Distinct s → Distinct (passing s)
  unfolding passing
  passing-Distinct [] d = tt
  passing-Distinct (x ∷ s) d = ground (arith, passing-Distinct s d.1, contains-passing s x)

module _ {ℓ} {A : Type ℓ} ⦃o : Ord A⦄ where
  contains-take :
      (n : ℕ) (s : List A) (k : A) → contains s k ≡ false → contains (take n s) k ≡ false
  unfolding contains
  contains-take zero s k c = refl
  contains-take (suc n) [] k c = refl
  contains-take (suc n) (x ∷ s) k c = ground (arith, contains-take n s k)

  pub take-Distinct : (n : ℕ) (s : List A) → Distinct s → Distinct (take n s)
  take-Distinct zero s d = tt
  take-Distinct (suc n) [] d = tt
  take-Distinct (suc n) (x ∷ s) d = (contains-take n s x d.0, take-Distinct n s d.1)

  -- The set of a list without repeated keys holds as many keys that pass a test as the list.
  pub count_if-of_list :
      (p : A → Bool) (s : List A) → Distinct s → count_if p s ≤ count_if p (insert_all s [])
  count_if-of_list p s d = omega (
    arith,
    length-passing p s,
    length-le-count_if p (passing p s) (insert_all s []) (passing-Distinct p s d) (
        All-of_contains (λ k. (contains (insert_all s []) k ≡ true) × (p k ≡ true)) (passing p s)
          λ k h. ground (arith, contains-passing p s k, contains-insert_all s [] k)),
  )

  -- Where fewer than the length pass the test, some key of the list is not in the set.
  pub outside_of_fewer :
      (p : A → Bool) (ks s : List A)
      → Distinct ks
      → All (λ k. p k ≡ true) ks
      → count_if p s < length ks
      → ¬ All (λ k. contains s k ≡ true) ks
  outside_of_fewer p ks s d fit few inside = omega (
    arith,
    length-le-count_if p ks s d
        (All-zip (λ k. contains s k ≡ true) (λ k. p k ≡ true) ks inside fit),
  )
