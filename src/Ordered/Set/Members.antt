-- ===== src/Ordered/Set/Members.antt =====
-- Which keys the set operations leave in a set, and that they keep it sorted.
use ndn_multi_party_signatur.Prelude.{
  ◌≡◌, refl, true, false, not, ◌&&◌, ◌||◌, List, [], ◌∷◌, arith, All, Bool-cases, inl, inr, All-imp,
  ◌++◌,
}
use ndn_multi_party_signatur.Ordered.{Ord, same, same_refl, eq_of_same, same_symm}
use ndn_multi_party_signatur.Ordered.Set.{insert, contains, erase, insert_all, IsSorted, Distinct}

module _ {ℓ} {A : Type ℓ} ⦃o : Ord A⦄ where
  pub contains-insert :
      (k : A) (s : List A) (j : A) → contains (insert k s) j ≡ (same k j || contains s j)
  unfolding insert contains
  contains-insert k [] j = refl
  contains-insert k (x ∷ s) j = ground (arith, contains-insert k s j, o.lt_connected k x)

  pub contains-insert_all :
      (ks s : List A) (j : A) → contains (insert_all ks s) j ≡ (contains ks j || contains s j)
  unfolding insert_all contains
  contains-insert_all [] s j = refl
  contains-insert_all (k ∷ ks) s j =
      ground (arith, contains-insert_all ks (insert k s) j, contains-insert k s j)

  pub contains-erase :
      (k : A) (s : List A) (j : A) → contains (erase k s) j ≡ (contains s j && not (same k j))
  unfolding erase contains
  contains-erase k [] j = refl
  contains-erase k (x ∷ s) j =
      ground
        (arith, contains-erase k s j, eq_of_same x k, same_symm x j, same_symm k j, eq_of_same x j)

  insert-All {κ} : (P : A → Type κ) (k : A) (s : List A) → P k → All P s → All P (insert k s)
  unfolding insert
  insert-All P k [] h a = (h, tt)
  insert-All P k (x ∷ s) h a = ground (arith, insert-All P k s h a.1)

  pub erase-All {κ} : (P : A → Type κ) (k : A) (s : List A) → All P s → All P (erase k s)
  unfolding erase
  erase-All P k [] a = tt
  erase-All P k (x ∷ s) a = ground (arith, erase-All P k s a.1)

  lt-All :
      (k x : A) (s : List A)
      → o.lt k x ≡ true
      → All (λ y. o.lt x y ≡ true) s
      → All (λ y. o.lt k y ≡ true) s
  lt-All k x s h a =
      All-imp (λ y. o.lt x y ≡ true) (λ y. o.lt k y ≡ true) (λ y. o.lt_trans k x y h) s a

  pub insert-IsSorted : (k : A) (s : List A) → IsSorted s → IsSorted (insert k s)
  unfolding insert
  insert-IsSorted k [] h = (tt, tt)
  insert-IsSorted k (x ∷ s) h = elim (Bool-cases (o.lt k x)) [
    | inl below ↦ rw below ((below, lt-All k x s below h.0), h)
    | inr above ↦ elim (Bool-cases (o.lt x k)) [
      | inl up ↦
          rw (above, up) (insert-All (λ y. o.lt x y ≡ true) k s up h.0, insert-IsSorted k s h.1)
      | inr level ↦ rw (above, level) h
    ]
  ]

  pub insert_all-IsSorted : (ks s : List A) → IsSorted s → IsSorted (insert_all ks s)
  unfolding insert_all
  insert_all-IsSorted [] s h = h
  insert_all-IsSorted (k ∷ ks) s h = insert_all-IsSorted ks (insert k s) (insert-IsSorted k s h)

  pub erase-IsSorted : (k : A) (s : List A) → IsSorted s → IsSorted (erase k s)
  unfolding erase
  erase-IsSorted k [] h = tt
  erase-IsSorted k (x ∷ s) h = elim (Bool-cases (same x k)) [
    | inl hit ↦ rw hit (erase-IsSorted k s h.1)
    | inr miss ↦ rw miss (erase-All (λ y. o.lt x y ≡ true) k s h.0, erase-IsSorted k s h.1)
  ]

  not-contains_of_lt : (x : A) (s : List A) → All (λ y. o.lt x y ≡ true) s → contains s x ≡ false
  unfolding contains same
  not-contains_of_lt x [] h = refl
  not-contains_of_lt x (y ∷ s) h = ground (arith, not-contains_of_lt x s h.1)

  pub sorted-Distinct : (s : List A) → IsSorted s → Distinct s
  sorted-Distinct [] h = tt
  sorted-Distinct (x ∷ s) h = (not-contains_of_lt x s h.0, sorted-Distinct s h.1)

  -- A predicate of every entry holds of every key that the list contains.
  pub All-at {κ} : (P : A → Type κ) (s : List A) (k : A) → All P s → contains s k ≡ true → P k
  unfolding contains
  All-at P [] k h c = absurd (ground arith)
  All-at P (x ∷ s) k h c = elim (Bool-cases (same x k)) [
    | inl hit ↦ rw (eq_of_same x k hit) at h.0
    | inr miss ↦ All-at P s k h.1 (rw miss at c)
  ]

  -- And what holds of every key that the list contains holds of every entry.
  pub All-of_contains {κ} :
      (P : A → Type κ) (s : List A) → ((k : A) → contains s k ≡ true → P k) → All P s
  unfolding contains
  All-of_contains P [] f = tt
  All-of_contains P (x ∷ s) f =
      (f x (rw same_refl), All-of_contains P s (λ k c. f k (ground (arith, c))))

  pub contains_empty : (k : A) → contains [] k ≡ false
  unfolding contains
  contains_empty k = refl

  pub contains_self : (s : List A) → All (λ k. contains s k ≡ true) s
  contains_self s = All-of_contains (λ k. contains s k ≡ true) s (λ k c. c)

  pub insert_all-append :
      (ks js s : List A) → insert_all (ks ++ js) s ≡ insert_all js (insert_all ks s)
  unfolding insert_all
  insert_all-append [] js s = refl
  insert_all-append (k ∷ ks) js s = insert_all-append ks js (insert k s)
