-- ===== src/Ordered/Sort.antt =====
-- `std::sort` under the order of the keys: the result that the standard asks for, by insertion.
use mathlib.Core.Path.{subst, ap₂}
use ndn_multi_party_signatur.Prelude.{
  ℕ, ◌+◌, ◌≤◌, ◌≡◌, refl, sym, ◌∙◌, ap, ◌↔◌, Bool, true, false, ◌&&◌, List, [], ◌∷◌, arith, All,
  if◌then◌else◌, Bool-cases, inl, inr, count_if, All-imp,
}
use ndn_multi_party_signatur.Ordered.{Ord, same, same_refl, eq_of_same, lt_asymm}

module _ {ℓ} {A : Type ℓ} ⦃o : Ord A⦄ where
  put_sorted : A → List A → List A
  put_sorted a [] = a ∷ []
  put_sorted a (x ∷ xs) = let rest = put_sorted a xs in if o.lt x a then x ∷ rest else a ∷ x ∷ xs

  unfoldable pub sort : List A → List A
  unfolding put_sorted
  sort [] = []
  sort (x ∷ xs) = put_sorted x (sort xs)

  -- vector == vector, by the keys' equality
  unfoldable pub vector_eq : List A → List A → Bool
  vector_eq [] [] = true
  vector_eq (x ∷ xs) (y ∷ ys) = same x y && vector_eq xs ys
  vector_eq _ _ = false

  -- How often a key occurs.
  abbrev pub occurrences : A → List A → ℕ
  occurrences a xs = count_if (same a) xs

  -- In increasing order, with repetitions.
  abbrev Ascending : List A → Type 0
  Ascending [] = Unit
  Ascending (x ∷ xs) = All (λ y. o.lt y x ≡ false) xs × Ascending xs

  put_sorted-All {κ} :
      (P : A → Type κ) (a : A) (xs : List A) → P a → All P xs → All P (put_sorted a xs)
  unfolding put_sorted
  put_sorted-All P a [] h k = (h, tt)
  put_sorted-All P a (x ∷ xs) h k = ground (arith, put_sorted-All P a xs h k.1)

  lower :
      (a x : A) (xs : List A)
      → o.lt x a ≡ false
      → All (λ y. o.lt y x ≡ false) xs
      → All (λ y. o.lt y a ≡ false) xs
  lower a x xs h all =
      All-imp (λ y. o.lt y x ≡ false) (λ y. o.lt y a ≡ false)
        (λ y k. ground (
          arith,
          o.lt_trans y a x,
          o.lt_trans x y a,
          o.lt_connected a x,
          o.lt_connected x a,
          lt_asymm y a,
        ))
        xs all

  put_sorted-Ascending : (a : A) (xs : List A) → Ascending xs → Ascending (put_sorted a xs)
  unfolding put_sorted
  put_sorted-Ascending a [] h = (tt, tt)
  put_sorted-Ascending a (x ∷ xs) h = elim (Bool-cases (o.lt x a)) [
    | inl up ↦ rw up (
      put_sorted-All (λ y. o.lt y x ≡ false) a xs (lt_asymm x a up) h.0,
      put_sorted-Ascending a xs h.1,
    )
    | inr here ↦ rw here ((here, lower a x xs here h.0), h)
  ]

  sort-Ascending : (xs : List A) → Ascending (sort xs)
  unfolding sort
  sort-Ascending [] = tt
  sort-Ascending (x ∷ xs) = put_sorted-Ascending x (sort xs) (sort-Ascending xs)

  put_sorted-count :
      (q : A → Bool) (a : A) (xs : List A)
      → count_if q (put_sorted a xs) ≡ (if q a then 1 else 0) + count_if q xs
  unfolding put_sorted count_if
  put_sorted-count q a [] = refl
  put_sorted-count q a (x ∷ xs) = ground (arith, put_sorted-count q a xs)

  pub sort-count : (q : A → Bool) (xs : List A) → count_if q (sort xs) ≡ count_if q xs
  unfolding sort count_if
  sort-count q [] = refl
  sort-count q (x ∷ xs) =
      put_sorted-count q x (sort xs) ∙ ap (◌+◌ (if q x then 1 else 0)) (sort-count q xs)

  vector_eq_iff : (xs ys : List A) → (vector_eq xs ys ≡ true) ↔ (xs ≡ ys)
  unfolding vector_eq
  vector_eq_iff [] [] = (λ h. refl, λ h. refl)
  vector_eq_iff [] (y ∷ ys) = (λ h. cc, λ h. cc)
  vector_eq_iff (x ∷ xs) [] = (λ h. cc, λ h. cc)
  vector_eq_iff (x ∷ xs) (y ∷ ys) =
      let ih = vector_eq_iff xs ys in
      (λ h. ground (arith, eq_of_same x y, ih.0), λ h. ground (arith, same_refl x, ih.1))

  absent : (a : A) (xs : List A) → All (λ y. o.lt a y ≡ true) xs → occurrences a xs ≡ 0
  unfolding count_if same
  absent a [] h = refl
  absent a (x ∷ xs) h = ground (arith, absent a xs h.1)

  occurs_head : (x : A) (xs : List A) → 1 ≤ occurrences x (x ∷ xs)
  unfolding count_if
  occurs_head x xs = ground (arith, same_refl x)

  above :
      (a x : A) (xs : List A)
      → o.lt a x ≡ true
      → All (λ y. o.lt y x ≡ false) xs
      → All (λ y. o.lt a y ≡ true) xs
  above a x xs h all =
      All-imp (λ y. o.lt y x ≡ false) (λ y. o.lt a y ≡ true) (λ y k. above_one y k) xs all
    where
      above_one : (y : A) → o.lt y x ≡ false → o.lt a y ≡ true
      above_one y k = elim (Bool-cases (o.lt x y)) [
        | inl up ↦ o.lt_trans a x y h up
        | inr level ↦ subst (λ z. o.lt a z ≡ true) (o.lt_connected x y level k) h
      ]

  -- Ascending lists with the same keys, as often, are equal.
  Ascending-unique :
      (xs ys : List A)
      → Ascending xs
      → Ascending ys
      → ((a : A) → occurrences a xs ≡ occurrences a ys)
      → xs ≡ ys
  unfolding count_if
  Ascending-unique [] [] h k e = refl
  Ascending-unique [] (y ∷ ys) h k e = absurd (omega (arith, e y, occurs_head y ys))
  Ascending-unique (x ∷ xs) [] h k e = absurd (omega (arith, e x, occurs_head x xs))
  Ascending-unique (x ∷ xs) (y ∷ ys) h k e = elim (Bool-cases (o.lt x y)) [
    | inl low ↦
        absurd (omega (arith, e x, occurs_head x xs, absent x (y ∷ ys) (low, above x y ys low k.0)))
    | inr a ↦ elim (Bool-cases (o.lt y x)) [
      | inl low ↦
          absurd
            (omega (arith, e y, occurs_head y ys, absent y (x ∷ xs) (low, above y x xs low h.0)))
      | inr b ↦
          let eq = o.lt_connected x y a b in
          ap₂ ◌∷◌ eq (Ascending-unique xs ys h.1 k.1 (λ c. ground (arith, e c, eq)))
    ]
  ]

  -- Comparing two vectors after sorting both tells whether they hold the same keys, as often.
  pub vector_eq-sort_iff :
      (xs ys : List A)
      → (vector_eq (sort xs) (sort ys) ≡ true) ↔ ((a : A) → occurrences a xs ≡ occurrences a ys)
  vector_eq-sort_iff xs ys = (
    λ h a.
        sym (sort-count (same a) xs)
        ∙ ap (occurrences a) ((vector_eq_iff (sort xs) (sort ys)).0 h)
        ∙ sort-count (same a) ys,
    λ h. (vector_eq_iff (sort xs) (sort ys)).1 (
        Ascending-unique (sort xs) (sort ys) (sort-Ascending xs) (sort-Ascending ys)
          (λ a. sort-count (same a) xs ∙ h a ∙ sym (sort-count (same a) ys))),
  )
