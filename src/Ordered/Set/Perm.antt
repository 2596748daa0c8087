-- ===== src/Ordered/Set/Perm.antt =====
-- Lists without repeated keys that have the same keys are permutations of each other.
use mathlib.Core.List.{Permᴰ}
use mathlib.Core.List.Permᴰ
use ndn_multi_party_signatur.Prelude.{
  suc, ◌≡◌, refl, ap, Bool-cases, inl, inr, true, false, ◌||◌, List, [], ◌∷◌, ◌++◌, length, map,
  arith,
}
use ndn_multi_party_signatur.Ordered.{Ord, same, same_refl, eq_of_same, same_symm}
use ndn_multi_party_signatur.Ordered.Set.{contains, erase, Distinct}
use ndn_multi_party_signatur.Ordered.Set.Members.{contains-erase}

pub Permᴰ_map :
    {A B : Type 0} (f : A → B) {xs ys : List A} → Permᴰ xs ys → Permᴰ (map f xs) (map f ys)
Permᴰ_map f Permᴰ.nil = Permᴰ.nil
Permᴰ_map f (Permᴰ.cons e p) = Permᴰ.cons (ap f e) (Permᴰ_map f p)
Permᴰ_map f (Permᴰ.swap e e') = Permᴰ.swap (ap f e) (ap f e')
Permᴰ_map f (Permᴰ.trans p q) = Permᴰ.trans (Permᴰ_map f p) (Permᴰ_map f q)

pub length-Permᴰ : {A : Type 0} {xs ys : List A} → Permᴰ xs ys → length xs ≡ length ys
length-Permᴰ Permᴰ.nil = refl
length-Permᴰ (Permᴰ.cons e p) = ap suc (length-Permᴰ p)
length-Permᴰ (Permᴰ.swap e f) = refl
length-Permᴰ (Permᴰ.trans p q) = ground (arith, length-Permᴰ p, length-Permᴰ q)

module _ {A : Type 0} ⦃o : Ord A⦄ where
  pub contains-append_one :
      (s : List A) (k a : A) → contains (s ++ k ∷ []) a ≡ (contains s a || same k a)
  unfolding contains
  contains-append_one [] k a = ground arith
  contains-append_one (x ∷ s) k a = ground (arith, contains-append_one s k a)

  pub Distinct-append_one :
      (s : List A) (k : A) → Distinct s → contains s k ≡ false → Distinct (s ++ k ∷ [])
  unfolding contains
  Distinct-append_one [] k d h = (refl, tt)
  Distinct-append_one (x ∷ s) k d h = (
    ground (arith, contains-append_one s k x, d.0, h, same_symm x k),
    Distinct-append_one s k d.1 (ground (arith, h)),
  )

  erase-absent : (k : A) (s : List A) → contains s k ≡ false → erase k s ≡ s
  unfolding erase contains
  erase-absent k [] h = refl
  erase-absent k (x ∷ s) h = ground (arith, erase-absent k s)

  erase-Distinct : (k : A) (s : List A) → Distinct s → Distinct (erase k s)
  unfolding erase
  erase-Distinct k [] d = tt
  erase-Distinct k (x ∷ s) d = elim (Bool-cases (same x k)) [
    | inl e ↦ rw e (erase-Distinct k s d.1)
    | inr e ↦ rw e (ground (arith, contains-erase k s x, d.0), erase-Distinct k s d.1)
  ]

  erase-Permᴰ : (k : A) (s : List A) → Distinct s → contains s k ≡ true → Permᴰ s (k ∷ erase k s)
  unfolding erase contains
  erase-Permᴰ k [] d h = cc
  erase-Permᴰ k (x ∷ s) d h = elim (Bool-cases (same x k)) [
    | inl e ↦
        let equal : x ≡ k = eq_of_same x k e in
        let gone : contains s k ≡ false = rw (← equal) d.0 in
        rw (e, erase-absent k s gone) (Permᴰ.cons equal (Permᴰ.refl s))
    | inr e ↦
        rw e
          (Permᴰ.trans (Permᴰ.cons refl (erase-Permᴰ k s d.1 (rw e at h))) (Permᴰ.swap refl refl))
  ]

  pub Distinct-Permᴰ :
      (xs ys : List A)
      → Distinct xs
      → Distinct ys
      → ((a : A) → contains xs a ≡ true → contains ys a ≡ true)
      → length xs ≡ length ys
      → Permᴰ xs ys
  unfolding contains
  Distinct-Permᴰ [] [] d d' sub e = Permᴰ.nil
  Distinct-Permᴰ [] (y ∷ ys) d d' sub e = absurd (omega (arith, e))
  Distinct-Permᴰ (x ∷ xs) ys d d' sub e =
      let found : contains ys x ≡ true = sub x (rw (same_refl x) refl) in
      let split = erase-Permᴰ x ys d' found in
      let ih =
        Distinct-Permᴰ xs (erase x ys) d.1 (erase-Distinct x ys d') inside
          (omega (arith, e, length-Permᴰ split)) in
      Permᴰ.trans (Permᴰ.cons refl ih) (Permᴰ.symm split)
    where
      inside : (a : A) → contains xs a ≡ true → contains (erase x ys) a ≡ true
      inside a h = elim (Bool-cases (same x a)) [
        | inl e ↦ absurd (ground (arith, d.0, (rw (eq_of_same x a e) at d.0), h))
        | inr e ↦ ground (arith, contains-erase x ys a, sub a (rw (e, h) refl), e)
      ]
