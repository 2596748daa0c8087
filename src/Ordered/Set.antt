-- ===== src/Ordered/Set.antt =====
-- `std::set`, as the strictly increasing list of its keys, and searches in a vector of keys.
pub mod Members
pub mod Count
pub mod Perm
use ndn_multi_party_signatur.Prelude.{
  ℕ, zero, suc, ◌+◌, ◌≤◌, ◌≡◌, ◌≢◌, refl, Bool, true, false, ◌&&◌, ◌||◌, List, [], ◌∷◌, arith,
  length, All, if◌then◌else◌, take, Bool-cases, inl, inr,
}
use ndn_multi_party_signatur.Ordered.{Ord, same, same_refl, eq_of_same, lt_asymm}

module _ {ℓ} {A : Type ℓ} ⦃o : Ord A⦄ where
  -- insert: a key that is there stays, another goes to its place in the order.
  unfoldable pub insert : A → List A → List A
  insert a [] = a ∷ []
  insert a (x ∷ xs) =
      let rest = insert a xs in
      if o.lt a x then a ∷ x ∷ xs else if o.lt x a then x ∷ rest else x ∷ xs

  -- count(key) != 0
  unfoldable pub contains : List A → A → Bool
  contains [] a = false
  contains (x ∷ xs) a = same x a || contains xs a

  -- erase(key)
  unfoldable pub erase : A → List A → List A
  erase a [] = []
  erase a (x ∷ xs) = let rest = erase a xs in if same x a then rest else x ∷ rest

  -- insert of each key of a vector, in turn
  unfoldable pub insert_all : List A → List A → List A
  unfolding insert
  insert_all [] s = s
  insert_all (k ∷ ks) s = insert_all ks (insert k s)

  -- the set of the keys of a vector
  abbrev pub of_list : List A → List A
  of_list ks = insert_all ks []

  abbrev pub IsSorted : List A → Type 0
  IsSorted [] = Unit
  IsSorted (x ∷ xs) = All (λ y. o.lt x y ≡ true) xs × IsSorted xs

  -- No key occurs twice.
  abbrev pub Distinct : List A → Type 0
  Distinct [] = Unit
  Distinct (x ∷ xs) = (contains xs x ≡ false) × Distinct xs
