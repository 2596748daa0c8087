-- ===== src/Ordered/Map.antt =====
-- `std::map`, as the list of its entries in the order of their keys.
use ndn_multi_party_signatur.Prelude.{
  ◌≡◌, refl, Bool, true, false, Option, none, some, List, [], ◌∷◌, arith, if◌then◌else◌, map,
}
use ndn_multi_party_signatur.Ordered.{Ord, same}
use ndn_multi_party_signatur.Ordered.Set.{contains}

module _ {ℓ} {A V : Type ℓ} ⦃o : Ord A⦄ where
  -- find(key)
  unfoldable pub lookup : List (A × V) → A → Option V
  lookup [] a = none
  lookup ((k, v) ∷ m) a = if same k a then some v else lookup m a

  -- count(key) != 0
  abbrev pub has_key : List (A × V) → A → Bool
  has_key m a = elim (lookup m a) [ none ↦ false | some v ↦ true ]

  abbrev pub keys : List (A × V) → List A
  keys = map (λ e. e.0)

  pub has_key-contains : (m : List (A × V)) (a : A) → has_key m a ≡ contains (keys m) a
  unfolding lookup contains
  has_key-contains [] a = refl
  has_key-contains ((k, v) ∷ m) a = ground (arith, has_key-contains m a)
