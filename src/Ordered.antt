-- ===== src/Ordered.antt =====
-- The order by which `std::set` and `std::map` keep their keys, as an interface: `operator<` of the
-- key type, with the laws that the standard asks of it. Keys that are equivalent under the order
-- are equal, as for `ndn::Name`, whose operator< is the canonical order of names.
pub mod Set
pub mod Map
pub mod Sort
use ndn_multi_party_signatur.Prelude.{◌≡◌, refl, ◌↔◌, Bool, true, false, not, ◌&&◌, arith}

pub record Ord {ℓ} (A : Type ℓ) : Type ℓ where
  pub lt : A → A → Bool
  pub lt_irrefl : (a : A) → lt a a ≡ false
  pub lt_trans : (a b c : A) → lt a b ≡ true → lt b c ≡ true → lt a c ≡ true
  pub lt_connected : (a b : A) → lt a b ≡ false → lt b a ≡ false → a ≡ b

module _ {ℓ} {A : Type ℓ} ⦃o : Ord A⦄ where
  -- Equivalence of keys: neither comes before the other.
  unfoldable pub same : A → A → Bool
  same a b = not (o.lt a b) && not (o.lt b a)

  pub same_refl : (a : A) → same a a ≡ true
  unfolding same
  same_refl a = rw (o.lt_irrefl a)

  pub eq_of_same : (a b : A) → same a b ≡ true → a ≡ b
  unfolding same
  eq_of_same a b h = ground (arith, o.lt_connected a b)

  pub same_symm : (a b : A) → same a b ≡ same b a
  unfolding same
  same_symm a b = ground arith

  pub lt_asymm : (a b : A) → o.lt a b ≡ true → o.lt b a ≡ false
  lt_asymm a b h = ground (arith, o.lt_trans a b a, o.lt_irrefl a)
