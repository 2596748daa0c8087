-- ===== src/Bls/Order.antt =====
-- src/bls-helpers.cpp: the order in which keys are added up.
use mathlib.Core.List.{Permᴰ}
use ndn_multi_party_signatur.Prelude.{◌≡◌, refl, sym, ◌∙◌, ap, List, ok}
use ndn_multi_party_signatur.Packets.{SignatureInfos, DataPackets, InterestPackets, BlsLibrary}
use ndn_multi_party_signatur.Bls.{add_all_keys, aggregate_public_key}

module _ {Name Info Data Interest Secret Public Signature : Type 0} (I : SignatureInfos Name Info)
    (D : DataPackets Data Info) (T : InterestPackets Interest Info)
    (L : BlsLibrary Secret Public Signature) where
  add_keys_swap :
      (agg a b : Public) → L.add_keys (L.add_keys agg a) b ≡ L.add_keys (L.add_keys agg b) a
  add_keys_swap agg a b =
      L.add_keys_assoc agg a b
      ∙ ap (L.add_keys agg) (L.add_keys_comm a b)
      ∙ sym (L.add_keys_assoc agg b a)

  add_all_keys-Permᴰ :
      {xs ys : List Public}
      → Permᴰ xs ys
      → (agg : Public) → add_all_keys I D T L agg xs ≡ add_all_keys I D T L agg ys
  unfolding add_all_keys
  add_all_keys-Permᴰ Permᴰ.nil agg = refl
  add_all_keys-Permᴰ (Permᴰ.cons {l₁ = l₁} {l₂ = l₂} e p) agg =
      rw e (add_all_keys-Permᴰ p (L.add_keys agg _))
  add_all_keys-Permᴰ (Permᴰ.swap {a = a} {b = b} {l = l} e f) agg =
      rw (← e, ← f) (ap (λ z. add_all_keys I D T L z l) (add_keys_swap agg a b))
  add_all_keys-Permᴰ (Permᴰ.trans p q) agg = add_all_keys-Permᴰ p agg ∙ add_all_keys-Permᴰ q agg

  -- `ndnBLSAggregatePublicKey` gives the same key, or throws alike, for the same keys in another
  -- order.
  pub aggregate_public_key-Permᴰ :
      {xs ys : List Public}
      → Permᴰ xs ys
      → aggregate_public_key I D T L xs ≡ aggregate_public_key I D T L ys
  unfolding aggregate_public_key add_all_keys
  aggregate_public_key-Permᴰ Permᴰ.nil = refl
  aggregate_public_key-Permᴰ (Permᴰ.cons e p) = rw e (ap ok (add_all_keys-Permᴰ p _))
  aggregate_public_key-Permᴰ (Permᴰ.swap {a = a} {b = b} {l = l} e f) =
      rw (← e, ← f) (ap (λ z. ok (add_all_keys I D T L z l)) (L.add_keys_comm a b))
  aggregate_public_key-Permᴰ (Permᴰ.trans p q) =
      aggregate_public_key-Permᴰ p ∙ aggregate_public_key-Permᴰ q
