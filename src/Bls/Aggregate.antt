-- ===== src/Bls/Aggregate.antt =====
-- src/bls-helpers.cpp: sums of keys and of signatures.
use ndn_multi_party_signatur.Prelude.{◌≡◌, refl, ap, true, List, [], ◌∷◌, map, Text, ok, ◌>>=◌}
use ndn_multi_party_signatur.Packets.{SignatureInfos, DataPackets, InterestPackets, BlsLibrary}
use ndn_multi_party_signatur.Bls.{
  verify_data, verify_data_all, gen_data_signature, add_all_keys, add_all_buffers,
  aggregate_buffers, add_all_signatures, aggregate_signatures,
}

module _ {Name Info Data Interest Secret Public Signature : Type 0} (I : SignatureInfos Name Info)
    (D : DataPackets Data Info) (T : InterestPackets Interest Info)
    (L : BlsLibrary Secret Public Signature) where
  verify-add_all :
      (m : Text) (s : Signature) (p : Public) (keys : List Secret)
      → L.verify s p m ≡ true
      → L.verify
          (add_all_signatures I D T L s (map (λ k. L.sign k m) keys))
          (add_all_keys I D T L p (map L.public_key keys))
          m
        ≡ true
  unfolding add_all_signatures add_all_keys
  verify-add_all m s p [] h = h
  verify-add_all m s p (k ∷ keys) h =
      verify-add_all m (L.add_signatures s (L.sign k m)) (L.add_keys p (L.public_key k)) keys
        (L.verify-add s (L.sign k m) p (L.public_key k) m h (L.verify-sign k m))

  add_all_buffers-map :
      (s : Signature) (ss : List Signature)
      → add_all_buffers I D T L s (map L.serialize ss) ≡ add_all_signatures I D T L s ss
  unfolding add_all_buffers add_all_signatures
  add_all_buffers-map s [] = refl
  add_all_buffers-map s (t ∷ ss) =
      rw (add_all_buffers, L.deserialize-serialize t)
        (add_all_buffers-map (L.add_signatures s t) ss)

  -- Aggregating serialized signatures is aggregating the signatures and serializing the sum; where
  -- one throws, on an empty vector, so does the other.
  pub aggregate_buffers-aggregate_signatures :
      (ss : List Signature)
      → aggregate_buffers I D T L (map L.serialize ss)
        ≡ (aggregate_signatures I D T L ss >>= λ s. ok (L.serialize s))
  unfolding aggregate_buffers aggregate_signatures
  aggregate_buffers-aggregate_signatures [] = refl
  aggregate_buffers-aggregate_signatures (s ∷ ss) =
      rw (L.deserialize-serialize s, add_all_buffers-map s ss) refl

  add_all_buffers-gen_data_signature :
      (d : Data) (s : Signature) (keys : List Secret)
      → add_all_buffers I D T L s (map (λ k. gen_data_signature I D T L k d) keys)
        ≡ add_all_signatures I D T L s (map (λ k. L.sign k (D.encode_unsigned d)) keys)
  unfolding add_all_signatures add_all_buffers gen_data_signature
  add_all_buffers-gen_data_signature d s [] = refl
  add_all_buffers-gen_data_signature d s (k ∷ keys) =
      rw
        (
          add_all_buffers,
          gen_data_signature,
          L.deserialize-serialize (L.sign k (D.encode_unsigned d)),
        )
        (add_all_buffers-gen_data_signature d (L.add_signatures s (L.sign k (D.encode_unsigned d)))
          keys)

  -- The pieces that one or more signers make over the same Data packet aggregate to a signature
  -- value, and the packet with this value is accepted under the sum of the signers' public keys.
  pub verify_data_all-aggregate_buffers :
      (k : Secret) (keys : List Secret) (d : Data)
      → (value : Text) × (aggregate_buffers I D T L
            (map (λ s. gen_data_signature I D T L s d) (k ∷ keys))
          ≡ ok value)
        × (verify_data_all I D T L (map L.public_key (k ∷ keys)) (D.set_signature_value d value)
            ≡ ok true)
  unfolding aggregate_buffers verify_data_all verify_data gen_data_signature
  verify_data_all-aggregate_buffers k keys d =
      let m = D.encode_unsigned d in
      let total = add_all_signatures I D T L (L.sign k m) (map (λ s. L.sign s m) keys) in
      let same_sum : add_all_buffers I D T L (L.deserialize (gen_data_signature I D T L k d))
            (map (λ s. gen_data_signature I D T L s d) keys)
          ≡ total =
        rw (gen_data_signature, L.deserialize-serialize (L.sign k m))
          (add_all_buffers-gen_data_signature d (L.sign k m) keys) in
      (
        L.serialize total,
        ap (λ s. ok (L.serialize s)) same_sum,
        rw
            (
              verify_data,
              D.signature_value-set,
              D.flatten-signed_ranges,
              L.deserialize-serialize,
              verify-add_all m (L.sign k m) (L.public_key k) keys (L.verify-sign k m),
            )
            refl,
      )
