-- ===== src/Bls/Sign.antt =====
-- src/bls-helpers.cpp: a packet that a key signs, and the public key of that key.
use ndn_multi_party_signatur.Prelude.{◌≡◌, refl, true, ok}
use ndn_multi_party_signatur.Packets.{SignatureInfos, DataPackets, InterestPackets, BlsLibrary}
use ndn_multi_party_signatur.Bls.{
  bls_signature_type, sign_data_with, sign_data, sign_interest_with, sign_interest, verify_data,
  verify_interest, gen_data_signature, gen_interest_signature,
}

module _ {Name Info Data Interest Secret Public Signature : Type 0} (I : SignatureInfos Name Info)
    (D : DataPackets Data Info) (T : InterestPackets Interest Info)
    (L : BlsLibrary Secret Public Signature) where
  pub verify_data-set :
      (key : Secret) (d : Data)
      → verify_data I D T L
          (L.public_key key)
          (D.set_signature_value d (gen_data_signature I D T L key d))
        ≡ true
  unfolding verify_data gen_data_signature
  verify_data-set key d =
      rw
        (
          verify_data, D.signature_value-set, D.flatten-signed_ranges, L.deserialize-serialize,
          L.verify-sign,
        )
        refl

  -- Signing a Data packet with a key, under any key locator, throws nothing, and `ndnBLSVerify`
  -- accepts the signed packet under the key's public key.
  pub sign_data-verify_data :
      (key : Secret) (d : Data) (n : Name)
      → (signed : Data) × (sign_data I D T L key d n ≡ ok signed)
        × (verify_data I D T L (L.public_key key) signed ≡ true)
  unfolding sign_data sign_data_with
  sign_data-verify_data key d n =
      let d' = D.set_signature_info d (I.new_info bls_signature_type n) in
      (
        D.set_signature_value d' (gen_data_signature I D T L key d'),
        rw (I.signature_type-new_info bls_signature_type n) refl,
        verify_data-set key d',
      )

  -- Signing an Interest with a key, under any key locator, throws nothing, and `ndnBLSVerify`
  -- accepts the signed Interest under the key's public key.
  pub sign_interest-verify_interest :
      (key : Secret) (i : Interest) (n : Name)
      → (signed : Interest) × (sign_interest I D T L key i n ≡ ok signed)
        × (verify_interest I D T L (L.public_key key) signed ≡ true)
  unfolding sign_interest sign_interest_with verify_interest gen_interest_signature
  sign_interest-verify_interest key i n =
      let info = I.new_info bls_signature_type n in
      let i' = T.set_signature_info i info in
      let value = gen_interest_signature I D T L key i' in
      (
        T.set_signature_value i' value,
        rw (I.signature_type-new_info bls_signature_type n) refl,
        rw
            (
              verify_interest,
              T.is_signed-set i info value,
              T.signature_value-set i' value,
              T.signed_ranges-set i' value,
              gen_interest_signature,
              L.deserialize-serialize,
              L.verify-sign,
            )
            refl,
      )
