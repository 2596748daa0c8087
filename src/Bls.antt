-- ===== src/Bls.antt =====
-- src/bls-helpers.cpp: signing, verifying and aggregating with the BLS library.
pub mod Sign
pub mod Aggregate
pub mod Order
pub mod Certificate
use mathlib.Core.List.{flatten}
use ndn_multi_party_signatur.Prelude.{
  ℕ, Bool, true, false, not, List, [], ◌∷◌, Text, ◌==◌, if◌then◌else◌, Result, ok, throws,
  bad_signature_type, crypto_failure, out_of_bounds, ◌>>=◌,
}
use ndn_multi_party_signatur.Packets.{SignatureInfos, DataPackets, InterestPackets, BlsLibrary}

-- tlv::SignatureSha256WithBls
abbrev pub bls_signature_type : ℕ
bls_signature_type = 64

module _ {Name Info Data Interest Secret Public Signature : Type 0} (I : SignatureInfos Name Info)
    (D : DataPackets Data Info) (T : InterestPackets Interest Info)
    (L : BlsLibrary Secret Public Signature) where
  -- ndnBLSInit, with the flag HAS_BLS_INITIALIZED before and after.
  unfoldable pub init : Bool → Result Bool
  init initialized =
      if not initialized
      then (if not (L.init_error == 0) then throws crypto_failure else ok true)
      else ok initialized

  -- ndnGenBLSSignature(signingKey, dataWithInfo)
  unfoldable pub gen_data_signature : Secret → Data → Text
  gen_data_signature key data_with_info =
      L.serialize (L.sign key (D.encode_unsigned data_with_info))

  -- ndnGenBLSSignature(signingKey, data, sigInfo)
  unfoldable pub gen_data_signature_with : Secret → Data → Info → Result Text
  gen_data_signature_with key packet info =
      if not (I.signature_type info == bls_signature_type)
      then throws bad_signature_type
      else ok (gen_data_signature key (D.set_signature_info packet info))

  -- ndnGenBLSSignature(signingKey, interest)
  unfoldable pub gen_interest_signature : Secret → Interest → Text
  gen_interest_signature key interest =
      L.serialize (L.sign key (flatten (T.signed_ranges interest)))

  -- ndnGenBLSSignature(signingKey, interest, sigInfo)
  unfoldable pub gen_interest_signature_with : Secret → Interest → Info → Result Text
  gen_interest_signature_with key interest info =
      if not (I.signature_type info == bls_signature_type)
      then throws bad_signature_type
      else ok (gen_interest_signature key (T.set_signature_info interest info))

  -- ndnBLSSign(signingKey, data, sigInfo), with the packet that it leaves.
  unfoldable pub sign_data_with : Secret → Data → Info → Result Data
  sign_data_with key packet info =
      if not (I.signature_type info == bls_signature_type)
      then throws bad_signature_type
      else (let packet' = D.set_signature_info packet info in
          ok (D.set_signature_value packet' (gen_data_signature key packet')))

  -- ndnBLSSign(signingKey, data, keyLocatorName)
  unfoldable pub sign_data : Secret → Data → Name → Result Data
  sign_data key packet key_locator =
      sign_data_with key packet (I.new_info bls_signature_type key_locator)

  -- ndnBLSSign(signingKey, interest, sigInfo)
  unfoldable pub sign_interest_with : Secret → Interest → Info → Result Interest
  sign_interest_with key interest info =
      if not (I.signature_type info == bls_signature_type)
      then throws bad_signature_type
      else (let interest' = T.set_signature_info interest info in
          ok (T.set_signature_value interest' (gen_interest_signature key interest')))

  -- ndnBLSSign(signingKey, interest, keyLocatorName)
  unfoldable pub sign_interest : Secret → Interest → Name → Result Interest
  sign_interest key interest key_locator =
      sign_interest_with key interest (I.new_info bls_signature_type key_locator)

  -- ndnBLSVerify(pubKey, data)
  unfoldable pub verify_data : Public → Data → Bool
  verify_data key packet =
      L.verify (L.deserialize (D.signature_value packet)) key (flatten (D.signed_ranges packet))

  -- ndnBLSVerify(pubKey, interest)
  unfoldable pub verify_interest : Public → Interest → Bool
  verify_interest key interest =
      if not (T.is_signed interest)
      then false
      else L.verify (L.deserialize (T.signature_value interest)) key
          (flatten (T.signed_ranges interest))

  -- The loop from the second key on.
  unfoldable pub add_all_keys : Public → List Public → Public
  add_all_keys agg [] = agg
  add_all_keys agg (k ∷ ks) = add_all_keys (L.add_keys agg k) ks

  -- ndnBLSAggregatePublicKey; it reads pubKeys[0] of an empty vector too.
  unfoldable pub aggregate_public_key : List Public → Result Public
  aggregate_public_key [] = throws out_of_bounds
  aggregate_public_key (k ∷ ks) = ok (add_all_keys k ks)

  -- ndnBLSVerify(pubKeys, data), which adds the keys up in a loop of its own.
  unfoldable pub verify_data_all : List Public → Data → Result Bool
  verify_data_all [] packet = throws out_of_bounds
  verify_data_all (k ∷ ks) packet = ok (verify_data (add_all_keys k ks) packet)

  -- ndnBLSVerify(pubKeys, interest)
  unfoldable pub verify_interest_all : List Public → Interest → Result Bool
  verify_interest_all keys interest =
      aggregate_public_key keys >>= λ key. ok (verify_interest key interest)

  -- The loop from the second signature on, over serialized signatures.
  unfoldable pub add_all_buffers : Signature → List Text → Signature
  add_all_buffers agg [] = agg
  add_all_buffers agg (s ∷ ss) = add_all_buffers (L.add_signatures agg (L.deserialize s)) ss

  -- ndnBLSAggregateSignature(std::vector<Buffer>)
  unfoldable pub aggregate_buffers : List Text → Result Text
  aggregate_buffers [] = throws out_of_bounds
  aggregate_buffers (s ∷ ss) = ok (L.serialize (add_all_buffers (L.deserialize s) ss))

  -- The loop from the second signature on.
  unfoldable pub add_all_signatures : Signature → List Signature → Signature
  add_all_signatures agg [] = agg
  add_all_signatures agg (s ∷ ss) = add_all_signatures (L.add_signatures agg s) ss

  -- ndnBLSAggregateSignature(std::vector<BLSSignature>)
  unfoldable pub aggregate_signatures : List Signature → Result Signature
  aggregate_signatures [] = throws out_of_bounds
  aggregate_signatures (s ∷ ss) = ok (add_all_signatures s ss)
