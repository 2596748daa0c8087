-- ===== src/Bls/Certificate.antt =====
-- genSelfSignedCertificate of src/bls-helpers.cpp. Certificates are ndn-cxx's, and are Data packets.
use ndn_multi_party_signatur.Prelude.{ℕ, ◌≡◌, refl, ◌∙◌, true, Text, codes, Result, ok}
use ndn_multi_party_signatur.Ndn.{NdnName}
use ndn_multi_party_signatur.Packets.{SignatureInfos, DataPackets, InterestPackets, BlsLibrary}
use ndn_multi_party_signatur.Bls.{
  bls_signature_type, sign_data_with, verify_data, gen_data_signature,
}
use ndn_multi_party_signatur.Bls.Sign.{verify_data-set}

pub record Certificates (Name Info Data Public Period : Type 0) (I : SignatureInfos Name Info)
    : Type 0 where
  -- Certificate() with setName, setContentType(ContentType_Key), setContent(bytes)
  pub new_certificate : Name → Data
  pub set_key_type : Data → Data
  pub set_bytes : Data → Text → Data
  -- setValidityPeriod, blsPublicKeySerialize, std::to_string
  pub set_validity_period : Info → Period → Info
  pub serialize_key : Public → Text
  pub number_text : ℕ → Text
  pub signature_type-set_validity_period :
      (i : Info) (period : Period)
      → I.signature_type (set_validity_period i period) ≡ I.signature_type i

module _ {Name Info Data Interest Secret Public Signature Period : Type 0} ⦃N : NdnName Name⦄
    (I : SignatureInfos Name Info) (D : DataPackets Data Info) (T : InterestPackets Interest Info)
    (L : BlsLibrary Secret Public Signature) (C : Certificates Name Info Data Public Period I) where
  -- genSelfSignedCertificate, with the random number of its name.
  unfoldable pub gen_self_signed_certificate : ℕ → Name → Public → Secret → Period → Result Data
  gen_self_signed_certificate randomness key_name pub_key signing_key period =
      let cert_name =
        N.append_text (N.append_text key_name (codes "self")) (C.number_text randomness) in
      let new_cert =
        C.set_bytes (C.set_key_type (C.new_certificate cert_name)) (C.serialize_key pub_key) in
      let signature_info = C.set_validity_period (I.new_info bls_signature_type key_name) period in
      sign_data_with I D T L signing_key new_cert signature_info

  -- A certificate is made for every key, and its own key verifies it.
  pub gen_self_signed_certificate-verify_data :
      (randomness : ℕ) (key_name : Name) (signing_key : Secret) (period : Period)
      → (cert : Data) × (gen_self_signed_certificate randomness key_name
            (L.public_key signing_key)
            signing_key
            period
          ≡ ok cert)
        × (verify_data I D T L (L.public_key signing_key) cert ≡ true)
  unfolding gen_self_signed_certificate sign_data_with
  gen_self_signed_certificate-verify_data randomness key_name signing_key period =
      let info = C.set_validity_period (I.new_info bls_signature_type key_name) period in
      let cert_name =
        N.append_text (N.append_text key_name (codes "self")) (C.number_text randomness) in
      let cert =
        D.set_signature_info
          (C.set_bytes (C.set_key_type (C.new_certificate cert_name))
            (C.serialize_key (L.public_key signing_key)))
          info in
      let kind : I.signature_type info ≡ bls_signature_type =
        C.signature_type-set_validity_period (I.new_info bls_signature_type key_name) period
        ∙ I.signature_type-new_info bls_signature_type key_name in
      (
        D.set_signature_value cert (gen_data_signature I D T L signing_key cert),
        rw kind refl,
        verify_data-set I D T L signing_key cert,
      )
