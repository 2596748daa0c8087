-- ===== src/Messages.antt =====
-- What the signing protocol uses of ndn-cxx beside packets and blocks, and all that the players use
-- together. ndn-cxx is not part of the repository: these are parameters of the model.
use ndn_multi_party_signatur.Prelude.{ℕ, ◌≡◌, Bool, true, false, Text}
use ndn_multi_party_signatur.Tlv.{TlvBlock}
use ndn_multi_party_signatur.Packets.{
  SignatureInfos, DataPackets, InterestPackets, InfoPackets, DataWires, BlsLibrary,
}
use ndn_multi_party_signatur.OpenSsl.{GcmCipher, EcKeys, KeyDerivation}

-- tlv::ApplicationParameters
abbrev pub application_parameters_type : ℕ
application_parameters_type = 36

pub record MessageParts (Name Info Data Interest Block Tpm : Type 0) (I : SignatureInfos Name Info)
    (D : DataPackets Data Info) (B : TlvBlock Block Name)
    (P : InfoPackets Name Info Data Block I D B) : Type 0 where
  -- appendVersion(n), getPrefix(-n)
  pub append_version : Name → ℕ → Name
  pub prefix_without : ℕ → Name → Name
  -- getSignerName() of signing info with an HMAC key: a name with the digest of the key
  pub hmac_name : Text → Name
  -- Tpm::hasKey(name), for the TPM of a key chain
  pub has_key : Tpm → Name → Bool
  -- KeyChain::sign with signing info of an HMAC key: the TPM, into which the key is imported when it
  -- is not there, and the signed packet
  pub hmac_sign : Tpm → Text → Data → Tpm × Data
  -- verifySignature(data, tpm, name, SHA256), which looks the key up in the TPM
  pub hmac_verify : Tpm → Name → Data → Bool
  -- Interest(name), getName(), setApplicationParameters, getApplicationParameters,
  -- isParametersDigestValid, and InterestSigner::makeSignedInterest with the key of a name
  pub new_interest : Name → Interest
  pub interest_name : Interest → Name
  pub set_application_parameters : Interest → Block → Interest
  pub application_parameters : Interest → Block
  pub is_parameters_digest_valid : Interest → Bool
  pub make_signed_interest : Interest → Name → Interest
  pub hmac_verify-missing :
      (t : Tpm) (n : Name) (d : Data) → has_key t n ≡ false → hmac_verify t n d ≡ false
  pub hmac_verify-hmac_sign :
      (t u : Tpm) (k : Text) (d : Data)
      → has_key u (hmac_name k) ≡ true
      → hmac_verify u (hmac_name k) (hmac_sign t k d).1 ≡ true
  pub has_key-hmac_sign :
      (t : Tpm) (k : Text) (d : Data) → has_key (hmac_sign t k d).0 (hmac_name k) ≡ true
  pub content-hmac_sign :
      (t : Tpm) (k : Text) (d : Data) → P.content (hmac_sign t k d).1 ≡ P.content d
  pub application_parameters-set :
      (i : Interest) (b : Block)
      → B.type b ≡ application_parameters_type
      → application_parameters (set_application_parameters i b) ≡ b
  pub application_parameters-sign :
      (i : Interest) (n : Name)
      → application_parameters (make_signed_interest i n) ≡ application_parameters i

-- All that the signer and the initiator use of other libraries.
pub record Services
    (Name Info Data Interest Secret Public Signature Block Ctx Pkey EcKey Group Point Tpm : Type 0)
    : Type 0 where
  pub infos : SignatureInfos Name Info
  pub packets : DataPackets Data Info
  pub interests : InterestPackets Interest Info
  pub bls : BlsLibrary Secret Public Signature
  pub blocks : TlvBlock Block Name
  pub info_packets : InfoPackets Name Info Data Block infos packets blocks
  pub wires : DataWires Name Info Data Block infos packets blocks info_packets
  pub parts : MessageParts Name Info Data Interest Block Tpm infos packets blocks info_packets
  pub cipher : GcmCipher Ctx
  pub keys : EcKeys Pkey EcKey Group Point
  pub derivation : KeyDerivation
