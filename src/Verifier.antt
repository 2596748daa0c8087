-- ===== src/Verifier.antt =====
-- BLSVerifier of include/ndnmps/verifier.hpp and src/verifier.cpp. What the face answers to the
-- Interest for the signature info packet is a parameter; the log and the timing are left out.
pub mod Decides
use ndn_multi_party_signatur.Prelude.{
  ℕ, Bool, true, false, not, Option, List, Text, Result, ok, throws, if◌then◌else◌, ◌>>=◌,
}
use ndn_multi_party_signatur.Ndn.{NdnName}
use ndn_multi_party_signatur.Ordered.{Ord}
use ndn_multi_party_signatur.Tlv.{TlvBlock}
use ndn_multi_party_signatur.Packets.{
  SignatureInfos, DataPackets, InterestPackets, InfoPackets, BlsLibrary,
}
use ndn_multi_party_signatur.Bls.{verify_data}
use ndn_multi_party_signatur.SignerList.{MpsSignerList, empty_list, signer_list_type, wire_decode}
use ndn_multi_party_signatur.Schema.Container.{MultipartySchemaContainer, container_pass_schema}
use ndn_multi_party_signatur.Schema.AggregateKey.{aggregate_key}

-- What comes back for an Interest.
pub data Reply (Data : Type 0) : Type 0 where
  received : Data → Reply Data
  nack timed_out : Reply Data

module _ {Name Info Data Interest Secret Public Signature Block : Type 0} ⦃N : NdnName Name⦄
    ⦃o : Ord Name⦄ ⦃B : TlvBlock Block Name⦄ (I : SignatureInfos Name Info)
    (D : DataPackets Data Info) (T : InterestPackets Interest Info)
    (L : BlsLibrary Secret Public Signature) (P : InfoPackets Name Info Data Block I D B) where
  -- The first block of `verify`: the key locator is a name, and a prefix of the info packet's.
  unfoldable pub key_locator_matches : Data → Data → Bool
  key_locator_matches packet info = elim (P.key_locator_name packet) [
    | throws e ↦ false
    | ok name ↦ P.is_prefix_of name (P.packet_name info)
  ]

  -- The signer list of an info packet, as `verify` reads it.
  unfoldable pub read_signer_list : Data → Result (MpsSignerList Name)
  read_signer_list info = B.get (P.content info) signer_list_type >>= λ wire.
      if P.is_valid wire then wire_decode wire else ok empty_list

  -- BLSVerifier::verify
  unfoldable pub verify : MultipartySchemaContainer Name Public → Data → Data → Result Bool
  verify c packet info =
      if not (key_locator_matches packet info)
      then ok false
      else read_signer_list info >>= λ list.
          if not (container_pass_schema c (P.packet_name packet) list)
          then ok false
          else aggregate_key L c list >>= λ key. ok (verify_data I D T L key packet)

  -- BLSVerifier::asyncVerify: what the callback is called with.
  unfoldable pub async_verify :
      MultipartySchemaContainer Name Public → (Name → Reply Data) → Data → Result Bool
  async_verify c fetch packet = elim (P.key_locator_name packet) [
    | throws e ↦ ok false
    | ok name ↦ elim (fetch name) [
      | received info ↦ verify c packet info
      | nack ↦ ok false
      | timed_out ↦ ok false
    ]
  ]
