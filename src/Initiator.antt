-- ===== src/Initiator.antt =====
-- MPSInitiator of include/ndnmps/initiator.hpp and src/initiator.cpp: how a multi-party signature
-- starts and how it ends. The random number of the key locator is an argument.
pub mod Rpc
pub mod Finish
pub mod Deliver
pub mod Unavailable
pub mod Events
use ndn_multi_party_signatur.Prelude.{
  codes, ℕ, Bool, true, false, Option, none, some, List, [], ◌∷◌, ◌++◌, ◌==◌, length, Text, Result,
  ok, throws, if◌then◌else◌, ◌>>=◌,
}
use ndn_multi_party_signatur.Ndn.{NdnName}
use ndn_multi_party_signatur.Ordered.{Ord}
use ndn_multi_party_signatur.Tlv.{TlvBlock}
use ndn_multi_party_signatur.Packets.{
  SignatureInfos, DataPackets, InterestPackets, InfoPackets, BlsLibrary,
}
use ndn_multi_party_signatur.Bls.{aggregate_buffers, bls_signature_type}
use ndn_multi_party_signatur.SignerList.{MpsSignerList, wire_encode}
use ndn_multi_party_signatur.Schema.Policy.{MultipartySchema}
use ndn_multi_party_signatur.Schema.Replacement.{replace_signer}
use ndn_multi_party_signatur.Schema.Container.{MultipartySchemaContainer, get_available_signers}

-- MultiSignGlobalState, without the two callbacks
pub record MultiSignGlobalState (Name Data : Type 0) : Type 0 where
  pub signers : MpsSignerList Name
  pub schema : MultipartySchema Name
  pub to_be_signed : Data
  pub sign_info : Data
  pub fetched_signatures : List Text
  pub signing_key_name : Name

module _ {Name Info Data Interest Secret Public Signature Block : Type 0} ⦃N : NdnName Name⦄
    ⦃o : Ord Name⦄ ⦃B : TlvBlock Block Name⦄ (I : SignatureInfos Name Info)
    (D : DataPackets Data Info) (T : InterestPackets Interest Info)
    (L : BlsLibrary Secret Public Signature) (P : InfoPackets Name Info Data Block I D B) where
  -- prepareUnfinishedDataAndInfoData
  unfoldable pub prepare_unfinished_data_and_info_data : ℕ → Data → Name → Data × Data
  prepare_unfinished_data_and_info_data randomness unsigned prefix =
      let key_locator = P.append_number (N.append_text prefix (codes "mps")) randomness in
      (
        D.set_signature_value
            (D.set_signature_info unsigned (I.new_info bls_signature_type key_locator)) [],
        P.new_data key_locator,
      )

  -- multiPartySign up to the requests to the signers: whether it calls the failure callback, which
  -- does not end the call, and the state that it makes.
  unfoldable pub start :
      MultipartySchemaContainer Name Public
      → ℕ
      → Name
      → Data
      → MultipartySchema Name
      → Name
      → Result (Bool × MultiSignGlobalState Name Data)
  start c randomness prefix unsigned schema signing_key_name =
      get_available_signers c schema >>= λ signers.
      let packets = prepare_unfinished_data_and_info_data randomness unsigned prefix in
      ok (
        length signers.signers == 0,
        record {
          signers = signers;
          schema = schema;
          to_be_signed = packets.0;
          sign_info = packets.1;
          fetched_signatures = [];
          signing_key_name = signing_key_name;
        },
      )

  -- The end of a signature: the packets that the success callback is called with.
  unfoldable pub finish : MultiSignGlobalState Name Data → Result (Data × Data)
  finish g = aggregate_buffers I D T L g.fetched_signatures >>= λ value. ok (
    D.set_signature_value g.to_be_signed value,
    P.key_chain_sign (P.set_content g.sign_info (wire_encode g.signers)) g.signing_key_name,
  )

  -- The handler of a result with status 200: the piece is kept, and the last one ends the signature.
  unfoldable pub on_signature :
      MultiSignGlobalState Name Data
      → Text
      → Result (MultiSignGlobalState Name Data × Option (Data × Data))
  on_signature g piece =
      let g' = record g { fetched_signatures = g.fetched_signatures ++ piece ∷ [] } in
      if length g'.fetched_signatures == length g.signers.signers
      then (finish g' >>= λ packets.
          ok (record g' { to_be_signed = packets.0; sign_info = packets.1 }, some packets))
      else ok (g', none)

  -- Pieces that arrive one after the other, up to the first end of the signature.
  unfoldable pub deliver :
      MultiSignGlobalState Name Data → List Text → Result (Option (Data × Data))
  deliver g [] = ok none
  deliver g (piece ∷ pieces) = on_signature g piece >>= λ (g', packets). elim packets [
    | some p ↦ ok (some p)
    | none ↦ deliver g' pieces
  ]

module _ {Name Data Key : Type 0} ⦃N : NdnName Name⦄ ⦃o : Ord Name⦄ where
  -- onUnavailableSigner: the container and the state that it leaves, the signers that are asked next,
  -- and whether it calls the failure callback.
  unfoldable pub on_unavailable_signer :
      MultipartySchemaContainer Name Key
      → MultiSignGlobalState Name Data
      → Name
      → MultipartySchemaContainer Name Key × MultiSignGlobalState Name Data × List Name × Bool
  on_unavailable_signer c g unavailable =
      let (c', new_signers, diff_signers) = replace_signer c g.signers unavailable g.schema in
      if length new_signers.signers == 0
      then (c', g, [], true)
      else (c', record g { signers = new_signers }, diff_signers, false)
