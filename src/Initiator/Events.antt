-- ===== src/Initiator/Events.antt =====
-- The pieces and the losses of signers that the initiator hears of, in any order.
pub mod Answers
pub mod Ends
use ndn_multi_party_signatur.Prelude.{
  ℕ, ◌≡◌, Bool, true, false, not, ◌&&◌, ◌||◌, none, List, [], ◌∷◌, ◌++◌, Text, ok,
}
use ndn_multi_party_signatur.Ndn.{NdnName}
use ndn_multi_party_signatur.Ordered.{Ord, same}
use ndn_multi_party_signatur.Ordered.Set.{contains}
use ndn_multi_party_signatur.Tlv.{TlvBlock}
use ndn_multi_party_signatur.Packets.{
  SignatureInfos, DataPackets, InterestPackets, InfoPackets, BlsLibrary,
}
use ndn_multi_party_signatur.Bls.{gen_data_signature}
use ndn_multi_party_signatur.Schema.Container.{MultipartySchemaContainer}
use ndn_multi_party_signatur.Initiator.{MultiSignGlobalState, on_signature, on_unavailable_signer}

module _ {Name Info Data Interest Secret Public Signature Block : Type 0} ⦃N : NdnName Name⦄
    ⦃o : Ord Name⦄ ⦃B : TlvBlock Block Name⦄ (I : SignatureInfos Name Info)
    (D : DataPackets Data Info) (T : InterestPackets Interest Info)
    (L : BlsLibrary Secret Public Signature) (P : InfoPackets Name Info Data Block I D B)
    (secret : Name → Secret) where
  -- The piece of a signer for the packet of a state.
  abbrev pub piece_of : MultiSignGlobalState Name Data → Name → Text
  piece_of g k = gen_data_signature I D T L (secret k) g.to_be_signed

  -- What the initiator comes to from a container and a state: the container, the state, the signers
  -- that have answered, in the order of their answers, and those whose request is still open. A
  -- signer with an open request answers with its piece, or is lost, and then the signers that
  -- replace it are asked. One that nothing replaces is kept among the open ones.
  pub data Reached (c0 : MultipartySchemaContainer Name Public)
      (g0 : MultiSignGlobalState Name Data)
      : MultipartySchemaContainer Name Public
        → MultiSignGlobalState Name Data
        → List Name
        → (Name → Bool)
        → Type 0 where
    begin_ : Reached c0 g0 c0 g0 [] (contains g0.signers.signers)
    answer :
        {c : MultipartySchemaContainer Name Public} {g : MultiSignGlobalState Name Data}
        {answered : List Name} {open_ : Name → Bool} (k : Name)
        (g' : MultiSignGlobalState Name Data)
        → Reached c0 g0 c g answered open_
        → open_ k ≡ true
        → on_signature I D T L P g (piece_of g k) ≡ ok (g', none)
        → Reached c0 g0 c g' (answered ++ k ∷ []) (λ j. open_ j && not (same k j))
    loss :
        {c : MultipartySchemaContainer Name Public} {g : MultiSignGlobalState Name Data}
        {answered : List Name} {open_ : Name → Bool} (k : Name)
        → Reached c0 g0 c g answered open_
        → open_ k ≡ true
        → (on_unavailable_signer c g k).3 ≡ false
        → Reached c0 g0
            (on_unavailable_signer c g k).0
            (on_unavailable_signer c g k).1
            answered
            (λ j. (open_ j && not (same k j)) || contains (on_unavailable_signer c g k).2 j)
    failure :
        {c : MultipartySchemaContainer Name Public} {g : MultiSignGlobalState Name Data}
        {answered : List Name} {open_ : Name → Bool} (k : Name)
        → Reached c0 g0 c g answered open_
        → open_ k ≡ true
        → (on_unavailable_signer c g k).3 ≡ true
        → Reached c0 g0
            (on_unavailable_signer c g k).0
            (on_unavailable_signer c g k).1
            answered
            open_
