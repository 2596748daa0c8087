-- ===== src/Initiator/Finish.antt =====
-- The end of a multi-party signature: the pieces of all signers make a packet that a verifier takes.
use mathlib.Core.List.{Permᴰ}
use ndn_multi_party_signatur.Prelude.{
  ◌≡◌, refl, sym, ap, ◌∙◌, true, some, List, [], ◌∷◌, map, ok, arith,
}
use ndn_multi_party_signatur.Ndn.{NdnName}
use ndn_multi_party_signatur.Ordered.{Ord}
use ndn_multi_party_signatur.Ordered.Map.{lookup}
use ndn_multi_party_signatur.Ordered.Set.Perm.{length-Permᴰ}
use ndn_multi_party_signatur.Tlv.{TlvBlock, find_element-first}
use ndn_multi_party_signatur.Packets.{
  SignatureInfos, DataPackets, InterestPackets, InfoPackets, BlsLibrary,
}
use ndn_multi_party_signatur.Bls.{
  gen_data_signature, verify_data, add_all_keys, aggregate_public_key, verify_data_all,
}
use ndn_multi_party_signatur.Bls.Aggregate.{verify_data_all-aggregate_buffers}
use ndn_multi_party_signatur.Bls.Order.{aggregate_public_key-Permᴰ}
use ndn_multi_party_signatur.SignerList.{MpsSignerList, wire_encode, signer_list_type, push_names}
use ndn_multi_party_signatur.SignerList.Laws.{type-wire_encode, wire_decode-wire_encode}
use ndn_multi_party_signatur.Schema.Container.{MultipartySchemaContainer, container_pass_schema}
use ndn_multi_party_signatur.Schema.AggregateKey.{aggregate_key, aggregate_key-aggregate_public_key}
use ndn_multi_party_signatur.Verifier.{key_locator_matches, read_signer_list, verify}
use ndn_multi_party_signatur.Verifier.Decides.{verify-verify_data}
use ndn_multi_party_signatur.Initiator.{MultiSignGlobalState, finish}

module _ {Name Info Data Interest Secret Public Signature Block : Type 0} ⦃N : NdnName Name⦄
    ⦃o : Ord Name⦄ ⦃B : TlvBlock Block Name⦄ (I : SignatureInfos Name Info)
    (D : DataPackets Data Info) (T : InterestPackets Interest Info)
    (L : BlsLibrary Secret Public Signature) (P : InfoPackets Name Info Data Block I D B) where
  get_signer_list :
      (d : Data) (b : Block)
      → B.type b ≡ signer_list_type
      → B.get (P.content (P.set_content d b)) signer_list_type ≡ ok b
  get_signer_list d b h =
      rw (B.get-elements, P.elements-set_content d b (λ e. ground (arith, h, e)))
        (find_element-first B.type signer_list_type b [] h)

  -- The signer list that the initiator puts in the info packet is the one that a verifier reads.
  read_signer_list-finish :
      (d : Data) (list : MpsSignerList Name) (key : Name)
      → read_signer_list I D T L P (P.key_chain_sign (P.set_content d (wire_encode list)) key)
        ≡ ok list
  unfolding read_signer_list wire_encode
  read_signer_list-finish d list key =
      let info = P.set_content d (wire_encode list) in
      rw
        (
          read_signer_list,
          P.content-sign info key,
          get_signer_list d (wire_encode list) (type-wire_encode Block list),
          P.is_valid-encode (push_names (B.new_block signer_list_type) list.signers),
        )
        (wire_decode-wire_encode Block list)

  -- The key of a container for a list, and the sum of the same keys in another order.
  aggregate_key-Permᴰ :
      (c : MultipartySchemaContainer Name Public) (list : MpsSignerList Name) (k : Public)
      (ks pubs : List Public)
      → map (lookup c.trusted_ids) list.signers ≡ map some pubs
      → Permᴰ (k ∷ ks) pubs
      → aggregate_key L c list ≡ ok (add_all_keys I D T L k ks)
  unfolding aggregate_public_key
  aggregate_key-Permᴰ c list k ks [] h p = ground (arith, length-Permᴰ p)
  aggregate_key-Permᴰ c list k ks (q ∷ pubs) h p =
      aggregate_key-aggregate_public_key I D T L c list q pubs h
      ∙ sym (aggregate_public_key-Permᴰ I D T L p)

  -- What ends a signature is accepted: where a state's packets belong together, its pieces are those
  -- of the signers' keys over its packet in any order, and the verifier's container has these keys
  -- and passes the list, `verify` returns true.
  pub finish-verify :
      (c : MultipartySchemaContainer Name Public) (g : MultiSignGlobalState Name Data) (k : Secret)
      (ks : List Secret) (pubs : List Public)
      → P.key_locator_name g.to_be_signed ≡ ok (P.packet_name g.sign_info)
      → container_pass_schema c (P.packet_name g.to_be_signed) g.signers ≡ true
      → map (lookup c.trusted_ids) g.signers.signers ≡ map some pubs
      → Permᴰ (map L.public_key (k ∷ ks)) pubs
      → g.fetched_signatures ≡ map (λ s. gen_data_signature I D T L s g.to_be_signed) (k ∷ ks)
      → (packet : Data) × (info : Data) × (finish I D T L P g ≡ ok (packet, info))
        × (verify I D T L P c packet info ≡ ok true)
  unfolding finish verify_data_all key_locator_matches
  finish-verify c g k ks pubs located passes held p pieces =
      let (value, made, good) = verify_data_all-aggregate_buffers I D T L k ks g.to_be_signed in
      let packet = D.set_signature_value g.to_be_signed value in
      let filled = P.set_content g.sign_info (wire_encode g.signers) in
      let info = P.key_chain_sign filled g.signing_key_name in
      let agg = add_all_keys I D T L (L.public_key k) (map L.public_key ks) in
      let signed : verify_data I D T L agg packet ≡ true = cc in
      let same_name : P.packet_name info ≡ P.packet_name g.sign_info =
        P.packet_name-sign filled g.signing_key_name
        ∙ P.packet_name-set_content g.sign_info (wire_encode g.signers) in
      let matches : key_locator_matches I D T L P packet info ≡ true =
        rw
          (
            key_locator_matches,
            P.key_locator_name-set_value g.to_be_signed value,
            located,
            same_name,
          )
          (P.is_prefix_of_refl (P.packet_name g.sign_info)) in
      (
        packet,
        info,
        (rw (pieces, made) refl),
        verify-verify_data I D T L P c packet info g.signers agg matches
              (read_signer_list-finish g.sign_info g.signers g.signing_key_name)
              (rw (P.packet_name-set_value g.to_be_signed value) passes)
              (aggregate_key-Permᴰ c g.signers (L.public_key k) (map L.public_key ks) pubs held p)
            ∙ ap ok signed,
      )
