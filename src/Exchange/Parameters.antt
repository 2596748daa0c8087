-- ===== src/Exchange/Parameters.antt =====
-- The sign request and the parameter packet, which the initiator makes and the signer reads.
use ndn_multi_party_signatur.Prelude.{ℕ, ◌≡◌, refl, ◌∙◌, [], ◌∷◌, Text, length, ok}
use ndn_multi_party_signatur.Ndn.{NdnName}
use ndn_multi_party_signatur.Tlv.{find_element}
use ndn_multi_party_signatur.Packets.{content_type}
use ndn_multi_party_signatur.Messages.{Services, application_parameters_type}
use ndn_multi_party_signatur.Crypto.{encode_block_with_aes_gcm128}
use ndn_multi_party_signatur.Crypto.Seal.{encode_block-Encoded, decode_block-encode_block}
use ndn_multi_party_signatur.Protocol.{parameter_data_name_type, ecdh_pub_type}
use ndn_multi_party_signatur.Signer.{parse_sign_request_payload, parse_parameter_data}
use ndn_multi_party_signatur.Initiator.Rpc.{prepare_sign_request_interest, prepare_parameter_data}

module _
    {Name Info Data Interest Secret Public Signature Block Ctx Pkey EcKey Group Point Tpm : Type 0}
    (w : Services Name Info Data Interest Secret Public Signature Block Ctx Pkey EcKey Group Point
      Tpm)
    ⦃N : NdnName Name⦄ where
  -- What the signer reads from a sign request that the initiator has signed: the name of the
  -- parameter packet and the initiator's public key.
  pub parse-prepare_sign_request :
      (signer_prefix para_data_name signing_key_name : Name) (self_pub : Text)
      → parse_sign_request_payload w (
          w.parts.make_signed_interest
            (prepare_sign_request_interest w signer_prefix para_data_name self_pub)
            signing_key_name)
        ≡ ok (para_data_name, self_pub)
  unfolding parse_sign_request_payload prepare_sign_request_interest find_element
  parse-prepare_sign_request signer_prefix para_data_name signing_key_name self_pub =
      let blocks = w.blocks in
      let n = blocks.nested_block parameter_data_name_type para_data_name in
      let k = blocks.binary_block ecdh_pub_type self_pub in
      let start = blocks.new_block application_parameters_type in
      let content = blocks.push_back (blocks.push_back start n) k in
      let held : blocks.elements (blocks.encode content) ≡ ok (n ∷ k ∷ []) =
        blocks.elements-encode content
        ∙ blocks.elements-push_back (blocks.push_back start n) k (n ∷ []) (
            blocks.elements-push_back start n []
              (blocks.elements-new_block application_parameters_type)) in
      let kind : blocks.type (blocks.encode content) ≡ application_parameters_type =
        rw (blocks.type-encode, blocks.type-push_back, blocks.type-push_back, blocks.type-new_block)
          refl in
      let get_name : blocks.get (blocks.encode content) parameter_data_name_type ≡ ok n =
        rw
          (
            blocks.get-elements,
            held,
            blocks.type-nested_block parameter_data_name_type para_data_name,
          )
          refl in
      let get_key : blocks.get (blocks.encode content) ecdh_pub_type ≡ ok k =
        rw
          (
            blocks.get-elements,
            held,
            blocks.type-nested_block parameter_data_name_type para_data_name,
            blocks.type-binary_block ecdh_pub_type self_pub,
          )
          refl in
      rw
        (
          parse_sign_request_payload,
          w.parts.application_parameters-sign,
          w.parts.application_parameters-set,
          kind,
          get_name,
          blocks.block_from_value-nested_block parameter_data_name_type para_data_name,
          blocks.name_decode-name_encode para_data_name,
          get_key,
          blocks.value-binary_block ecdh_pub_type self_pub,
        )
        refl

  -- The parameter packet that the initiator encrypts with a key, and signs, gives the packet to be
  -- signed to a signer who decrypts it with the same key.
  pub parse_parameter_data-prepare :
      (randomness : ℕ) (to_be_signed : Data) (prefix : Name) (tpm : Tpm)
      (aes_key hmac_key random_bytes : Text) (encrypted : Block)
      → length random_bytes ≡ 8
      → encode_block_with_aes_gcm128 w.blocks w.cipher content_type aes_key
          (w.blocks.value
            (w.info_packets.content (prepare_parameter_data w randomness to_be_signed prefix)))
          []
          random_bytes
        ≡ ok encrypted
      → parse_parameter_data w
          (w.parts.hmac_sign tpm hmac_key (
            w.info_packets.set_content
              (prepare_parameter_data w randomness to_be_signed prefix)
              encrypted)).1
          aes_key
        ≡ ok to_be_signed
  unfolding parse_parameter_data prepare_parameter_data
  parse_parameter_data-prepare randomness to_be_signed prefix tpm aes_key hmac_key random_bytes
        encrypted len h =
      let para = prepare_parameter_data w randomness to_be_signed prefix in
      let bytes = w.blocks.value (w.info_packets.content para) in
      let k =
        encode_block-Encoded w.blocks w.cipher content_type aes_key bytes [] random_bytes encrypted
          len h in
      rw
        (
          parse_parameter_data,
          w.parts.content-hmac_sign,
          w.info_packets.content-set_content para encrypted k.type_of,
          decode_block-encode_block w.blocks w.cipher content_type aes_key bytes [] random_bytes
              encrypted len h,
          w.wires.block_of_bytes-wire,
          w.wires.of_wire-wire,
        )
        refl
