-- ===== src/Exchange/Payload.antt =====
-- The payload of a result, which the signer encrypts, and what the initiator makes of it.
use ndn_multi_party_signatur.Prelude.{
  ℕ, ◌+◌, ◌<◌, ◌^◌, ◌≡◌, refl, true, false, [], ◌∷◌, Text, text_eq, ok,
}
use ndn_multi_party_signatur.Ndn.{NdnName}
use ndn_multi_party_signatur.Tlv.{find_element}
use ndn_multi_party_signatur.Packets.{content_type}
use ndn_multi_party_signatur.Messages.{Services}
use ndn_multi_party_signatur.Crypto.{decode_block_with_aes_gcm128, encrypted_payload_type}
use ndn_multi_party_signatur.Protocol.{
  ok_code, processing, code_text, status_type, bls_sig_value_type, result_after_type,
  result_name_type,
}
use ndn_multi_party_signatur.Signer.{SignRequestState, result_payload}
use ndn_multi_party_signatur.Initiator.Rpc.{
  MultiSignPerSignerState, take_piece, fetch_again, parse_result_data, on_result_data,
}

module _
    {Name Info Data Interest Secret Public Signature Block Ctx Pkey EcKey Group Point Tpm : Type 0}
    (w : Services Name Info Data Interest Secret Public Signature Block Ctx Pkey EcKey Group Point
      Tpm)
    ⦃N : NdnName Name⦄ (estimate : ℕ) where
  -- The payload of a result with code OK.
  pub signature_payload : Text → Block
  signature_payload value =
      w.blocks.push_back
        (w.blocks.push_back (w.blocks.new_block encrypted_payload_type)
          (w.blocks.string_block status_type (code_text ok_code)))
        (w.blocks.binary_block bls_sig_value_type value)

  elements-signature_payload :
      (value : Text)
      → w.blocks.elements (
          w.blocks.binary_block content_type
            (w.blocks.value (w.blocks.encode (signature_payload value))))
        ≡ ok (
            w.blocks.string_block status_type (code_text ok_code)
            ∷ w.blocks.binary_block bls_sig_value_type value
            ∷ [])
  unfolding signature_payload
  elements-signature_payload value =
      let blocks = w.blocks in
      let a = blocks.string_block status_type (code_text ok_code) in
      let b = blocks.binary_block bls_sig_value_type value in
      let start = blocks.new_block encrypted_payload_type in
      blocks.elements-binary_block content_type (blocks.push_back (blocks.push_back start a) b)
        (a ∷ b ∷ [])
        (blocks.elements-push_back (blocks.push_back start a) b (a ∷ [])
          (blocks.elements-push_back start a [] (blocks.elements-new_block encrypted_payload_type)))

  pub result_payload_ok :
      (s : SignRequestState Pkey) (result_prefix : Name)
      → s.code ≡ ok_code
      → result_payload w estimate s result_prefix
        ≡ (record s { registered = false }, signature_payload s.signature_value)
  unfolding result_payload signature_payload
  result_payload_ok s result_prefix h = rw (result_payload, h) refl

  pub on_result_data-signature :
      (tpm : Tpm) (i : MultiSignPerSignerState Name Data Pkey) (result : Data) (value : Text)
      → w.parts.hmac_verify tpm (w.parts.hmac_name i.hmac_key) result ≡ true
      → decode_block_with_aes_gcm128 w.blocks w.cipher (w.info_packets.content result) i.aes_key []
        ≡ ok (w.blocks.value (w.blocks.encode (signature_payload value)))
      → on_result_data w tpm i result ≡ ok (take_piece value)
  unfolding on_result_data parse_result_data find_element text_eq
  on_result_data-signature tpm i result value verified decoded =
      let blocks = w.blocks in
      let a = blocks.string_block status_type (code_text ok_code) in
      let b = blocks.binary_block bls_sig_value_type value in
      let a_type = blocks.type-string_block status_type (code_text ok_code) in
      let b_type = blocks.type-binary_block bls_sig_value_type value in
      let plain =
        blocks.binary_block content_type (blocks.value (blocks.encode (signature_payload value))) in
      let get_status : blocks.get plain status_type ≡ ok a =
        rw (blocks.get-elements, elements-signature_payload value, a_type) refl in
      let get_value : blocks.get plain bls_sig_value_type ≡ ok b =
        rw (blocks.get-elements, elements-signature_payload value, a_type, b_type) refl in
      rw
        (
          on_result_data,
          verified,
          parse_result_data,
          decoded,
          elements-signature_payload value,
          get_status,
          blocks.read_string-string_block status_type (code_text ok_code),
          get_value,
          blocks.value-binary_block bls_sig_value_type value,
        )
        refl

  -- The payload of a result with code Processing.
  pub processing_payload : Name → Block
  processing_payload result_name =
      w.blocks.push_back
        (w.blocks.push_back
          (w.blocks.push_back (w.blocks.new_block encrypted_payload_type)
            (w.blocks.string_block status_type (code_text processing)))
          (w.blocks.number_block result_after_type estimate))
        (w.blocks.nested_block result_name_type result_name)

  elements-processing_payload :
      (result_name : Name)
      → w.blocks.elements (
          w.blocks.binary_block content_type
            (w.blocks.value (w.blocks.encode (processing_payload result_name))))
        ≡ ok (
            w.blocks.string_block status_type (code_text processing)
            ∷ w.blocks.number_block result_after_type estimate
            ∷ w.blocks.nested_block result_name_type result_name
            ∷ [])
  unfolding processing_payload
  elements-processing_payload result_name =
      let blocks = w.blocks in
      let a = blocks.string_block status_type (code_text processing) in
      let b = blocks.number_block result_after_type estimate in
      let c = blocks.nested_block result_name_type result_name in
      let start = blocks.new_block encrypted_payload_type in
      let one = blocks.push_back start a in
      let two = blocks.push_back one b in
      blocks.elements-binary_block content_type (blocks.push_back two c) (a ∷ b ∷ c ∷ []) (
        blocks.elements-push_back two c (a ∷ b ∷ []) (
          blocks.elements-push_back one b (a ∷ []) (
            blocks.elements-push_back start a []
              (blocks.elements-new_block encrypted_payload_type))))

  pub result_payload_processing :
      (s : SignRequestState Pkey) (result_prefix : Name)
      → s.code ≡ processing
      → result_payload w estimate s result_prefix ≡ (
        record s { version = s.version + 1 },
        processing_payload (w.parts.append_version result_prefix (s.version + 1)),
      )
  unfolding result_payload processing_payload
  result_payload_processing s result_prefix h = rw (result_payload, h) refl

  pub on_result_data-processing :
      (tpm : Tpm) (i : MultiSignPerSignerState Name Data Pkey) (result : Data) (result_name : Name)
      → estimate < 2 ^ 64
      → w.parts.hmac_verify tpm (w.parts.hmac_name i.hmac_key) result ≡ true
      → decode_block_with_aes_gcm128 w.blocks w.cipher (w.info_packets.content result) i.aes_key []
        ≡ ok (w.blocks.value (w.blocks.encode (processing_payload result_name)))
      → on_result_data w tpm i result ≡ ok (fetch_again estimate)
  unfolding on_result_data parse_result_data find_element text_eq
  on_result_data-processing tpm i result result_name small verified decoded =
      let blocks = w.blocks in
      let a = blocks.string_block status_type (code_text processing) in
      let b = blocks.number_block result_after_type estimate in
      let c = blocks.nested_block result_name_type result_name in
      let a_type = blocks.type-string_block status_type (code_text processing) in
      let b_type = blocks.type-number_block result_after_type estimate in
      let c_type = blocks.type-nested_block result_name_type result_name in
      let held = elements-processing_payload result_name in
      let plain =
        blocks.binary_block content_type
          (blocks.value (blocks.encode (processing_payload result_name))) in
      let get_status : blocks.get plain status_type ≡ ok a =
        rw (blocks.get-elements, held, a_type) refl in
      let get_after : blocks.get plain result_after_type ≡ ok b =
        rw (blocks.get-elements, held, a_type, b_type) refl in
      let get_name : blocks.get plain result_name_type ≡ ok c =
        rw (blocks.get-elements, held, a_type, b_type, c_type) refl in
      rw
        (
          on_result_data,
          verified,
          parse_result_data,
          decoded,
          held,
          get_status,
          blocks.read_string-string_block status_type (code_text processing),
          get_after,
          blocks.read_number-number_block result_after_type estimate small,
          get_name,
          blocks.block_from_value-nested_block result_name_type result_name,
          blocks.name_decode-name_encode result_name,
        )
        refl
