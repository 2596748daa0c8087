-- ===== src/Exchange/Result.antt =====
-- The result packet, which the signer makes and the initiator reads.
use ndn_multi_party_signatur.Prelude.{
  ℕ, ◌+◌, ◌<◌, ◌^◌, ◌≡◌, refl, Bool-cases, true, false, ◌==◌, some, [], Text, length, ok,
  Result-cases, inl, inr,
}
use ndn_multi_party_signatur.Ndn.{NdnName}
use ndn_multi_party_signatur.Packets.{content_type}
use ndn_multi_party_signatur.Messages.{Services}
use ndn_multi_party_signatur.Crypto.{encode_block_with_aes_gcm128, decode_block_with_aes_gcm128}
use ndn_multi_party_signatur.Crypto.Seal.{encode_block-Encoded, decode_block-encode_block}
use ndn_multi_party_signatur.Protocol.{ok_code, processing}
use ndn_multi_party_signatur.Signer.{
  SignRequestState, result_payload, generate_result_data, on_result_request,
}
use ndn_multi_party_signatur.Initiator.Rpc.{
  MultiSignPerSignerState, take_piece, fetch_again, on_result_data,
}
use ndn_multi_party_signatur.Exchange.Payload.{
  signature_payload, result_payload_ok, on_result_data-signature, processing_payload,
  result_payload_processing, on_result_data-processing,
}

module _
    {Name Info Data Interest Secret Public Signature Block Ctx Pkey EcKey Group Point Tpm : Type 0}
    (w : Services Name Info Data Interest Secret Public Signature Block Ctx Pkey EcKey Group Point
      Tpm)
    ⦃N : NdnName Name⦄ (estimate : ℕ) where
  -- An answer to a request for the result verifies in a key chain that has the key, and decrypts to
  -- the payload of the signer's state.
  on_result_request-payload :
      (tpm tpm' u : Tpm) (s s1 s' : SignRequestState Pkey)
      (self_prefix result_prefix interest_name : Name) (random_bytes : Text) (result : Data)
      (payload : Block)
      → result_payload w estimate s result_prefix ≡ (s1, payload)
      → s1.hmac_key ≡ s.hmac_key
      → w.parts.has_key u (w.parts.hmac_name s.hmac_key) ≡ true
      → length random_bytes ≡ 8
      → on_result_request w estimate tpm s self_prefix result_prefix interest_name random_bytes
        ≡ (tpm', s', ok (some result))
      → (w.parts.hmac_verify u (w.parts.hmac_name s.hmac_key) result ≡ true)
        × (decode_block_with_aes_gcm128 w.blocks w.cipher
              (w.info_packets.content result)
              s.aes_key
              []
            ≡ ok (w.blocks.value (w.blocks.encode payload)))
  unfolding on_result_request generate_result_data
  on_result_request-payload tpm tpm' u s s1 s' self_prefix result_prefix interest_name random_bytes
        result payload made_of same has len h =
      let bytes = w.blocks.value (w.blocks.encode payload) in
      let new = w.info_packets.new_data interest_name in
      elim (Bool-cases (N.size interest_name == N.size self_prefix + 5)) [
        | inr e ↦ cc (rw (on_result_request, e) at h)
        | inl e ↦
            elim (Result-cases (
              encode_block_with_aes_gcm128 w.blocks w.cipher content_type s.aes_key bytes []
                random_bytes)) [
                  | inr (x, f) ↦
                      cc (rw (on_result_request, e, generate_result_data, made_of, f) at h)
                  | inl (encrypted, f) ↦
                      let k =
                        encode_block-Encoded w.blocks w.cipher content_type s.aes_key bytes []
                          random_bytes encrypted len f in
                      let packet = w.info_packets.set_content new encrypted in
                      let made : (w.parts.hmac_sign tpm s1.hmac_key packet).1 ≡ result =
                        cc (rw (on_result_request, e, generate_result_data, made_of, f) at h) in
                      (
                        (rw (← made, same)
                            (w.parts.hmac_verify-hmac_sign tpm u s.hmac_key packet has)),
                        (rw
                            (
                              ← made,
                              w.parts.content-hmac_sign,
                              w.info_packets.content-set_content new encrypted k.type_of,
                            )
                            (decode_block-encode_block w.blocks w.cipher content_type s.aes_key
                              bytes [] random_bytes encrypted len f)),
                      )
                ]
      ]

  -- Where the signer's state has code OK, and the initiator has its keys, and the HMAC key in its key
  -- chain, what the signer answers to a request for the result gives the initiator the signature of
  -- that state.
  pub on_result_data-on_result_request :
      (tpm tpm' u : Tpm) (s s' : SignRequestState Pkey) (i : MultiSignPerSignerState Name Data Pkey)
      (self_prefix result_prefix interest_name : Name) (random_bytes : Text) (result : Data)
      → s.code ≡ ok_code
      → i.aes_key ≡ s.aes_key
      → i.hmac_key ≡ s.hmac_key
      → w.parts.has_key u (w.parts.hmac_name s.hmac_key) ≡ true
      → length random_bytes ≡ 8
      → on_result_request w estimate tpm s self_prefix result_prefix interest_name random_bytes
        ≡ (tpm', s', ok (some result))
      → on_result_data w u i result ≡ ok (take_piece s.signature_value)
  on_result_data-on_result_request tpm tpm' u s s' i self_prefix result_prefix interest_name
        random_bytes result code aes hmac has len h =
      let (verified, opened) =
        on_result_request-payload tpm tpm' u s (record s { registered = false }) s' self_prefix
          result_prefix interest_name random_bytes result
          (signature_payload w estimate s.signature_value)
          (result_payload_ok w estimate s result_prefix code) refl has len h in
      on_result_data-signature w estimate u i result s.signature_value (rw hmac verified)
        (rw aes opened)

  -- Where it is in processing, and the estimate fits 64 bits, the initiator is told to fetch again.
  pub on_result_data-pending :
      (tpm tpm' u : Tpm) (s s' : SignRequestState Pkey) (i : MultiSignPerSignerState Name Data Pkey)
      (self_prefix result_prefix interest_name : Name) (random_bytes : Text) (result : Data)
      → estimate < 2 ^ 64
      → s.code ≡ processing
      → i.aes_key ≡ s.aes_key
      → i.hmac_key ≡ s.hmac_key
      → w.parts.has_key u (w.parts.hmac_name s.hmac_key) ≡ true
      → length random_bytes ≡ 8
      → on_result_request w estimate tpm s self_prefix result_prefix interest_name random_bytes
        ≡ (tpm', s', ok (some result))
      → on_result_data w u i result ≡ ok (fetch_again estimate)
  on_result_data-pending tpm tpm' u s s' i self_prefix result_prefix interest_name random_bytes
        result small code aes hmac has len h =
      let name = w.parts.append_version result_prefix (s.version + 1) in
      let (verified, opened) =
        on_result_request-payload tpm tpm' u s (record s { version = s.version + 1 }) s' self_prefix
          result_prefix interest_name random_bytes result (processing_payload w estimate name)
          (result_payload_processing w estimate s result_prefix code) refl has len h in
      on_result_data-processing w estimate u i result name small (rw hmac verified) (rw aes opened)
