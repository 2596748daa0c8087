-- ===== src/Exchange/Signed.antt =====
-- The parameter packet at the signer, and what its answers bring the initiator then.
use ndn_multi_party_signatur.Prelude.{
  ℕ, ◌<◌, ◌^◌, ◌≡◌, refl, ◌∙◌, Bool, Bool-cases, inl, inr, true, false, if◌then◌else◌, some, [],
  Text, length, ok,
}
use ndn_multi_party_signatur.Ndn.{NdnName}
use ndn_multi_party_signatur.Packets.{content_type}
use ndn_multi_party_signatur.Bls.{gen_data_signature}
use ndn_multi_party_signatur.Messages.{Services}
use ndn_multi_party_signatur.Crypto.{encode_block_with_aes_gcm128}
use ndn_multi_party_signatur.Protocol.{processing, ok_code}
use ndn_multi_party_signatur.Signer.{
  SignRequestState, parse_parameter_data, on_parameter_data, on_result_request,
}
use ndn_multi_party_signatur.Initiator.Rpc.{
  MultiSignPerSignerState, prepare_parameter_data, on_result_data, take_piece, fetch_again,
}
use ndn_multi_party_signatur.Exchange.Parameters.{parse_parameter_data-prepare}
use ndn_multi_party_signatur.Exchange.Result.{
  on_result_data-on_result_request, on_result_data-pending,
}

module _
    {Name Info Data Interest Secret Public Signature Block Ctx Pkey EcKey Group Point Tpm : Type 0}
    (w : Services Name Info Data Interest Secret Public Signature Block Ctx Pkey EcKey Group Point
      Tpm)
    ⦃N : NdnName Name⦄ where
  -- What becomes of the signer's state with a parameter packet whose packet the callback allows, by
  -- whether the signer's key chain has the HMAC key.
  signed_if : Bool → Text → SignRequestState Pkey → SignRequestState Pkey
  signed_if has piece s = if has then record s { code = ok_code; signature_value = piece } else s

  on_parameter_data-signed_if :
      (key : Secret) (allowed : Data → Bool) (tpm ts : Tpm) (s : SignRequestState Pkey)
      (packet unsigned : Data)
      → let signed = (w.parts.hmac_sign tpm s.hmac_key packet).1 in
        parse_parameter_data w signed s.aes_key ≡ ok unsigned
        → allowed unsigned ≡ true
        → on_parameter_data w key allowed ts s signed
          ≡ signed_if
              (w.parts.has_key ts (w.parts.hmac_name s.hmac_key))
              (gen_data_signature w.infos w.packets w.interests w.bls key unsigned)
              s
  unfolding on_parameter_data signed_if
  on_parameter_data-signed_if key allowed tpm ts s packet unsigned p a =
      let name = w.parts.hmac_name s.hmac_key in
      elim (Bool-cases (w.parts.has_key ts name)) [
        | inl has ↦
            rw
              (
                on_parameter_data,
                has,
                w.parts.hmac_verify-hmac_sign tpm ts s.hmac_key packet has,
                p,
                a,
              )
              refl
        | inr none ↦ rw (on_parameter_data, none, w.parts.hmac_verify-missing ts name _ none) refl
      ]

  -- What an answer to a request for the result brings the initiator then.
  on_result_data-signed_if :
      (estimate : ℕ) (has : Bool) (piece : Text) (tpm tpm' u : Tpm) (s t' : SignRequestState Pkey)
      (i : MultiSignPerSignerState Name Data Pkey) (self_prefix result_prefix result_name : Name)
      (random_bytes : Text) (result : Data)
      → estimate < 2 ^ 64
      → s.code ≡ processing
      → i.aes_key ≡ s.aes_key
      → i.hmac_key ≡ s.hmac_key
      → w.parts.has_key u (w.parts.hmac_name s.hmac_key) ≡ true
      → length random_bytes ≡ 8
      → on_result_request w estimate tpm
          (signed_if has piece s)
          self_prefix
          result_prefix
          result_name
          random_bytes
        ≡ (tpm', t', ok (some result))
      → on_result_data w u i result ≡ ok (if has then take_piece piece else fetch_again estimate)
  unfolding signed_if
  on_result_data-signed_if estimate true piece tpm tpm' u s t' i self_prefix result_prefix
        result_name random_bytes result small pending aes hmac has len answered =
      on_result_data-on_result_request w estimate tpm tpm' u
        (record s { code = ok_code; signature_value = piece }) t' i self_prefix result_prefix
        result_name random_bytes result refl aes hmac has len answered
  on_result_data-signed_if estimate false piece tpm tpm' u s t' i self_prefix result_prefix
        result_name random_bytes result small pending aes hmac has len answered =
      on_result_data-pending w estimate tpm tpm' u s t' i self_prefix result_prefix result_name
        random_bytes result small pending aes hmac has len answered

  -- A parameter packet under the keys of both, which the initiator has published.
  pub take_piece-published :
      (estimate : ℕ) (key : Secret) (allowed : Data → Bool) (self_prefix : Name) (random_i : Text)
      (para_r : ℕ) (prefix : Name) (to_be_signed : Data) (tpm tpm' ts : Tpm)
      (i1 i' : MultiSignPerSignerState Name Data Pkey) (s : SignRequestState Pkey)
      (encrypted : Block)
      → length random_i ≡ 8
      → estimate < 2 ^ 64
      → s.code ≡ processing
      → i1.para_data ≡ prepare_parameter_data w para_r to_be_signed prefix
      → i1.aes_key ≡ s.aes_key
      → i1.hmac_key ≡ s.hmac_key
      → i'.aes_key ≡ i1.aes_key
      → i'.hmac_key ≡ i1.hmac_key
      → encode_block_with_aes_gcm128 w.blocks w.cipher content_type i1.aes_key
          (w.blocks.value (w.info_packets.content i1.para_data))
          []
          random_i
        ≡ ok encrypted
      → i'.published
        ≡ some
            (w.parts.hmac_sign tpm i1.hmac_key
              (w.info_packets.set_content i1.para_data encrypted)).1
      → w.parts.has_key tpm' (w.parts.hmac_name i1.hmac_key) ≡ true
      → allowed to_be_signed ≡ true
      → let piece = gen_data_signature w.infos w.packets w.interests w.bls key to_be_signed in
        let hmac_name = w.parts.hmac_name s.hmac_key in
        let has = w.parts.has_key ts hmac_name in
        (packet : Data) × (i'.published ≡ some packet)
        × (w.parts.has_key tpm' hmac_name ≡ true)
        × (let t = on_parameter_data w key allowed ts s packet in
            (t ≡ (if has then record s { code = ok_code; signature_value = piece } else s))
            × ((ts1 ts2 u : Tpm) (t' : SignRequestState Pkey) (result_prefix result_name : Name)
                  (random_bytes : Text) (result : Data)
                → w.parts.has_key u hmac_name ≡ true
                → length random_bytes ≡ 8
                → on_result_request w estimate ts1 t self_prefix result_prefix result_name
                    random_bytes
                  ≡ (ts2, t', ok (some result))
                → on_result_data w u i' result
                  ≡ ok (if has then take_piece piece else fetch_again estimate)))
  unfolding signed_if
  take_piece-published estimate key allowed self_prefix random_i para_r prefix to_be_signed tpm tpm'
        ts i1 i' s encrypted len small pending para aes hmac aes' hmac' sealed published kept
        allow =
      let packet = w.info_packets.set_content i1.para_data encrypted in
      let opened : parse_parameter_data w (w.parts.hmac_sign tpm s.hmac_key packet).1 s.aes_key
          ≡ ok to_be_signed =
        rw para (
          parse_parameter_data-prepare w para_r to_be_signed prefix tpm s.aes_key s.hmac_key
            random_i encrypted len (rw (← para, ← aes) sealed)) in
      let moved =
        on_parameter_data-signed_if key allowed tpm ts s packet to_be_signed opened allow in
      (
        (w.parts.hmac_sign tpm s.hmac_key packet).1,
        rw (← hmac) published,
        rw (← hmac) kept,
        (
          moved,
          λ ts1 ts2 u t' result_prefix result_name random_bytes result has len' answered.
              on_result_data-signed_if estimate (w.parts.has_key ts (w.parts.hmac_name s.hmac_key))
                (gen_data_signature w.infos w.packets w.interests w.bls key to_be_signed) ts1 ts2 u
                s t' i' self_prefix result_prefix result_name random_bytes result small pending
                (aes' ∙ aes) (hmac' ∙ hmac) has len' (rw (← moved) answered),
        ),
      )
