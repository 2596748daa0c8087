-- ===== src/Exchange/Begun.antt =====
-- How a request of the initiator begins, and how it goes on with the ack.
use ndn_multi_party_signatur.Prelude.{
  true, ℕ, ◌≡◌, refl, sym, Bool, Bool-cases, Option, none, some, [], Text, ok, Result-cases, inl,
  inr,
}
use ndn_multi_party_signatur.Ndn.{NdnName}
use ndn_multi_party_signatur.Packets.{content_type}
use ndn_multi_party_signatur.Bls.{gen_data_signature, sign_data, sign_data_with, bls_signature_type}
use ndn_multi_party_signatur.Messages.{Services}
use ndn_multi_party_signatur.Crypto.{
  EcdhState, ecdh_new, get_self_pub_key, encode_block_with_aes_gcm128,
}
use ndn_multi_party_signatur.Signer.{
  SignRequestState, on_sign_request, sign_ack, parse_sign_request_payload, accept,
}
use ndn_multi_party_signatur.Signer.Taken.{refuse_none}
use ndn_multi_party_signatur.Initiator.Rpc.{
  MultiSignPerSignerState, perform_rpc, prepare_sign_request_interest, prepare_parameter_data,
  parse_ack_reply, on_ack_data,
}

module _
    {Name Info Data Interest Secret Public Signature Block Ctx Pkey EcKey Group Point Tpm : Type 0}
    (w : Services Name Info Data Interest Secret Public Signature Block Ctx Pkey EcKey Group Point
      Tpm)
    ⦃N : NdnName Name⦄ where
  -- The BLS signature on an ack leaves its content.
  pub content-sign_ack :
      (key : Secret) (key_name : Name) (ack signed : Data)
      → sign_ack w key key_name ack ≡ ok signed
      → w.info_packets.content signed ≡ w.info_packets.content ack
  unfolding sign_ack sign_data sign_data_with
  content-sign_ack key key_name ack signed h =
      let info = w.infos.new_info bls_signature_type key_name in
      let with_info = w.packets.set_signature_info ack info in
      let value = gen_data_signature w.infos w.packets w.interests w.bls key with_info in
      let made : w.packets.set_signature_value with_info value ≡ signed = cc (
        rw
          (
            sign_ack,
            sign_data,
            sign_data_with,
            w.infos.signature_type-new_info bls_signature_type key_name,
          )
          at h) in
      rw (← made, w.info_packets.content-set_value, w.info_packets.content-set_info) refl

  -- How a request of the initiator begins.
  pub record Begun (r para_r : ℕ) (prefix signing_key_name signer_key_name : Name)
      (to_be_signed : Data) (i : MultiSignPerSignerState Name Data Pkey) (interest : Interest)
      : Type 0 where
    pub own : EcdhState Pkey
    pub self_pub : Text
    pub created : ecdh_new w.keys r ≡ ok own
    pub published : get_self_pub_key w.keys own ≡ ok (i.ecdh, self_pub)
    pub para : i.para_data ≡ prepare_parameter_data w para_r to_be_signed prefix
    pub sent :
        interest
        ≡ w.parts.make_signed_interest
            (prepare_sign_request_interest w
              (w.parts.prefix_without 2 signer_key_name)
              (w.info_packets.packet_name i.para_data)
              self_pub)
            signing_key_name

  pub perform_rpc-Begun :
      (r para_r : ℕ) (prefix signing_key_name signer_key_name : Name) (to_be_signed : Data)
      (i : MultiSignPerSignerState Name Data Pkey) (interest : Interest)
      → perform_rpc w r para_r prefix signing_key_name to_be_signed signer_key_name
        ≡ ok (i, interest)
      → Begun r para_r prefix signing_key_name signer_key_name to_be_signed i interest
  unfolding perform_rpc
  perform_rpc-Begun r para_r prefix signing_key_name signer_key_name to_be_signed i interest h =
      let para = prepare_parameter_data w para_r to_be_signed prefix in
      elim (Result-cases (ecdh_new w.keys r)) [
        | inr (x, e) ↦ cc (rw (perform_rpc, e) at h)
        | inl (own, e) ↦ elim (Result-cases (get_self_pub_key w.keys own)) [
          | inr (x, f) ↦ cc (rw (perform_rpc, e, f) at h)
          | inl ((own', self_pub), f) ↦
              let i0 : MultiSignPerSignerState Name Data Pkey = record {
                signer_key_name = signer_key_name;
                ecdh = own';
                aes_key = [];
                hmac_key = [];
                para_data = para;
                published = none;
                next_result_name = N.empty_name;
              } in
              let same_state : i0 ≡ i = cc (rw (perform_rpc, e, f) at h) in
              let same_interest : w.parts.make_signed_interest
                    (prepare_sign_request_interest w (w.parts.prefix_without 2 signer_key_name)
                      (w.info_packets.packet_name para) self_pub)
                    signing_key_name
                  ≡ interest =
                cc (rw (perform_rpc, e, f) at h) in
              rw (← same_state) (record {
                own = own;
                self_pub = self_pub;
                created = e;
                published = f;
                para = refl;
                sent = sym same_interest;
              })
        ]
      ]

  -- The request that the signer took was that of the initiator.
  pub accepted :
      (estimate : ℕ) (key : Secret) (key_name self_prefix : Name)
      (verify_sign_request : Interest → Bool) (q : ℕ) (salt : Text) (request_id : ℕ)
      (random_bytes : Text) (interest : Interest) (ack : Data) (s : SignRequestState Pkey)
      (fetched name : Name) (public_i : Text)
      → on_sign_request w estimate key key_name self_prefix verify_sign_request q salt request_id
          random_bytes interest
        ≡ ok (ack, some (s, fetched))
      → parse_sign_request_payload w interest ≡ ok (name, public_i)
      → accept w estimate key key_name self_prefix q salt request_id random_bytes
          (w.parts.interest_name interest)
          (name, public_i)
        ≡ ok (ack, some (s, fetched))
  unfolding on_sign_request
  accepted estimate key key_name self_prefix verify_sign_request q salt request_id random_bytes
        interest ack s fetched name public_i h e =
      elim (Bool-cases (verify_sign_request interest)) [
        | inr v ↦ absurd (refuse_none w estimate key key_name _ (rw (on_sign_request, v) at h))
        | inl v ↦ elim (Bool-cases (w.parts.is_parameters_digest_valid interest)) [
          | inr d ↦ absurd (refuse_none w estimate key key_name _ (rw (on_sign_request, v, d) at h))
          | inl d ↦ rw (on_sign_request, v, d, e) at h
        ]
      ]

  -- The handler of the ack publishes the parameter packet for the keys of the ack.
  pub on_ack_data-parse :
      (unset random_bytes : Text) (tpm tpm' : Tpm)
      (i i1 i' : MultiSignPerSignerState Name Data Pkey) (ack : Data) (ms : ℕ) (wait : Option ℕ)
      → parse_ack_reply w unset i ack ≡ ok (i1, ms)
      → on_ack_data w unset random_bytes tpm i ack ≡ ok (tpm', i', wait)
      → (encrypted : Block) × (encode_block_with_aes_gcm128 w.blocks w.cipher content_type
            i1.aes_key
            (w.blocks.value (w.info_packets.content i1.para_data))
            []
            random_bytes
          ≡ ok encrypted)
        × (i'.published
            ≡ some
                (w.parts.hmac_sign tpm i1.hmac_key
                  (w.info_packets.set_content i1.para_data encrypted)).1)
        × (w.parts.has_key tpm' (w.parts.hmac_name i1.hmac_key) ≡ true)
        × (i'.aes_key ≡ i1.aes_key)
        × (i'.hmac_key ≡ i1.hmac_key)
        × (wait ≡ some ms)
  unfolding on_ack_data
  on_ack_data-parse unset random_bytes tpm tpm' i i1 i' ack ms wait e h =
      let para = i1.para_data in
      elim (Result-cases (
        encode_block_with_aes_gcm128 w.blocks w.cipher content_type i1.aes_key
          (w.blocks.value (w.info_packets.content i1.para_data)) [] random_bytes)) [
            | inr (x, f) ↦ cc (rw (on_ack_data, e, f) at h)
            | inl (encrypted, f) ↦
                let sealed = w.info_packets.set_content i1.para_data encrypted in
                let made = w.parts.hmac_sign tpm i1.hmac_key sealed in
                let packet = made.1 in
                let i2 : MultiSignPerSignerState Name Data Pkey = record i1 {
                  para_data = packet;
                  published = some packet;
                } in
                let same : i2 ≡ i' = cc (rw (on_ack_data, e, f) at h) in
                let same_tpm : made.0 ≡ tpm' = cc (rw (on_ack_data, e, f) at h) in
                let same_wait : some ms ≡ wait = cc (rw (on_ack_data, e, f) at h) in
                (
                  encrypted,
                  f,
                  (rw (← same) refl),
                  (rw (← same_tpm) (w.parts.has_key-hmac_sign tpm i1.hmac_key sealed)),
                  (rw (← same) refl),
                  (rw (← same) refl),
                  sym same_wait,
                )
          ]
