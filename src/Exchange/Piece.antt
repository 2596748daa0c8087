-- ===== src/Exchange/Piece.antt =====
-- One signer and the initiator, from the request to the piece.
use ndn_multi_party_signatur.Prelude.{
  ℕ, ◌<◌, ◌^◌, ◌≡◌, sym, ap, ◌∙◌, Bool, true, if◌then◌else◌, Option, some, Text, length, ok,
}
use ndn_multi_party_signatur.Ndn.{NdnName}
use ndn_multi_party_signatur.Bls.{gen_data_signature}
use ndn_multi_party_signatur.Messages.{Services}
use ndn_multi_party_signatur.Protocol.{ok_code}
use ndn_multi_party_signatur.Signer.{
  SignRequestState, on_sign_request, parse_sign_request_payload, on_parameter_data,
  on_result_request,
}
use ndn_multi_party_signatur.Signer.Taken.{accept-Taken}
use ndn_multi_party_signatur.Initiator.Rpc.{
  MultiSignPerSignerState, perform_rpc, on_ack_data, on_result_data, take_piece, fetch_again,
}
use ndn_multi_party_signatur.Exchange.Parameters.{parse-prepare_sign_request}
use ndn_multi_party_signatur.Exchange.Ack.{parse_ack_reply-Taken}
use ndn_multi_party_signatur.Exchange.Begun.{
  content-sign_ack, perform_rpc-Begun, accepted, on_ack_data-parse,
}
use ndn_multi_party_signatur.Exchange.Signed.{take_piece-published}

module _
    {Name Info Data Interest Secret Public Signature Block Ctx Pkey EcKey Group Point Tpm : Type 0}
    (w : Services Name Info Data Interest Secret Public Signature Block Ctx Pkey EcKey Group Point
      Tpm)
    ⦃N : NdnName Name⦄ where
  -- A request from its beginning to the piece. The initiator sends a sign request and the signer takes
  -- it; the initiator reads the ack, publishes the parameter packet, which the signer fetches, has the
  -- HMAC key in its key chain and waits as long as the signer estimates. The packet to be signed is one
  -- that the signer's callback allows. Where the signer's key chain has the HMAC key, as one key chain
  -- of both does, its code becomes OK with its signature of the packet, and an answer that it then
  -- gives to a request for the result brings an initiator, whose key chain has the key, this
  -- signature. Where the signer's key chain does not have it, the signer's state stays as it was, and
  -- such an answer tells the initiator to fetch again. Salts have 32 bytes, the random bytes of an
  -- encryption are eight, and the estimate fits 64 bits.
  pub request-take_piece :
      (unset random_i : Text) (r para_r : ℕ) (prefix signing_key_name signer_key_name : Name)
      (to_be_signed : Data) (i i' : MultiSignPerSignerState Name Data Pkey) (interest : Interest)
      (wait : Option ℕ) (estimate : ℕ) (key : Secret) (key_name self_prefix : Name)
      (verify_sign_request : Interest → Bool) (allowed : Data → Bool) (q : ℕ) (salt : Text)
      (request_id : ℕ) (random_s : Text) (ack : Data) (s : SignRequestState Pkey) (fetched : Name)
      (tpm tpm' ts : Tpm)
      → length unset ≡ 32
      → length salt ≡ 32
      → length random_i ≡ 8
      → length random_s ≡ 8
      → estimate < 2 ^ 64
      → perform_rpc w r para_r prefix signing_key_name to_be_signed signer_key_name
        ≡ ok (i, interest)
      → on_sign_request w estimate key key_name self_prefix verify_sign_request q salt request_id
          random_s interest
        ≡ ok (ack, some (s, fetched))
      → on_ack_data w unset random_i tpm i ack ≡ ok (tpm', i', wait)
      → allowed to_be_signed ≡ true
      → let piece = gen_data_signature w.infos w.packets w.interests w.bls key to_be_signed in
        let hmac_name = w.parts.hmac_name s.hmac_key in
        let has = w.parts.has_key ts hmac_name in
        (fetched ≡ w.info_packets.packet_name i.para_data)
        × (wait ≡ some estimate)
        × ((packet : Data) × (i'.published ≡ some packet)
            × (w.parts.has_key tpm' hmac_name ≡ true)
            × (let t = on_parameter_data w key allowed ts s packet in
                (t ≡ (if has then record s { code = ok_code; signature_value = piece } else s))
                × ((ts1 ts2 u : Tpm) (t' : SignRequestState Pkey) (result_prefix result_name : Name)
                      (random_bytes : Text) (result : Data)
                    → w.parts.has_key u hmac_name ≡ true
                    → length random_bytes ≡ 8
                    → on_result_request w estimate ts1 t self_prefix result_prefix result_name
                        random_bytes
                      ≡ (ts2, t', ok (some result))
                    → on_result_data w u i' result
                      ≡ ok (if has then take_piece piece else fetch_again estimate))))
  request-take_piece unset random_i r para_r prefix signing_key_name signer_key_name to_be_signed i
        i' interest wait estimate key key_name self_prefix verify_sign_request allowed q salt
        request_id random_s ack s fetched tpm tpm' ts hu hs hri hrs he begin taken acked allow =
      let b =
        perform_rpc-Begun w r para_r prefix signing_key_name signer_key_name to_be_signed i interest
          begin in
      let name = w.info_packets.packet_name i.para_data in
      let read : parse_sign_request_payload w interest ≡ ok (name, b.self_pub) =
        ap (parse_sign_request_payload w) b.sent
        ∙ (parse-prepare_sign_request w (w.parts.prefix_without 2 signer_key_name) name
            signing_key_name b.self_pub) in
      let (unsigned_ack, k, signed, same_name) =
        accept-Taken w estimate key key_name self_prefix q salt request_id random_s
          (w.parts.interest_name interest) (name, b.self_pub) ack s fetched
          (accepted w estimate key key_name self_prefix verify_sign_request q salt request_id
            random_s interest ack s fetched name b.self_pub taken read) in
      let (i1, parsed, agreed) =
        parse_ack_reply-Taken w estimate unset r q b.own i b.self_pub self_prefix
          (w.parts.interest_name interest) salt request_id random_s s unsigned_ack ack hu hs hrs he
          b.created b.published k (content-sign_ack w key key_name unsigned_ack ack signed) in
      let (encrypted, sealed, published, kept, same_aes, same_hmac, waited) =
        on_ack_data-parse w unset random_i tpm tpm' i i1 i' ack estimate wait parsed acked in
      (
        sym same_name,
        waited,
        take_piece-published w estimate key allowed self_prefix random_i para_r prefix to_be_signed
            tpm tpm' ts i1 i' s encrypted hri he (rw k.state k.started.pending)
            (agreed.same_para ∙ b.para) agreed.same_aes agreed.same_hmac same_aes same_hmac sealed
            published kept allow,
      )
