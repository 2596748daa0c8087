-- ===== src/Exchange/Ack.antt =====
-- The ack, which the signer makes and the initiator reads: both then have the same keys.
use ndn_multi_party_signatur.Prelude.{
  ℕ, ◌<◌, ◌^◌, ◌≡◌, refl, ap, ◌∙◌, false, [], ◌∷◌, Text, text_eq_refl, length, drop, ltb, ok,
  Result-cases, inl, inr, arith,
}
use mathlib.Core.List.{append-nil}
use ndn_multi_party_signatur.Ndn.{NdnName}
use ndn_multi_party_signatur.Tlv.{find_element}
use ndn_multi_party_signatur.Packets.{content_type}
use ndn_multi_party_signatur.Messages.{Services}
use ndn_multi_party_signatur.Crypto.{
  EcdhState, ecdh_new, get_self_pub_key, derive_secret, session_keys, encode_block_with_aes_gcm128,
  decode_block_with_aes_gcm128, encrypted_payload_type, initialization_vector_type,
  authentication_tag_type,
}
use ndn_multi_party_signatur.Crypto.Seal.{Encoded, encode_block-Encoded, decode-elements}
use ndn_multi_party_signatur.Crypto.Agree.{derive_secret-derive_secret}
use ndn_multi_party_signatur.Protocol.{
  processing, code_text, status_type, salt_type, ecdh_pub_type, result_after_type, result_name_type,
}
use ndn_multi_party_signatur.Signer.{
  SignRequestState, ack_payload, ack_content, first_result_name, generate_sign_request_ack,
}
use ndn_multi_party_signatur.Signer.Taken.{Taken}
use ndn_multi_party_signatur.Initiator.Rpc.{MultiSignPerSignerState, copy_salt, parse_ack_reply}

module _
    {Name Info Data Interest Secret Public Signature Block Ctx Pkey EcKey Group Point Tpm : Type 0}
    (w : Services Name Info Data Interest Secret Public Signature Block Ctx Pkey EcKey Group Point
      Tpm)
    ⦃N : NdnName Name⦄ (estimate : ℕ) where
  -- The two elements of what an ack encrypts.
  elements-ack_payload :
      (result_name : Name)
      → w.blocks.elements
          (w.blocks.binary_block content_type (w.blocks.value (ack_payload w estimate result_name)))
        ≡ ok (
            w.blocks.number_block result_after_type estimate
            ∷ w.blocks.nested_block result_name_type result_name
            ∷ [])
  unfolding ack_payload
  elements-ack_payload result_name =
      let blocks = w.blocks in
      let a = blocks.number_block result_after_type estimate in
      let b = blocks.nested_block result_name_type result_name in
      let start = blocks.new_block encrypted_payload_type in
      blocks.elements-binary_block content_type (blocks.push_back (blocks.push_back start a) b)
        (a ∷ b ∷ [])
        (blocks.elements-push_back (blocks.push_back start a) b (a ∷ [])
          (blocks.elements-push_back start a [] (blocks.elements-new_block encrypted_payload_type)))

  -- What the initiator finds in an ack's content, by its type and behind the encrypted part.
  record Content (key p : Text) (content : Block) (salt self_pub : Text) : Type 0 where
    type_of : w.blocks.type content ≡ content_type
    status :
        w.blocks.get content status_type
        ≡ ok (w.blocks.string_block status_type (code_text processing))
    salt_held : w.blocks.get content salt_type ≡ ok (w.blocks.binary_block salt_type salt)
    key_held :
        w.blocks.get content ecdh_pub_type ≡ ok (w.blocks.binary_block ecdh_pub_type self_pub)
    decrypts : decode_block_with_aes_gcm128 w.blocks w.cipher content key [] ≡ ok p

  ack_content-Content :
      (encrypted : Block) (key p salt self_pub : Text)
      → Encoded w.blocks w.cipher content_type key p [] encrypted
      → Content key p (ack_content w estimate encrypted salt self_pub) salt self_pub
  unfolding ack_content find_element
  ack_content-Content encrypted key p salt self_pub k =
      let blocks = w.blocks in
      let s = blocks.string_block status_type (code_text processing) in
      let t = blocks.binary_block salt_type salt in
      let u = blocks.binary_block ecdh_pub_type self_pub in
      let i = blocks.binary_block initialization_vector_type k.iv in
      let a = blocks.binary_block authentication_tag_type k.tag in
      let c = blocks.binary_block encrypted_payload_type k.ciphertext in
      let one = blocks.push_back encrypted s in
      let two = blocks.push_back one t in
      let all = blocks.push_back two u in
      let held : blocks.elements (blocks.encode all) ≡ ok (i ∷ a ∷ c ∷ s ∷ t ∷ u ∷ []) =
        blocks.elements-encode all
        ∙ blocks.elements-push_back two u (i ∷ a ∷ c ∷ s ∷ t ∷ []) (
            blocks.elements-push_back one t (i ∷ a ∷ c ∷ s ∷ [])
              (blocks.elements-push_back encrypted s (i ∷ a ∷ c ∷ []) k.held)) in
      let i_type = blocks.type-binary_block initialization_vector_type k.iv in
      let a_type = blocks.type-binary_block authentication_tag_type k.tag in
      let c_type = blocks.type-binary_block encrypted_payload_type k.ciphertext in
      let s_type = blocks.type-string_block status_type (code_text processing) in
      let t_type = blocks.type-binary_block salt_type salt in
      let u_type = blocks.type-binary_block ecdh_pub_type self_pub in
      record {
        type_of =
            rw
              (
                blocks.type-encode, blocks.type-push_back, blocks.type-push_back,
                blocks.type-push_back,
              )
              k.type_of;
        status = rw (blocks.get-elements, held, i_type, a_type, c_type, s_type) refl;
        salt_held = rw (blocks.get-elements, held, i_type, a_type, c_type, s_type, t_type) refl;
        key_held =
            rw (blocks.get-elements, held, i_type, a_type, c_type, s_type, t_type, u_type) refl;
        decrypts =
            decode-elements blocks w.cipher (blocks.encode all) key [] k.iv k.tag k.ciphertext p
              (s ∷ t ∷ u ∷ []) held k.length_iv k.sealed;
      }

  -- An ack that the signer made has such a content.
  generate_sign_request_ack-Content :
      (interest_name self_prefix : Name) (request_id : ℕ) (salt self_pub key random_bytes : Text)
      (ack : Data)
      → length random_bytes ≡ 8
      → generate_sign_request_ack w estimate interest_name self_prefix processing request_id salt
          self_pub key random_bytes
        ≡ ok ack
      → Content key
          (w.blocks.value
            (ack_payload w estimate (first_result_name w estimate self_prefix request_id)))
          (w.info_packets.content ack)
          salt
          self_pub
  unfolding generate_sign_request_ack
  generate_sign_request_ack-Content interest_name self_prefix request_id salt self_pub key
        random_bytes ack len h =
      let p =
        w.blocks.value
          (ack_payload w estimate (first_result_name w estimate self_prefix request_id)) in
      let new = w.info_packets.new_data interest_name in
      elim (Result-cases
        (encode_block_with_aes_gcm128 w.blocks w.cipher content_type key p [] random_bytes)) [
          | inr (x, e) ↦ cc (rw (generate_sign_request_ack, e) at h)
          | inl (encrypted, e) ↦
              let made : w.info_packets.set_content new
                    (ack_content w estimate encrypted salt self_pub)
                  ≡ ack =
                cc (rw (generate_sign_request_ack, e) at h) in
              let c = ack_content-Content encrypted key p salt self_pub (
                encode_block-Encoded w.blocks w.cipher content_type key p [] random_bytes encrypted
                  len e) in
              rw
                (
                  ← made,
                  w.info_packets.content-set_content new
                      (ack_content w estimate encrypted salt self_pub) c.type_of,
                )
                c
        ]

  drop_all : (s unset : Text) → length unset ≡ length s → drop (length s) unset ≡ []
  drop_all [] [] h = refl
  drop_all [] (x ∷ unset) h = absurd (omega (arith, h))
  drop_all (x ∷ s) [] h = refl
  drop_all (x ∷ s) (y ∷ unset) h = drop_all s unset (omega (arith, h))

  copy_salt_full :
      (unset salt : Text) → length unset ≡ 32 → length salt ≡ 32 → copy_salt unset salt ≡ ok salt
  unfolding copy_salt
  copy_salt_full unset salt h k =
      let fits : ltb 32 (length salt) ≡ false = ground (arith, k) in
      rw (copy_salt, fits, drop_all salt unset (omega (arith, h, k))) (ap ok (append-nil salt))

  -- The initiator has what the signer sent.
  pub record Agreed (i i' : MultiSignPerSignerState Name Data Pkey) (aes_key hmac_key : Text)
      (result_name : Name) : Type 0 where
    pub same_aes : i'.aes_key ≡ aes_key
    pub same_hmac : i'.hmac_key ≡ hmac_key
    pub same_name : i'.next_result_name ≡ result_name
    pub same_para : i'.para_data ≡ i.para_data

  parse_ack_reply-Content :
      (unset : Text) (i : MultiSignPerSignerState Name Data Pkey) (ack : Data)
      (aes_key hmac_key salt self_pub secret : Text) (result_name : Name) (ecdh' : EcdhState Pkey)
      → Content aes_key
          (w.blocks.value (ack_payload w estimate result_name))
          (w.info_packets.content ack)
          salt
          self_pub
      → length unset ≡ 32
      → length salt ≡ 32
      → estimate < 2 ^ 64
      → derive_secret w.keys i.ecdh self_pub ≡ ok (ecdh', secret)
      → session_keys w.derivation secret salt ≡ ok (aes_key, hmac_key)
      → (i' : MultiSignPerSignerState Name Data Pkey) × (parse_ack_reply w unset i ack
          ≡ ok (i', estimate))
        × Agreed i i' aes_key hmac_key result_name
  unfolding parse_ack_reply find_element
  parse_ack_reply-Content unset i ack aes_key hmac_key salt self_pub secret result_name ecdh' c hu
        hs he d k =
      let blocks = w.blocks in
      let n = blocks.number_block result_after_type estimate in
      let r = blocks.nested_block result_name_type result_name in
      let n_type = blocks.type-number_block result_after_type estimate in
      let r_type = blocks.type-nested_block result_name_type result_name in
      let plain =
        blocks.binary_block content_type (blocks.value (ack_payload w estimate result_name)) in
      let get_after : blocks.get plain result_after_type ≡ ok n =
        rw (blocks.get-elements, elements-ack_payload result_name, n_type) refl in
      let get_name : blocks.get plain result_name_type ≡ ok r =
        rw (blocks.get-elements, elements-ack_payload result_name, n_type, r_type) refl in
      (
        record i {
          ecdh = ecdh';
          aes_key = aes_key;
          hmac_key = hmac_key;
          next_result_name = result_name;
        },
        rw
            (
              parse_ack_reply,
              c.status,
              blocks.read_string-string_block,
              text_eq_refl (code_text processing),
              c.key_held,
              c.salt_held,
              blocks.value-binary_block salt_type salt,
              copy_salt_full unset salt hu hs,
              blocks.value-binary_block ecdh_pub_type self_pub,
              d,
              k,
              c.decrypts,
              get_after,
              blocks.read_number-number_block result_after_type estimate he,
              get_name,
              blocks.block_from_value-nested_block result_name_type result_name,
              blocks.name_decode-name_encode result_name,
            )
            refl,
        record { same_aes = refl; same_hmac = refl; same_name = refl; same_para = refl },
      )

  -- Where the signer took the request of an initiator that had given it its public key, the
  -- initiator reads the signer's ack and then holds the keys and the result name of the signer.
  pub parse_ack_reply-Taken :
      (unset : Text) (r q : ℕ) (own : EcdhState Pkey) (i : MultiSignPerSignerState Name Data Pkey)
      (public_i : Text) (self_prefix interest_name : Name) (salt : Text) (request_id : ℕ)
      (random_bytes : Text) (s : SignRequestState Pkey) (ack signed : Data)
      → length unset ≡ 32
      → length salt ≡ 32
      → length random_bytes ≡ 8
      → estimate < 2 ^ 64
      → ecdh_new w.keys r ≡ ok own
      → get_self_pub_key w.keys own ≡ ok (i.ecdh, public_i)
      → Taken w estimate self_prefix q salt request_id random_bytes interest_name public_i s ack
      → w.info_packets.content signed ≡ w.info_packets.content ack
      → (i' : MultiSignPerSignerState Name Data Pkey) × (parse_ack_reply w unset i signed
          ≡ ok (i', estimate))
        × Agreed i i' s.aes_key s.hmac_key (first_result_name w estimate self_prefix request_id)
  parse_ack_reply-Taken unset r q own i public_i self_prefix interest_name salt request_id
        random_bytes s ack signed hu hs hr he new gave k same =
      let b = k.started in
      let result_name = first_result_name w estimate self_prefix request_id in
      let (ecdh', derived) =
        derive_secret-derive_secret w.keys r q own i.ecdh b.own k.before.ecdh k.own public_i
          k.self_pub b.secret new gave b.created b.derived k.published in
      let c =
        generate_sign_request_ack-Content interest_name self_prefix request_id salt k.self_pub
          k.before.aes_key random_bytes ack hr k.acked in
      rw k.state (
        parse_ack_reply-Content unset i signed k.before.aes_key k.before.hmac_key salt k.self_pub
          b.secret result_name ecdh' (rw same c) hu hs he derived b.shared)
