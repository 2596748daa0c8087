-- ===== src/Signer.antt =====
-- BLSSigner of include/ndnmps/signer.hpp and src/signer.cpp: the answers to a sign request and the
-- state that it makes. Random numbers and what the callbacks answer are arguments; freshness
-- periods, logs and timing are left out.
pub mod Reveals
pub mod Taken
pub mod New
use ndn_multi_party_signatur.Prelude.{
  ℕ, ◌+◌, Bool, true, false, not, ◌||◌, ◌==◌, Option, none, some, List, [], Text, codes, Result, ok,
  throws, if◌then◌else◌, ◌>>=◌,
}
use ndn_multi_party_signatur.Ndn.{NdnName}
use ndn_multi_party_signatur.Packets.{content_type}
use ndn_multi_party_signatur.Bls.{gen_data_signature, sign_data}
use ndn_multi_party_signatur.Messages.{Services}
use ndn_multi_party_signatur.Crypto.{
  EcdhState, ecdh_new, get_self_pub_key, derive_secret, session_keys, encode_block_with_aes_gcm128,
  decode_block_with_aes_gcm128, encrypted_payload_type,
}
use ndn_multi_party_signatur.Protocol.{
  ReplyCode, processing, ok_code, unauthorized, failed_dependency, is_processing, is_ok, code_text,
  ecdh_pub_type, salt_type, status_type, parameter_data_name_type, result_after_type,
  result_name_type, bls_sig_value_type,
}

-- SignRequestState, with the HMAC key of its signing info and whether the result prefix is
-- registered.
pub record SignRequestState (Pkey : Type 0) : Type 0 where
  pub ecdh : EcdhState Pkey
  pub aes_key : Text
  pub code : ReplyCode
  pub signature_value : Text
  pub version : ℕ
  pub registered : Bool
  pub hmac_key : Text

module _
    {Name Info Data Interest Secret Public Signature Block Ctx Pkey EcKey Group Point Tpm : Type 0}
    (w : Services Name Info Data Interest Secret Public Signature Block Ctx Pkey EcKey Group Point
      Tpm) where
  -- parseSignRequestPayload: the name of the parameter packet and the peer's public key.
  unfoldable pub parse_sign_request_payload : Interest → Result (Name × Text)
  parse_sign_request_payload interest = do
    let parameters = w.parts.application_parameters interest
    name_block ← w.blocks.get parameters parameter_data_name_type
    inner ← w.blocks.block_from_value name_block
    name ← w.blocks.name_decode inner
    ecdh_block ← w.blocks.get parameters ecdh_pub_type
    ok (name, w.blocks.value ecdh_block)

  -- parseParameterData
  unfoldable pub parse_parameter_data : Data → Text → Result Data
  parse_parameter_data packet aes_key =
      decode_block_with_aes_gcm128 w.blocks w.cipher (w.info_packets.content packet) aes_key []
      >>= λ bytes. w.blocks.block_of_bytes bytes >>= w.wires.of_wire

  -- The handler of the parameter packet, with the callback that is asked about the packet to be
  -- signed and the TPM of the signer's key chain.
  unfoldable pub on_parameter_data :
      Secret → (Data → Bool) → Tpm → SignRequestState Pkey → Data → SignRequestState Pkey
  on_parameter_data key allowed tpm s packet =
      if not (w.parts.hmac_verify tpm (w.parts.hmac_name s.hmac_key) packet)
      then s
      else elim (parse_parameter_data packet s.aes_key) [
        | throws e ↦ record s { code = failed_dependency }
        | ok unsigned ↦
            if not (allowed unsigned) then record s { code = unauthorized } else record s {
              code = ok_code;
              signature_value = gen_data_signature w.infos w.packets w.interests w.bls key unsigned;
            }
      ]

  -- The handlers of a nack and of a timeout.
  unfoldable pub on_parameter_failure : SignRequestState Pkey → SignRequestState Pkey
  on_parameter_failure s = record s { code = failed_dependency }

  -- ndnBLSSign(m_sk, ack, m_keyName)
  unfoldable pub sign_ack : Secret → Name → Data → Result Data
  sign_ack key key_name ack = sign_data w.infos w.packets w.interests w.bls key ack key_name

module _
    {Name Info Data Interest Secret Public Signature Block Ctx Pkey EcKey Group Point Tpm : Type 0}
    (w : Services Name Info Data Interest Secret Public Signature Block Ctx Pkey EcKey Group Point
      Tpm)
    ⦃N : NdnName Name⦄ (estimate : ℕ) where
  -- generateSignRequestAck for a code other than Processing: the status that it writes is Processing.
  unfoldable pub refusal_ack : Name → Data
  refusal_ack interest_name = w.info_packets.set_content (w.info_packets.new_data interest_name) (
      w.blocks.push_back (w.blocks.new_block content_type)
        (w.blocks.string_block status_type (code_text processing)))

  -- The name of the first result of a request.
  unfoldable pub first_result_name : Name → ℕ → Name
  first_result_name self_prefix request_id =
      w.parts.append_version
        (w.info_packets.append_number
          (N.append_text (N.append_text self_prefix (codes "mps")) (codes "result")) request_id)
        0

  -- The block that generateSignRequestAck encrypts.
  unfoldable pub ack_payload : Name → Block
  ack_payload result_name = w.blocks.encode (
      w.blocks.push_back
        (w.blocks.push_back (w.blocks.new_block encrypted_payload_type)
          (w.blocks.number_block result_after_type estimate))
        (w.blocks.nested_block result_name_type result_name))

  -- The rest of the ack's content, after the encrypted part.
  unfoldable pub ack_content : Block → Text → Text → Block
  ack_content encrypted salt self_pub = w.blocks.encode (
      w.blocks.push_back
        (w.blocks.push_back
          (w.blocks.push_back encrypted (w.blocks.string_block status_type (code_text processing)))
          (w.blocks.binary_block salt_type salt))
        (w.blocks.binary_block ecdh_pub_type self_pub))

  -- generateSignRequestAck(interestName, selfPrefix, code, requestId, salt, selfPub, aesKey), with the
  -- random bytes of the encryption.
  unfoldable pub generate_sign_request_ack :
      Name → Name → ReplyCode → ℕ → Text → Text → Text → Text → Result Data
  generate_sign_request_ack interest_name self_prefix code request_id salt self_pub aes_key
        random_bytes =
      if not (is_processing code)
      then ok (refusal_ack interest_name)
      else encode_block_with_aes_gcm128 w.blocks w.cipher content_type aes_key
          (w.blocks.value (ack_payload (first_result_name self_prefix request_id))) [] random_bytes
        >>= λ encrypted. ok (
            w.info_packets.set_content (w.info_packets.new_data interest_name)
              (ack_content encrypted salt self_pub))

  -- The state and the payload of a result: generateResultData up to the encryption.
  unfoldable pub result_payload : SignRequestState Pkey → Name → SignRequestState Pkey × Block
  result_payload s result_prefix =
      let payload =
        w.blocks.push_back (w.blocks.new_block encrypted_payload_type)
          (w.blocks.string_block status_type (code_text s.code)) in
      if is_processing s.code
      then (let version' = s.version + 1 in
          (
            record s { version = version' },
            w.blocks.push_back
                (w.blocks.push_back payload (w.blocks.number_block result_after_type estimate))
                (w.blocks.nested_block result_name_type
                  (w.parts.append_version result_prefix version')),
          ))
      else if is_ok s.code
      then (
        record s { registered = false },
        w.blocks.push_back payload (w.blocks.binary_block bls_sig_value_type s.signature_value),
      )
      else (record s { registered = false }, payload)

  -- generateResultData: the state that it leaves, also where it throws.
  unfoldable pub generate_result_data :
      SignRequestState Pkey → Name → Name → Text → SignRequestState Pkey × Result Data
  generate_result_data s interest_name result_prefix random_bytes =
      let made = result_payload s result_prefix in
      (
        made.0,
        (encode_block_with_aes_gcm128 w.blocks w.cipher content_type s.aes_key
              (w.blocks.value (w.blocks.encode made.1)) [] random_bytes
            >>= λ encrypted.
                ok (w.info_packets.set_content (w.info_packets.new_data interest_name) encrypted)),
      )

  -- The handler of Interests for the result: the TPM of the signer's key chain, the state, and what
  -- it answers, if anything.
  unfoldable pub on_result_request :
      Tpm
      → SignRequestState Pkey
      → Name
      → Name
      → Name
      → Text
      → Tpm × SignRequestState Pkey × Result (Option Data)
  on_result_request tpm s self_prefix result_prefix interest_name random_bytes =
      if not (N.size interest_name == N.size self_prefix + 5)
      then (tpm, s, ok none)
      else (let (s', made) = generate_result_data s interest_name result_prefix random_bytes in
          let answer : Tpm × Result (Option Data) = elim made [
            | throws e ↦ (tpm, throws e)
            | ok result ↦
                (let (tpm', signed) = w.parts.hmac_sign tpm s'.hmac_key result in
                  (tpm', ok (some signed)))
          ] in
          (answer.0, s', answer.1))

  -- The state of a request that is taken, from its randomness, the peer's public key and the salt.
  unfoldable pub new_request_state : ℕ → Text → Text → Result (SignRequestState Pkey)
  new_request_state randomness peer salt = do
    ecdh ← ecdh_new w.keys randomness
    (ecdh', secret) ← derive_secret w.keys ecdh peer
    (aes_key, hmac_key) ← session_keys w.derivation secret salt
    ok (record {
      ecdh = ecdh';
      aes_key = aes_key;
      code = processing;
      signature_value = [];
      version = 0;
      registered = true;
      hmac_key = hmac_key;
    })

  -- The part of onSignRequest for a request that is taken: the ack, and the state.
  unfoldable pub take_request :
      Name → ℕ → Text → ℕ → Text → Name → Text → Result (SignRequestState Pkey × Data)
  take_request self_prefix randomness salt request_id random_bytes interest_name peer = do
    s ← new_request_state randomness peer salt
    (ecdh', self_pub) ← get_self_pub_key w.keys s.ecdh
    ack ←
        generate_sign_request_ack interest_name self_prefix processing request_id salt self_pub
          s.aes_key random_bytes
    ok (record s { ecdh = ecdh' }, ack)

  -- The answer to a request that is refused.
  unfoldable pub refuse :
      Secret → Name → Name → Result (Data × Option (SignRequestState Pkey × Name))
  refuse key key_name interest_name =
      sign_ack w key key_name (refusal_ack interest_name) >>= λ ack. ok (ack, none)

  -- The answer to one that is taken, from the name of the parameter packet and the peer's key.
  unfoldable pub accept :
      Secret
      → Name
      → Name
      → ℕ
      → Text
      → ℕ
      → Text
      → Name
      → Name × Text
      → Result (Data × Option (SignRequestState Pkey × Name))
  accept key key_name self_prefix randomness salt request_id random_bytes interest_name request =
      take_request self_prefix randomness salt request_id random_bytes interest_name request.1
      >>= λ made. sign_ack w key key_name made.1 >>= λ ack. ok (ack, some (made.0, request.0))

  -- onSignRequest, with what the callback says of the Interest: the ack, and for a request that is
  -- taken its state and the name of the parameter packet, which is fetched.
  unfoldable pub on_sign_request :
      Secret
      → Name
      → Name
      → (Interest → Bool)
      → ℕ
      → Text
      → ℕ
      → Text
      → Interest
      → Result (Data × Option (SignRequestState Pkey × Name))
  on_sign_request key key_name self_prefix verify_sign_request randomness salt request_id
        random_bytes interest =
      let interest_name = w.parts.interest_name interest in
      if not (verify_sign_request interest) || not (w.parts.is_parameters_digest_valid interest)
      then refuse key key_name interest_name
      else elim (parse_sign_request_payload w interest) [
        | throws e ↦ refuse key key_name interest_name
        | ok request ↦
            accept key key_name self_prefix randomness salt request_id random_bytes interest_name
              request
      ]
