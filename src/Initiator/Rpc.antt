-- ===== src/Initiator/Rpc.antt =====
-- The requests of MPSInitiator to one signer, of src/initiator.cpp: performRPC with the functions
-- that it calls. Random numbers and bytes are arguments; freshness periods, logs and timing are left
-- out.
use ndn_multi_party_signatur.Prelude.{
  ℕ, not, Option, none, some, [], ◌++◌, Text, codes, text_eq, length, drop, ltb, Result, ok, throws,
  rejected_by_signer, out_of_bounds, if◌then◌else◌, ◌>>=◌,
}
use ndn_multi_party_signatur.Ndn.{NdnName}
use ndn_multi_party_signatur.Packets.{content_type}
use ndn_multi_party_signatur.Messages.{Services, application_parameters_type}
use ndn_multi_party_signatur.Crypto.{
  EcdhState, ecdh_new, get_self_pub_key, derive_secret, session_keys, encode_block_with_aes_gcm128,
  decode_block_with_aes_gcm128,
}
use ndn_multi_party_signatur.Protocol.{
  processing, ok_code, code_text, ecdh_pub_type, salt_type, status_type, parameter_data_name_type,
  result_after_type, result_name_type, bls_sig_value_type,
}

-- MultiSignPerSignerState: the keys are set by the ack, and `published` is the value of the promise
-- for the parameter packet.
pub record MultiSignPerSignerState (Name Data Pkey : Type 0) : Type 0 where
  pub signer_key_name : Name
  pub ecdh : EcdhState Pkey
  pub aes_key : Text
  pub hmac_key : Text
  pub para_data : Data
  pub published : Option Data
  pub next_result_name : Name

-- What the handler of a result Data packet goes on to do.
pub data ResultAction : Type 0 where
  drop_result : ResultAction
  take_piece : Text → ResultAction
  replace : ResultAction
  fetch_again : ℕ → ResultAction

-- std::memcpy of a salt block into the 32 bytes of an array, which no one has set before.
unfoldable pub copy_salt : Text → Text → Result Text
copy_salt unset v =
    if ltb 32 (length v) then throws out_of_bounds else ok (v ++ drop (length v) unset)

module _
    {Name Info Data Interest Secret Public Signature Block Ctx Pkey EcKey Group Point Tpm : Type 0}
    (w : Services Name Info Data Interest Secret Public Signature Block Ctx Pkey EcKey Group Point
      Tpm) where
  -- parseAckReply: the state with the session keys and the name of the result, and the time after
  -- which the result is fetched.
  unfoldable pub parse_ack_reply :
      Text
      → MultiSignPerSignerState Name Data Pkey
      → Data
      → Result (MultiSignPerSignerState Name Data Pkey × ℕ)
  parse_ack_reply unset s ack =
      let content = w.info_packets.content ack in
      w.blocks.get content status_type >>= λ status.
      if not (text_eq (w.blocks.read_string status) (code_text processing))
      then throws rejected_by_signer
      else do
        ecdh_block ← w.blocks.get content ecdh_pub_type
        salt_block ← w.blocks.get content salt_type
        salt ← copy_salt unset (w.blocks.value salt_block)
        (ecdh', secret) ← derive_secret w.keys s.ecdh (w.blocks.value ecdh_block)
        (aes_key, hmac_key) ← session_keys w.derivation secret salt
        bytes ← decode_block_with_aes_gcm128 w.blocks w.cipher content aes_key []
        let decrypted = w.blocks.binary_block content_type bytes
        after ← w.blocks.get decrypted result_after_type
        result_ms ← w.blocks.read_number after
        name_block ← w.blocks.get decrypted result_name_type
        inner ← w.blocks.block_from_value name_block
        result_name ← w.blocks.name_decode inner
        ok (
          record s {
            ecdh = ecdh';
            aes_key = aes_key;
            hmac_key = hmac_key;
            next_result_name = result_name;
          },
          result_ms,
        )

  -- The handler of the ack, with the TPM of the initiator's key chain: the parameter packet is
  -- encrypted, signed and published, and the time is that of the result; none where the ack is
  -- dropped. What a dropped ack has set is not used again, since no packet is published then.
  unfoldable pub on_ack_data :
      Text
      → Text
      → Tpm
      → MultiSignPerSignerState Name Data Pkey
      → Data
      → Result (Tpm × MultiSignPerSignerState Name Data Pkey × Option ℕ)
  on_ack_data unset random_bytes tpm s ack = elim (parse_ack_reply unset s ack) [
    | throws e ↦ ok (tpm, s, none)
    | ok (s', result_ms) ↦
        encode_block_with_aes_gcm128 w.blocks w.cipher content_type s'.aes_key
          (w.blocks.value (w.info_packets.content s'.para_data)) [] random_bytes
        >>= λ encrypted.
            let (tpm', packet) =
              w.parts.hmac_sign tpm s'.hmac_key
                (w.info_packets.set_content s'.para_data encrypted) in
            ok (tpm', record s' { para_data = packet; published = some packet }, some result_ms)
  ]

  -- parseResultData
  unfoldable pub parse_result_data : Data → Text → Result Block
  parse_result_data packet aes_key = do
    bytes ←
        decode_block_with_aes_gcm128 w.blocks w.cipher (w.info_packets.content packet) aes_key []
    let decrypted = w.blocks.binary_block content_type bytes
    items ← w.blocks.elements decrypted
    ok decrypted

  -- The handler of a result Data packet. The new name of the result is read and not kept.
  unfoldable pub on_result_data :
      Tpm → MultiSignPerSignerState Name Data Pkey → Data → Result ResultAction
  on_result_data tpm s result =
      if not (w.parts.hmac_verify tpm (w.parts.hmac_name s.hmac_key) result)
      then ok drop_result
      else parse_result_data result s.aes_key >>= λ block.
          w.blocks.get block status_type >>= λ status.
          let code = w.blocks.read_string status in
          if text_eq code (code_text ok_code)
          then (w.blocks.get block bls_sig_value_type >>= λ sig_block.
              ok (take_piece (w.blocks.value sig_block)))
          else if not (text_eq code (code_text processing))
          then ok replace
          else do
            after ← w.blocks.get block result_after_type
            result_ms ← w.blocks.read_number after
            name_block ← w.blocks.get block result_name_type
            inner ← w.blocks.block_from_value name_block
            new_result_name ← w.blocks.name_decode inner
            ok (fetch_again result_ms)

module _
    {Name Info Data Interest Secret Public Signature Block Ctx Pkey EcKey Group Point Tpm : Type 0}
    (w : Services Name Info Data Interest Secret Public Signature Block Ctx Pkey EcKey Group Point
      Tpm)
    ⦃N : NdnName Name⦄ where
  -- prepareParameterData
  unfoldable pub prepare_parameter_data : ℕ → Data → Name → Data
  prepare_parameter_data randomness unfinished prefix =
      let name =
        w.info_packets.append_number
          (N.append_text (N.append_text prefix (codes "mps")) (codes "param")) randomness in
      w.info_packets.set_content (w.info_packets.new_data name) (w.wires.wire unfinished)

  -- prepareSignRequestInterest
  unfoldable pub prepare_sign_request_interest : Name → Name → Text → Interest
  prepare_sign_request_interest signer_prefix para_data_name self_pub =
      let name = N.append_text (N.append_text signer_prefix (codes "mps")) (codes "sign") in
      let parameters = w.blocks.encode (
        w.blocks.push_back
          (w.blocks.push_back (w.blocks.new_block application_parameters_type)
            (w.blocks.nested_block parameter_data_name_type para_data_name))
          (w.blocks.binary_block ecdh_pub_type self_pub)) in
      w.parts.set_application_parameters (w.parts.new_interest name) parameters

  -- performRPC up to the Interest for the ack: the state, and the Interest that it sends.
  unfoldable pub perform_rpc :
      ℕ → ℕ → Name → Name → Data → Name → Result (MultiSignPerSignerState Name Data Pkey × Interest)
  perform_rpc randomness para_randomness prefix signing_key_name to_be_signed signer_key_name = do
    ecdh ← ecdh_new w.keys randomness
    let para_data = prepare_parameter_data para_randomness to_be_signed prefix
    (ecdh', self_pub) ← get_self_pub_key w.keys ecdh
    let interest =
        prepare_sign_request_interest (w.parts.prefix_without 2 signer_key_name)
          (w.info_packets.packet_name para_data) self_pub
    ok (
      record {
        signer_key_name = signer_key_name;
        ecdh = ecdh';
        aes_key = [];
        hmac_key = [];
        para_data = para_data;
        published = none;
        next_result_name = N.empty_name;
      },
      w.parts.make_signed_interest interest signing_key_name,
    )
