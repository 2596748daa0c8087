-- ===== src/Examples/Exchanges.antt =====
-- A request from one initiator to one signer at concrete inputs.
use ndn_multi_party_signatur.Prelude.{
  if◌then◌else◌, ℕ, ◌≡◌, refl, codes, length, arith, true, [], ◌∷◌, none, some, Option, Text,
  replicate, text_eq, ok, throws, Result,
}
use ndn_multi_party_signatur.Tlv.{find_element}
use ndn_multi_party_signatur.Packets.{content_type}
use ndn_multi_party_signatur.Crypto.{
  EcdhState, ecdh_new, get_self_pub_key, derive_secret, session_keys, hkdf,
  base64_encode_from_bytes, aes_gcm128_encrypt, aes_gcm128_decrypt, sealed_block,
  encode_block_with_aes_gcm128, decode_block_with_aes_gcm128,
}
use ndn_multi_party_signatur.Bls.{gen_data_signature, sign_data, sign_data_with}
use ndn_multi_party_signatur.Protocol.{processing, ok_code}
use ndn_multi_party_signatur.Signer.{
  SignRequestState, on_sign_request, parse_sign_request_payload, accept, take_request,
  new_request_state, sign_ack, generate_sign_request_ack, first_result_name, ack_payload,
  ack_content, on_parameter_data, parse_parameter_data, on_result_request, generate_result_data,
  result_payload,
}
use ndn_multi_party_signatur.Initiator.Rpc.{
  MultiSignPerSignerState, perform_rpc, prepare_parameter_data, prepare_sign_request_interest,
  on_ack_data, parse_ack_reply, copy_salt, on_result_data, take_piece, fetch_again,
}
use ndn_multi_party_signatur.Examples.Names.{PlainName, plain, plain_names}
use ndn_multi_party_signatur.Examples.Schemas.{key_a, key_b, key_c, key_d}
use ndn_multi_party_signatur.Examples.Blocks.{PlainBlock, plain_blocks}
use ndn_multi_party_signatur.Examples.Packets.{
  PlainPacket, plain_infos, plain_data, plain_interests, plain_bls,
}
use ndn_multi_party_signatur.Examples.Parties.{plain_services, plain_cipher, PlainTpm, no_keys}
use ndn_multi_party_signatur.Signer.Reveals.{Steps, start_of, then_, parameter}
use ndn_multi_party_signatur.Signer.Taken.{on_sign_request-Steps}
use ndn_multi_party_signatur.Exchange.Parameters.{
  parse-prepare_sign_request, parse_parameter_data-prepare,
}
use ndn_multi_party_signatur.Exchange.Result.{on_result_data-on_result_request}
use ndn_multi_party_signatur.Exchange.Piece.{request-take_piece}
use ndn_multi_party_signatur.Examples.Signing.{packet}

abbrev or_else : {A : Type 0} → A → Result A → A
or_else a (ok b) = b
or_else a (throws e) = a

abbrev salt : Text
salt = replicate 32 1

abbrev unset : Text
unset = replicate 32 0

abbrev random_i : Text
random_i = replicate 8 2

abbrev random_s : Text
random_s = replicate 8 3

abbrev no_ecdh : EcdhState ℕ
no_ecdh = record { privkey = 0; pub_key = []; secret = [] }

abbrev no_request : MultiSignPerSignerState PlainName PlainPacket ℕ
no_request = record {
  signer_key_name = [];
  ecdh = no_ecdh;
  aes_key = [];
  hmac_key = [];
  para_data = packet;
  published = none;
  next_result_name = [];
}

abbrev no_state : SignRequestState ℕ
no_state = record {
  ecdh = no_ecdh;
  aes_key = [];
  code = processing;
  signature_value = [];
  version = 0;
  registered = true;
  hmac_key = [];
}

abbrev begun : MultiSignPerSignerState PlainName PlainPacket ℕ × PlainPacket
begun = or_else (no_request, packet) (perform_rpc plain_services 3 7 key_a key_b packet key_c)

abbrev taken : PlainPacket × Option (SignRequestState ℕ × PlainName)
taken =
    or_else (packet, none)
      (on_sign_request plain_services 100 5 key_c key_d (λ i. true) 9 salt 4 random_s begun.1)

abbrev pending : Option (SignRequestState ℕ × PlainName) → SignRequestState ℕ × PlainName
pending none = (no_state, [])
pending (some s) = s

abbrev acked : PlainTpm × MultiSignPerSignerState PlainName PlainPacket ℕ × Option ℕ
acked =
    or_else (no_keys, no_request, none)
      (on_ack_data plain_services unset random_i no_keys begun.0 taken.0)

begun_run : perform_rpc plain_services 3 7 key_a key_b packet key_c ≡ ok begun
unfolding perform_rpc ecdh_new get_self_pub_key
begun_run = refl

taken_run :
    on_sign_request plain_services 100 5 key_c key_d (λ i. true) 9 salt 4 random_s begun.1
    ≡ ok (taken.0, some (pending taken.1))
unfolding perform_rpc ecdh_new get_self_pub_key prepare_sign_request_interest prepare_parameter_data
    on_sign_request parse_sign_request_payload find_element accept take_request new_request_state
    derive_secret session_keys hkdf generate_sign_request_ack encode_block_with_aes_gcm128
    aes_gcm128_encrypt sign_ack gen_data_signature sign_data sign_data_with base64_encode_from_bytes
    sealed_block ack_content ack_payload first_result_name
taken_run = refl

acked_run : on_ack_data plain_services unset random_i no_keys begun.0 taken.0 ≡ ok acked
unfolding perform_rpc ecdh_new get_self_pub_key prepare_sign_request_interest prepare_parameter_data
    on_sign_request parse_sign_request_payload find_element accept take_request new_request_state
    derive_secret session_keys hkdf generate_sign_request_ack encode_block_with_aes_gcm128
    aes_gcm128_encrypt sign_ack gen_data_signature sign_data sign_data_with base64_encode_from_bytes
    sealed_block ack_content ack_payload first_result_name on_ack_data parse_ack_reply copy_salt
    text_eq decode_block_with_aes_gcm128 aes_gcm128_decrypt
acked_run = refl

-- The packet that the signer fetches, its state with the signature, and its answer.
abbrev fetched : PlainPacket
fetched = (plain_services.parts.hmac_sign acked.0 acked.1.hmac_key acked.1.para_data).1

abbrev signed_state : SignRequestState ℕ
signed_state = record no_state {
  aes_key = 14 ∷ [];
  hmac_key = 15 ∷ [];
  code = ok_code;
  signature_value = codes "piece";
}

abbrev waiting : MultiSignPerSignerState PlainName PlainPacket ℕ
waiting = record no_request { aes_key = 14 ∷ []; hmac_key = 15 ∷ [] }

abbrev result_five : PlainName
result_five = plain 8 [] ∷ plain 8 [] ∷ plain 8 [] ∷ plain 8 [] ∷ plain 54 [] ∷ []

abbrev answered : PlainTpm × SignRequestState ℕ × Result (Option PlainPacket)
answered = on_result_request plain_services 100 no_keys signed_state [] [] result_five random_s

abbrev answer_of : Result (Option PlainPacket) → PlainPacket
answer_of (throws e) = packet
answer_of (ok none) = packet
answer_of (ok (some d)) = d

answered_run :
    on_result_request plain_services 100 no_keys signed_state [] [] result_five random_s
    ≡ (answered.0, answered.1, ok (some (answer_of answered.2)))
unfolding on_result_request generate_result_data result_payload encode_block_with_aes_gcm128
    aes_gcm128_encrypt sealed_block
answered_run = refl

parse-prepare_sign_request_example :
    parse_sign_request_payload plain_services (
      plain_services.parts.make_signed_interest
        (prepare_sign_request_interest plain_services key_a key_b (codes "public"))
        key_c)
    ≡ ok (key_b, codes "public")
parse-prepare_sign_request_example =
    parse-prepare_sign_request plain_services key_a key_b key_c (codes "public")

abbrev parameters : PlainPacket
parameters = prepare_parameter_data plain_services 7 packet key_a

abbrev sealed_parameters : PlainBlock
sealed_parameters = or_else (plain 0 []) (
    encode_block_with_aes_gcm128 plain_blocks plain_cipher content_type (14 ∷ [])
      parameters.nested.text [] random_i)

sealed_parameters_run :
    encode_block_with_aes_gcm128 plain_blocks plain_cipher content_type
      (14 ∷ [])
      parameters.nested.text
      []
      random_i
    ≡ ok sealed_parameters
unfolding encode_block_with_aes_gcm128 aes_gcm128_encrypt sealed_block prepare_parameter_data
sealed_parameters_run = refl

parse_parameter_data-prepare_example :
    parse_parameter_data plain_services
      (plain_services.parts.hmac_sign no_keys
        (15 ∷ [])
        (plain_services.info_packets.set_content parameters sealed_parameters)).1
      (14 ∷ [])
    ≡ ok packet
parse_parameter_data-prepare_example =
    parse_parameter_data-prepare plain_services 7 packet key_a no_keys (14 ∷ []) (15 ∷ []) random_i
      sealed_parameters refl sealed_parameters_run

on_result_data-on_result_request_example :
    on_result_data plain_services answered.0 waiting (answer_of answered.2)
    ≡ ok (take_piece (codes "piece"))
unfolding on_result_request generate_result_data result_payload encode_block_with_aes_gcm128
    aes_gcm128_encrypt text_eq
on_result_data-on_result_request_example =
    on_result_data-on_result_request plain_services 100 no_keys answered.0 answered.0 signed_state
      answered.1 waiting [] [] result_five random_s (answer_of answered.2) refl refl refl refl refl
      answered_run

abbrev piece : Text
piece = gen_data_signature plain_infos plain_data plain_interests plain_bls 5 packet

-- The key chain that the initiator has signed with has the key of the signer's state.
shared_key : acked.0 (pending taken.1).0.hmac_key ≡ true
unfolding perform_rpc ecdh_new get_self_pub_key prepare_sign_request_interest prepare_parameter_data
    on_sign_request parse_sign_request_payload find_element accept take_request new_request_state
    derive_secret session_keys hkdf generate_sign_request_ack encode_block_with_aes_gcm128
    aes_gcm128_encrypt sign_ack gen_data_signature sign_data sign_data_with base64_encode_from_bytes
    sealed_block ack_content ack_payload first_result_name on_ack_data parse_ack_reply copy_salt
    text_eq decode_block_with_aes_gcm128 aes_gcm128_decrypt
shared_key = refl

-- With a key chain without the key the signer drops the packet.
packet_dropped :
    on_parameter_data plain_services 5 (λ d. true) no_keys (pending taken.1).0 fetched
    ≡ (pending taken.1).0
unfolding on_parameter_data
packet_dropped = refl

request-take_piece_example :
    let has = acked.0 (pending taken.1).0.hmac_key in
    ((pending taken.1).1 ≡ begun.0.para_data.packet_name)
    × (acked.2 ≡ some 100)
    × ((published : PlainPacket) × (acked.1.published ≡ some published)
        × (acked.0 (pending taken.1).0.hmac_key ≡ true)
        × (let t =
              on_parameter_data plain_services 5
                (λ d. true)
                acked.0
                (pending taken.1).0
                published in
            (t ≡ (
              if has
              then record (pending taken.1).0 { code = ok_code; signature_value = piece }
              else (pending taken.1).0))
            × ((ts1 ts2 u : PlainTpm) (t' : SignRequestState ℕ)
                  (result_prefix result_name : PlainName) (random_bytes : Text)
                  (result : PlainPacket)
                → u (pending taken.1).0.hmac_key ≡ true
                → length random_bytes ≡ 8
                → on_result_request plain_services 100 ts1 t key_d result_prefix result_name
                    random_bytes
                  ≡ (ts2, t', ok (some result))
                → on_result_data plain_services u acked.1 result
                  ≡ ok (if has then take_piece piece else fetch_again 100))))
request-take_piece_example =
    request-take_piece plain_services unset random_i 3 7 key_a key_b key_c packet begun.0 acked.1
      begun.1 acked.2 100 5 key_c key_d (λ i. true) (λ d. true) 9 salt 4 random_s taken.0
      (pending taken.1).0 (pending taken.1).1 no_keys acked.0 acked.0 refl refl refl refl
      (omega arith) begun_run taken_run acked_run refl

one_answer :
    Steps plain_services 100 5
      (λ d. true)
      key_d
      key_a
      (pending taken.1).0
      (on_parameter_data plain_services 5 (λ d. true) acked.0 (pending taken.1).0 fetched)
one_answer = then_ start_of (parameter acked.0 (pending taken.1).0 fetched)

on_sign_request-Steps_example :
    (true ≡ true)
    × (true ≡ true)
    × ((peer : Text) × (parse_sign_request_payload plain_services begun.1
          ≡ ok ((pending taken.1).1, peer)))
    × ((on_parameter_data plain_services 5 (λ d. true) acked.0 (pending taken.1).0 fetched).code
          ≡ ok_code
        → (unsigned : PlainPacket) × (true ≡ true)
          × ((on_parameter_data plain_services 5
                (λ d. true)
                acked.0
                (pending taken.1).0
                fetched).signature_value
              ≡ gen_data_signature plain_infos plain_data plain_interests plain_bls 5 unsigned))
on_sign_request-Steps_example =
    on_sign_request-Steps plain_services 100 5 key_c key_d (λ i. true) 9 salt 4 random_s begun.1
      taken.0 (pending taken.1).0
      (on_parameter_data plain_services 5 (λ d. true) acked.0 (pending taken.1).0 fetched)
      (pending taken.1).1 (λ d. true) key_a taken_run one_answer
