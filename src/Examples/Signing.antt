-- ===== src/Examples/Signing.antt =====
-- The theorems on signer lists, signatures, the verifier and the initiator at the packets of
-- `Packets` and the schemas of `Schemas`.
use mathlib.Core.List.{Permᴰ}
use ndn_multi_party_signatur.Prelude.{
  ◌≡◌, refl, ◌↔◌, true, false, [], ◌∷◌, ◌++◌, none, some, Text, codes, ok, map, ◌>>=◌, arith,
}
use ndn_multi_party_signatur.Ordered.{same}
use ndn_multi_party_signatur.Ordered.Map.{lookup}
use ndn_multi_party_signatur.Ordered.Sort.{occurrences}
use ndn_multi_party_signatur.SignerList.{MpsSignerList, equals, wire_encode, wire_decode}
use ndn_multi_party_signatur.SignerList.Laws.{equals_iff, wire_decode-wire_encode}
use ndn_multi_party_signatur.Schema.AggregateKey.{aggregate_key, aggregate_key-aggregate_public_key}
use ndn_multi_party_signatur.Bls.{
  gen_data_signature, sign_data, sign_interest, verify_data, verify_interest, verify_data_all,
  aggregate_buffers, aggregate_signatures, aggregate_public_key,
}
use ndn_multi_party_signatur.Bls.Sign.{sign_data-verify_data, sign_interest-verify_interest}
use ndn_multi_party_signatur.Bls.Aggregate.{
  aggregate_buffers-aggregate_signatures, verify_data_all-aggregate_buffers,
}
use ndn_multi_party_signatur.Bls.Order.{aggregate_public_key-Permᴰ}
use ndn_multi_party_signatur.Verifier.{received, verify, async_verify}
use ndn_multi_party_signatur.Verifier.Decides.{Accepted, verify_iff, async_verify_iff}
use ndn_multi_party_signatur.Initiator.{
  MultiSignGlobalState, start, finish, deliver, prepare_unfinished_data_and_info_data,
}
use ndn_multi_party_signatur.Initiator.Deliver.{deliver-finish, deliver-verify}
use ndn_multi_party_signatur.Examples.Names.{
  PlainName, plain, plain_names, list_ord, component_ord, nat_ord,
}
use ndn_multi_party_signatur.Examples.Schemas.{
  name, key_a, key_b, key_c, key_d, prefix_schema, four_keys, four_signers,
}
use ndn_multi_party_signatur.Examples.Policies.{packet_name, prefix_schema-Decides}
use ndn_multi_party_signatur.Examples.Blocks.{PlainBlock, plain_blocks}
use ndn_multi_party_signatur.Examples.Packets.{
  plain_infos, PlainPacket, plain_data, plain_interests, plain_info_packets, plain_bls,
}

abbrev pub packet : PlainPacket
packet = record {
  packet_name = packet_name;
  body = codes "hello";
  nested = plain 21 [];
  info = none;
  value = [];
}

abbrev four_list : MpsSignerList PlainName
four_list = record { signers = key_a ∷ key_b ∷ key_c ∷ key_d ∷ [] }

equals_iff_example :
    (equals four_list (record { signers = key_d ∷ key_a ∷ [] }) ≡ true)
    ↔ ((k : PlainName) → occurrences k four_list.signers ≡ occurrences k (key_d ∷ key_a ∷ []))
equals_iff_example = equals_iff four_list (record { signers = key_d ∷ key_a ∷ [] })

wire_decode-wire_encode_example :
    wire_decode {Block = PlainBlock} (wire_encode four_list) ≡ ok four_list
wire_decode-wire_encode_example = wire_decode-wire_encode PlainBlock four_list

sign_data-verify_data_example :
    (signed : PlainPacket) × (sign_data plain_infos plain_data plain_interests plain_bls 5 packet
        key_a
      ≡ ok signed)
    × (verify_data plain_infos plain_data plain_interests plain_bls 5 signed ≡ true)
sign_data-verify_data_example =
    sign_data-verify_data plain_infos plain_data plain_interests plain_bls 5 packet key_a

sign_interest-verify_interest_example :
    (signed : PlainPacket) × (sign_interest plain_infos plain_data plain_interests plain_bls 5
        packet key_a
      ≡ ok signed)
    × (verify_interest plain_infos plain_data plain_interests plain_bls 5 signed ≡ true)
sign_interest-verify_interest_example =
    sign_interest-verify_interest plain_infos plain_data plain_interests plain_bls 5 packet key_a

verify_data_all-aggregate_buffers_example :
    (value : Text) × (aggregate_buffers plain_infos plain_data plain_interests plain_bls (
        map
          (λ s. gen_data_signature plain_infos plain_data plain_interests plain_bls s packet)
          (5 ∷ 6 ∷ 7 ∷ []))
      ≡ ok value)
    × (verify_data_all plain_infos plain_data plain_interests plain_bls
          (5 ∷ 6 ∷ 7 ∷ [])
          (plain_data.set_signature_value packet value)
        ≡ ok true)
verify_data_all-aggregate_buffers_example =
    verify_data_all-aggregate_buffers plain_infos plain_data plain_interests plain_bls 5
      (6 ∷ 7 ∷ []) packet

aggregate_buffers-aggregate_signatures_example :
    aggregate_buffers plain_infos plain_data plain_interests plain_bls
      (codes "ab" ∷ codes "cb" ∷ [])
    ≡ (aggregate_signatures plain_infos plain_data plain_interests plain_bls
          (codes "ab" ∷ codes "cb" ∷ [])
        >>= λ s. ok s)
aggregate_buffers-aggregate_signatures_example =
    aggregate_buffers-aggregate_signatures plain_infos plain_data plain_interests plain_bls
      (codes "ab" ∷ codes "cb" ∷ [])

aggregate_public_key-Permᴰ_example :
    aggregate_public_key plain_infos plain_data plain_interests plain_bls (3 ∷ 4 ∷ [])
    ≡ aggregate_public_key plain_infos plain_data plain_interests plain_bls (4 ∷ 3 ∷ [])
aggregate_public_key-Permᴰ_example =
    aggregate_public_key-Permᴰ plain_infos plain_data plain_interests plain_bls
      (Permᴰ.swap refl refl)

four_lookups : map (lookup four_keys.trusted_ids) four_list.signers ≡ map some (1 ∷ 2 ∷ 3 ∷ 4 ∷ [])
unfolding lookup same
four_lookups = refl

aggregate_key-aggregate_public_key_example :
    aggregate_key plain_bls four_keys four_list
    ≡ aggregate_public_key plain_infos plain_data plain_interests plain_bls (1 ∷ 2 ∷ 3 ∷ 4 ∷ [])
aggregate_key-aggregate_public_key_example =
    aggregate_key-aggregate_public_key plain_infos plain_data plain_interests plain_bls four_keys
      four_list 1 (2 ∷ 3 ∷ 4 ∷ []) four_lookups

-- The state that the initiator starts with.
abbrev locator : PlainName
locator = name ("init" ∷ "mps" ∷ []) ++ plain 8 (9 ∷ []) ∷ []

abbrev pub started : MultiSignGlobalState PlainName PlainPacket
started = record {
  signers = four_list;
  schema = prefix_schema;
  to_be_signed = record packet { info = some (record { kind = 64; locator = locator }) };
  sign_info = record {
    packet_name = locator;
    body = [];
    nested = plain 21 [];
    info = none;
    value = [];
  };
  fetched_signatures = [];
  signing_key_name = name ("init" ∷ "KEY" ∷ []);
}

start_run :
    start plain_infos plain_data plain_interests plain_bls plain_info_packets four_keys 9
      (name ("init" ∷ []))
      packet
      prefix_schema
      (name ("init" ∷ "KEY" ∷ []))
    ≡ ok (false, started)
unfolding start prepare_unfinished_data_and_info_data
start_run = rw (start, four_signers) refl

deliver-verify_example :
    (signed : PlainPacket) × (info : PlainPacket) × (deliver plain_infos plain_data plain_interests
        plain_bls plain_info_packets started
        (map
          (λ x.
            gen_data_signature plain_infos plain_data plain_interests plain_bls x
              started.to_be_signed)
          (2 ∷ 1 ∷ 3 ∷ 4 ∷ []))
      ≡ ok (some (signed, info)))
    × (verify plain_infos plain_data plain_interests plain_bls plain_info_packets four_keys signed
          info
        ≡ ok true)
deliver-verify_example =
    deliver-verify plain_infos plain_data plain_interests plain_bls plain_info_packets four_keys 9
      (name ("init" ∷ [])) packet prefix_schema (name ("init" ∷ "KEY" ∷ [])) false started 2
      (1 ∷ 3 ∷ 4 ∷ []) (1 ∷ 2 ∷ 3 ∷ 4 ∷ []) start_run prefix_schema-Decides four_lookups
      (Permᴰ.swap refl refl)

deliver-finish_example :
    deliver plain_infos plain_data plain_interests plain_bls plain_info_packets started
      (codes "a" ∷ codes "b" ∷ codes "c" ∷ codes "d" ∷ [])
    ≡ (finish plain_infos plain_data plain_interests plain_bls plain_info_packets (record started {
      fetched_signatures = codes "a" ∷ codes "b" ∷ codes "c" ∷ codes "d" ∷ [];
    })
        >>= λ x. ok (some x))
deliver-finish_example =
    deliver-finish plain_infos plain_data plain_interests plain_bls plain_info_packets started
      (codes "a") (codes "b" ∷ codes "c" ∷ codes "d" ∷ []) (omega arith)

-- The packets at the end, and an info packet without a signer list.
abbrev signed_packet : PlainPacket
signed_packet = record started.to_be_signed { value = 10 ∷ 64 ∷ codes "hello" }

abbrev info_packet : PlainPacket
info_packet =
    plain_info_packets.key_chain_sign
      (plain_info_packets.set_content started.sign_info (wire_encode four_list)) key_a

verify_iff_example :
    (verify plain_infos plain_data plain_interests plain_bls plain_info_packets four_keys
        signed_packet info_packet
      ≡ ok true)
    ↔ Accepted plain_infos plain_data plain_interests plain_bls plain_info_packets four_keys
        signed_packet info_packet
verify_iff_example =
    verify_iff plain_infos plain_data plain_interests plain_bls plain_info_packets four_keys
      signed_packet info_packet

async_verify_iff_example :
    (async_verify plain_infos plain_data plain_interests plain_bls plain_info_packets four_keys
        (λ n. received info_packet)
        signed_packet
      ≡ ok true)
    ↔ ((n : PlainName) × (info : PlainPacket) × (plain_info_packets.key_locator_name signed_packet
          ≡ ok n)
        × (received info_packet ≡ received info)
        × Accepted plain_infos plain_data plain_interests plain_bls plain_info_packets four_keys
            signed_packet info)
async_verify_iff_example =
    async_verify_iff plain_infos plain_data plain_interests plain_bls plain_info_packets four_keys
      (λ n. received info_packet) signed_packet
