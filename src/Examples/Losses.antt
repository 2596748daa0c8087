-- ===== src/Examples/Losses.antt =====
-- A signature with a lost signer at concrete inputs.
use mathlib.Core.List.{Permᴰ}
use ndn_multi_party_signatur.Prelude.{
  ℕ, ◌≡◌, refl, Bool, true, false, not, ◌&&◌, ◌||◌, Option, none, some, [], ◌∷◌, ◌++◌, Text, ok,
  codes, count_if, text_eq, arith,
}
use ndn_multi_party_signatur.Ordered.{same}
use ndn_multi_party_signatur.Ordered.Set.{contains, insert, insert_all, erase}
use ndn_multi_party_signatur.Ordered.Map.{lookup}
use ndn_multi_party_signatur.Schema.Pattern.{match}
use ndn_multi_party_signatur.Schema.Policy.{
  MultipartySchema, pass_schema, pass_required, total_matched, match_packet,
}
use ndn_multi_party_signatur.Schema.Container.{
  MultipartySchemaContainer, get_matched_keys, gather_matched, get_available_signers,
  choose_required, choose_optional, insert_first, insert_until, container_pass_schema, pass_first,
  all_trusted,
}
use ndn_multi_party_signatur.Schema.Replacement.{
  first_unused, find_new_key, replace_required_step, replace_required, replace_optional,
  mark_unavailable, replacement, replace_signer,
}
use ndn_multi_party_signatur.Schema.Replacement.Grow.{NamedKeys}
use ndn_multi_party_signatur.SignerList.{wire_encode}
use ndn_multi_party_signatur.Bls.{aggregate_buffers, add_all_buffers, gen_data_signature}
use ndn_multi_party_signatur.Verifier.{verify}
use ndn_multi_party_signatur.Initiator.{
  MultiSignGlobalState, start, finish, on_signature, on_unavailable_signer,
  prepare_unfinished_data_and_info_data,
}
use ndn_multi_party_signatur.Initiator.Events.{piece_of, Reached, begin_, answer, loss}
use ndn_multi_party_signatur.Initiator.Events.Ends.{Reached-verify}
use ndn_multi_party_signatur.Examples.Names.{
  PlainName, plain_names, list_ord, component_ord, nat_ord,
}
use ndn_multi_party_signatur.Examples.Schemas.{
  name, key_a, key_b, key_c, key_d, prefix_schema, four_keys,
}
use ndn_multi_party_signatur.Examples.Policies.{packet_name}
use ndn_multi_party_signatur.Examples.Blocks.{plain_blocks}
use ndn_multi_party_signatur.Examples.Packets.{
  PlainPacket, plain_infos, plain_data, plain_interests, plain_info_packets, plain_bls,
}
use ndn_multi_party_signatur.Examples.Signing.{packet, started}

-- One optional signer is enough.
abbrev one_schema : MultipartySchema PlainName
one_schema = record prefix_schema { min_optional_signers = 1 }

abbrev one_keys : MultipartySchemaContainer PlainName ℕ
one_keys = record four_keys { schemas = one_schema ∷ [] }

one_keys-NamedKeys : NamedKeys one_keys
unfolding contains same
one_keys-NamedKeys [] h = cc
one_keys-NamedKeys (c ∷ k) h = ground arith

abbrev secret_of : Option ℕ → ℕ
secret_of none = 0
secret_of (some k) = k

abbrev secret : PlainName → ℕ
secret n = secret_of (lookup four_keys.trusted_ids n)

abbrev first_state : MultiSignGlobalState PlainName PlainPacket
first_state = record started {
  signers = record { signers = key_a ∷ key_b ∷ key_c ∷ [] };
  schema = one_schema;
}

three_signers :
    get_available_signers one_keys one_schema ≡ ok (record { signers = key_a ∷ key_b ∷ key_c ∷ [] })
unfolding get_available_signers choose_required choose_optional insert_first insert_until
    get_matched_keys gather_matched match text_eq contains same insert
three_signers = refl

first_run :
    start plain_infos plain_data plain_interests plain_bls plain_info_packets one_keys 9
      (name ("init" ∷ []))
      packet
      one_schema
      (name ("init" ∷ "KEY" ∷ []))
    ≡ ok (false, first_state)
unfolding start prepare_unfinished_data_and_info_data
first_run = rw (start, three_signers) refl

abbrev piece : PlainName → Text
piece k =
    piece_of plain_infos plain_data plain_interests plain_bls plain_info_packets secret first_state
      k

-- The first answer, the loss, and the second answer.
abbrev answered_state : MultiSignGlobalState PlainName PlainPacket
answered_state = record first_state { fetched_signatures = piece key_a ∷ [] }

abbrev replaced_keys : MultipartySchemaContainer PlainName ℕ
replaced_keys = record one_keys { unavailable_signers = key_c ∷ [] }

abbrev replaced_state : MultiSignGlobalState PlainName PlainPacket
replaced_state = record answered_state { signers = record { signers = key_a ∷ key_b ∷ key_d ∷ [] } }

abbrev nearly_state : MultiSignGlobalState PlainName PlainPacket
nearly_state = record replaced_state { fetched_signatures = piece key_a ∷ piece key_b ∷ [] }

abbrev open_first : PlainName → Bool
open_first j = contains first_state.signers.signers j && not (same key_a j)

abbrev open_replaced : PlainName → Bool
open_replaced j = (open_first j && not (same key_c j)) || contains (key_d ∷ []) j

abbrev open_nearly : PlainName → Bool
open_nearly j = open_replaced j && not (same key_b j)

one_answer :
    Reached plain_infos plain_data plain_interests plain_bls plain_info_packets secret one_keys
      first_state one_keys answered_state
      (key_a ∷ [])
      open_first
unfolding on_signature contains same
one_answer = answer key_a answered_state begin_ refl refl

one_loss :
    Reached plain_infos plain_data plain_interests plain_bls plain_info_packets secret one_keys
      first_state replaced_keys replaced_state
      (key_a ∷ [])
      open_replaced
unfolding on_unavailable_signer replace_signer mark_unavailable replacement replace_required
    replace_required_step replace_optional find_new_key first_unused get_matched_keys gather_matched
    match text_eq contains same insert insert_all erase count_if
one_loss = loss key_c one_answer refl refl

two_answers :
    Reached plain_infos plain_data plain_interests plain_bls plain_info_packets secret one_keys
      first_state replaced_keys nearly_state
      (key_a ∷ key_b ∷ [])
      open_nearly
unfolding on_signature contains same
two_answers = answer key_b nearly_state one_loss refl refl

-- The packets at the end.
abbrev all_pieces : MultiSignGlobalState PlainName PlainPacket
all_pieces = record nearly_state {
  fetched_signatures = piece key_a ∷ piece key_b ∷ piece key_d ∷ [];
}

abbrev signed : PlainPacket
signed = record started.to_be_signed { value = 7 ∷ 64 ∷ codes "hello" }

abbrev info : PlainPacket
info =
    plain_info_packets.key_chain_sign
      (plain_info_packets.set_content started.sign_info (wire_encode replaced_state.signers))
      started.signing_key_name

last_answer :
    on_signature plain_infos plain_data plain_interests plain_bls plain_info_packets nearly_state (
      piece_of plain_infos plain_data plain_interests plain_bls plain_info_packets secret
        nearly_state key_d)
    ≡ ok (record all_pieces { to_be_signed = signed; sign_info = info }, some (signed, info))
unfolding on_signature finish aggregate_buffers add_all_buffers gen_data_signature lookup same
last_answer = refl

keys_kept :
    (n : PlainName) (p : ℕ)
    → lookup four_keys.trusted_ids n ≡ some p
    → p ≡ plain_bls.public_key (secret n)
keys_kept n p h = rw h refl

replaced_passes : container_pass_schema one_keys packet_name nearly_state.signers ≡ true
unfolding container_pass_schema pass_first all_trusted match_packet pass_schema pass_required
    total_matched count_if match text_eq lookup same
replaced_passes = refl

Reached-verify_example :
    Permᴰ ((key_a ∷ key_b ∷ []) ++ key_d ∷ []) (key_a ∷ key_b ∷ key_d ∷ [])
    × (verify plain_infos plain_data plain_interests plain_bls plain_info_packets one_keys signed
          info
        ≡ ok true)
unfolding contains same
Reached-verify_example =
    Reached-verify plain_infos plain_data plain_interests plain_bls plain_info_packets secret
      one_keys replaced_keys one_keys 9 (name ("init" ∷ [])) packet one_schema
      (name ("init" ∷ "KEY" ∷ [])) false first_state nearly_state
      (record all_pieces { to_be_signed = signed; sign_info = info }) (key_a ∷ key_b ∷ [])
      open_nearly key_d signed info one_keys-NamedKeys first_run two_answers refl last_answer
      keys_kept replaced_passes
