-- ===== src/Examples/Requests.antt =====
-- The theorem on a lost signer at a concrete input.
use ndn_multi_party_signatur.Prelude.{◌≡◌, ◌⊎◌, true, false, []}
use ndn_multi_party_signatur.Schema.Policy.Distinct.{Required}
use ndn_multi_party_signatur.Schema.Replacement.Promise.{Replaced}
use ndn_multi_party_signatur.Schema.Policy.{pass_schema}
use ndn_multi_party_signatur.Schema.Replacement.Renewed.{remaining}
use ndn_multi_party_signatur.Initiator.{MultiSignGlobalState, on_unavailable_signer}
use ndn_multi_party_signatur.Initiator.Unavailable.{
  on_unavailable_signer-Required, on_unavailable_signer-shortfall,
}
use ndn_multi_party_signatur.Examples.Names.{
  PlainName, plain_names, list_ord, component_ord, nat_ord,
}
use ndn_multi_party_signatur.Examples.Schemas.{key_c, prefix_schema, four_keys}
use ndn_multi_party_signatur.Examples.Policies.{
  four_keys-NamedKeys, four_names-Distinct, four_names-pass_schema, two_keys, a_and_c, one_and_one,
  a_and_c_needed,
}
use ndn_multi_party_signatur.Examples.Packets.{PlainPacket}
use ndn_multi_party_signatur.Examples.Signing.{started}

on_unavailable_signer-Required_example :
    let (c', g', asked, failed) = on_unavailable_signer four_keys started key_c in
    ((failed ≡ true) × (asked ≡ []) × (g' ≡ started))
    ⊎ ((failed ≡ false)
        × Required prefix_schema.signers g'.signers.signers
        × Replaced four_keys started.signers key_c g'.signers asked)
on_unavailable_signer-Required_example =
    on_unavailable_signer-Required four_keys started key_c four_keys-NamedKeys four_names-Distinct
      four_names-pass_schema

abbrev lost_state : MultiSignGlobalState PlainName PlainPacket
lost_state = record started { signers = a_and_c; schema = one_and_one }

on_unavailable_signer-shortfall_example :
    let (c', g', asked, failed) = on_unavailable_signer two_keys lost_state key_c in
    (failed ≡ false)
    × (asked ≡ [])
    × (g'.signers.signers ≡ remaining a_and_c key_c)
    × (pass_schema one_and_one g'.signers.signers ≡ false)
on_unavailable_signer-shortfall_example =
    on_unavailable_signer-shortfall two_keys lost_state key_c a_and_c_needed.0 a_and_c_needed.1
      a_and_c_needed.2 a_and_c_needed.3
