-- ===== src/Examples/Certificates.antt =====
-- The theorem on a new signer at concrete inputs.
use ndn_multi_party_signatur.Prelude.{ℕ, ◌≡◌, refl, false, true, [], ◌∷◌, ◌++◌, Text, ok, arith}
use ndn_multi_party_signatur.Bls.{init, verify_data}
use ndn_multi_party_signatur.Bls.Certificate.{Certificates, gen_self_signed_certificate}
use ndn_multi_party_signatur.Signer.New.{
  BlsSigner, KeyMaking, bls_signer_new, bls_signer_new-verify_data,
}
use ndn_multi_party_signatur.Examples.Names.{PlainName, plain, plain_names}
use ndn_multi_party_signatur.Examples.Schemas.{name, key_a}
use ndn_multi_party_signatur.Examples.Packets.{
  PlainInfo, PlainPacket, plain_infos, plain_data, plain_interests, plain_info_packets, plain_bls,
}

abbrev plain_certificates : Certificates PlainName PlainInfo PlainPacket ℕ Text plain_infos
plain_certificates = record {
  new_certificate = λ n. plain_info_packets.new_data n;
  set_key_type = λ d. record d { nested = plain 24 (2 ∷ []) };
  set_bytes = λ d s. record d { body = s };
  set_validity_period = λ i period. record i { locator = i.locator ++ plain 253 period ∷ [] };
  serialize_key = λ k. k ∷ [];
  number_text = λ n. n ∷ [];
  signature_type-set_validity_period = λ i period. refl;
}

last-not_empty : (n : PlainName) (t : ℕ) → plain_names.empty (n ++ plain 56 (t ∷ []) ∷ []) ≡ false
last-not_empty [] t = ground arith
last-not_empty (c ∷ n) t = ground arith

abbrev plain_keys : KeyMaking PlainName ℕ
plain_keys = record {
  random_secret = λ r. r;
  append_timestamp = λ n t. n ++ plain 56 (t ∷ []) ∷ [];
  empty-append_timestamp = last-not_empty;
}

abbrev new_signer : BlsSigner PlainName ℕ ℕ
new_signer = record {
  prefix = key_a;
  key_name = key_a ++ name ("KEY" ∷ []) ++ plain 56 (8 ∷ []) ∷ [];
  sk = 5;
  pk = 5;
  invocation_prefix = key_a ++ name ("mps" ∷ "sign" ∷ []);
}

new_signer_run :
    bls_signer_new plain_infos plain_data plain_interests plain_bls plain_keys false key_a [] 5 8
    ≡ ok (true, new_signer)
unfolding bls_signer_new init
new_signer_run = refl

bls_signer_new-verify_data_example :
    (plain_names.empty new_signer.key_name ≡ false)
    × ((cert : PlainPacket) × (gen_self_signed_certificate plain_infos plain_data plain_interests
            plain_bls plain_certificates 3 new_signer.key_name new_signer.pk new_signer.sk
            (6 ∷ [])
          ≡ ok cert)
        × (verify_data plain_infos plain_data plain_interests plain_bls new_signer.pk cert ≡ true))
bls_signer_new-verify_data_example =
    bls_signer_new-verify_data plain_infos plain_data plain_interests plain_bls plain_keys
      plain_certificates false true key_a [] 5 8 3 (6 ∷ []) new_signer new_signer_run
