-- ===== src/Examples/Parties.antt =====
-- Ciphers, keys and messages: instances of what `OpenSsl` and `Messages` ask for. A ciphertext is its
-- plaintext, a tag repeats the first code of the key, and a shared secret is the sum of two keys.
use ndn_multi_party_signatur.Prelude.{
  ℕ, zero, suc, ◌+◌, ◌-◌, ◌≡◌, refl, Bool, true, false, ◌||◌, ◌&&◌, [], ◌∷◌, ◌++◌, Option, none,
  some, Text, text_eq, text_eq_refl, length, take, replicate, arith, if◌then◌else◌,
}
use ndn_multi_party_signatur.OpenSsl.{positive_code, GcmCipher, EcKeys, KeyDerivation}
use ndn_multi_party_signatur.Messages.{MessageParts, Services}
use ndn_multi_party_signatur.Examples.Names.{PlainName, plain}
use ndn_multi_party_signatur.Examples.Blocks.{PlainBlock, plain_blocks}
use ndn_multi_party_signatur.Examples.Packets.{
  PlainInfo, PlainPacket, plain_infos, plain_data, plain_interests, plain_info_packets, plain_wires,
  plain_bls,
}

pub length-replicate : (n a : ℕ) → length (replicate n a) ≡ n
length-replicate zero a = refl
length-replicate (suc n) a = omega (arith, length-replicate n a)

abbrev pub first_code : Text → ℕ
first_code [] = 0
first_code (x ∷ s) = x

pub record PlainCipher : Type 0 where
  pub key : Text
  pub expected : Text

abbrev pub tag_of : PlainCipher → ℕ → Text
tag_of c n = replicate n (first_code c.key)

abbrev pub open_last : PlainCipher → Option Text
open_last c = if text_eq c.expected (tag_of c 16) then some [] else none

pub length-tag :
    (c : PlainCipher) (n : ℕ) (tag : Text)
    → ◌≡◌ {A = Option Text} (some (tag_of c n)) (some tag)
    → length tag ≡ n
length-tag c n tag h =
    let same : tag_of c n ≡ tag = cc in rw (← same) (length-replicate n (first_code c.key))

pub open_last-tag :
    (key tag : Text)
    → ◌≡◌ {A = Option Text} (some (replicate 16 (first_code key))) (some tag)
    → open_last (record { key = key; expected = tag }) ≡ some []
open_last-tag key tag h =
    let same : tag ≡ replicate 16 (first_code key) = cc in
    rw (same, text_eq_refl (replicate 16 (first_code key))) refl

abbrev pub plain_cipher : GcmCipher PlainCipher
plain_cipher = record {
  ctx_new = record { key = []; expected = [] };
  set_iv_length = λ c n. c;
  encrypt_init = λ c. c;
  encrypt_key = λ c key iv. record c { key = key };
  encrypt_associated = λ c s. c;
  encrypt_update = λ c s. (c, s);
  encrypt_final = λ c. (c, []);
  get_tag = λ c n. some (tag_of c n);
  decrypt_init = λ c. c;
  decrypt_key = λ c key iv. record c { key = key };
  decrypt_associated = λ c s. c;
  decrypt_update = λ c s. (c, s);
  set_tag = λ c tag. record c { expected = tag };
  decrypt_final = open_last;
  length-encrypt_update = λ c p. refl;
  length-get_tag = length-tag;
  decrypt-encrypt = λ key iv associated p tag h. (refl, open_last-tag key tag h);
}

pub add_shared :
    (a b e f : ℕ)
    → ◌≡◌ {A = Option ℕ} (some a) (some e)
    → ◌≡◌ {A = Option ℕ} (some b) (some f)
    → a + f ≡ b + e
add_shared a b e f h k =
    let same : a ≡ e = cc in let same' : b ≡ f = cc in omega (arith, same, same')

abbrev pub plain_keys : EcKeys ℕ ℕ ℕ ℕ
plain_keys = record {
  keygen = some;
  get_ec_key = some;
  group = λ k. 0;
  public_point = λ k. k;
  point_to_octets = λ g p. p ∷ [];
  octets_to_point = λ g s. first_code s;
  derive = λ k g p. (positive_code, (k + p) ∷ []);
  curve = 0;
  group-keygen = λ r k e h h'. refl;
  derive_shared = λ a b e f h k g g'. rw (add_shared a b e f h k) refl;
}

abbrev pub plain_derivation : KeyDerivation
plain_derivation = record {
  hkdf_derive = λ secret salt info n. (positive_code, replicate n (first_code secret));
  hmac = λ s key. some (key ++ s);
  base64 = λ s b. s;
  length-hkdf_derive = λ secret salt info n. length-replicate n (first_code secret);
}

-- A TPM says which keys it has; the name of a key is a component with the key.
abbrev pub PlainTpm : Type 0
PlainTpm = Text → Bool

abbrev pub no_keys : PlainTpm
no_keys k = false

abbrev pub key_of : PlainName → Text
key_of [] = []
key_of (c ∷ n) = c.text

-- Signing puts the key into the value of the packet.
abbrev pub with_key : PlainTpm → Text → PlainTpm
with_key t k j = text_eq j k || t j

pub with_key-held : (t : PlainTpm) (k : Text) → with_key t k k ≡ true
with_key-held t k = rw (text_eq_refl k) refl

abbrev pub plain_parts :
    MessageParts PlainName PlainInfo PlainPacket PlainPacket PlainBlock PlainTpm plain_infos
      plain_data plain_blocks plain_info_packets
plain_parts = record {
  append_version = λ n v. n ++ plain 54 (v ∷ []) ∷ [];
  prefix_without = λ k n. take (length n - k) n;
  hmac_name = λ key. plain 8 key ∷ [];
  has_key = λ t n. t (key_of n);
  hmac_sign = λ t key d. (with_key t key, record d { value = key });
  hmac_verify = λ t n d. t (key_of n) && text_eq d.value (key_of n);
  new_interest = λ n. plain_info_packets.new_data n;
  interest_name = λ i. i.packet_name;
  set_application_parameters = λ i b. record i { nested = b };
  application_parameters = λ i. i.nested;
  is_parameters_digest_valid = λ i. true;
  make_signed_interest = λ i n. plain_info_packets.key_chain_sign i n;
  hmac_verify-missing = λ t n d h. rw h refl;
  hmac_verify-hmac_sign = λ t u key d h. rw (h, text_eq_refl key) refl;
  has_key-hmac_sign = λ t key d. with_key-held t key;
  content-hmac_sign = λ t key d. refl;
  application_parameters-set = λ i b h. refl;
  application_parameters-sign = λ i n. refl;
}

abbrev pub plain_services :
    Services PlainName PlainInfo PlainPacket PlainPacket ℕ ℕ Text PlainBlock PlainCipher ℕ ℕ ℕ ℕ
      PlainTpm
plain_services = record {
  infos = plain_infos;
  packets = plain_data;
  interests = plain_interests;
  bls = plain_bls;
  blocks = plain_blocks;
  info_packets = plain_info_packets;
  wires = plain_wires;
  parts = plain_parts;
  cipher = plain_cipher;
  keys = plain_keys;
  derivation = plain_derivation;
}
