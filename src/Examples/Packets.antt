-- ===== src/Examples/Packets.antt =====
-- Packets, blocks and signatures: instances of what `Tlv` and `Packets` ask for. A signature is the
-- signed text behind a number, which for a sum of signatures is the sum of the keys.
use mathlib.Core.List.{append-nil, flatten}
use ndn_multi_party_signatur.Prelude.{
  ℕ, zero, suc, ◌+◌, ◌≡◌, ◌≢◌, refl, Bool, true, false, ◌&&◌, List, [], ◌∷◌, ◌++◌, Option, none,
  some, Text, text_eq, text_eq_refl, Result, ok, throws, bad_tlv, ◌==◌, if◌then◌else◌, ◌>>=◌, arith,
}
use ndn_multi_party_signatur.Packets.{
  SignatureInfos, DataPackets, InterestPackets, InfoPackets, DataWires, BlsLibrary, content_type,
}
use ndn_multi_party_signatur.Examples.Names.{PlainName, plain}
use ndn_multi_party_signatur.Examples.Blocks.{
  PlainBlock, plain_blocks, push, elements-push, block_codes, parse_codes, parse_codes-blocks,
  block_of_codes-block,
}

pub record PlainInfo : Type 0 where
  pub kind : ℕ
  pub locator : PlainName

abbrev pub plain_infos : SignatureInfos PlainName PlainInfo
plain_infos = record {
  signature_type = λ i. i.kind;
  new_info = λ t n. record { kind = t; locator = n };
  signature_type-new_info = λ t n. refl;
}

pub record PlainPacket : Type 0 where
  pub packet_name : PlainName
  pub body : Text
  pub nested : PlainBlock
  pub info : Option PlainInfo
  pub value : Text

abbrev pub info_text : Option PlainInfo → Text
info_text none = []
info_text (some i) = i.kind ∷ []

abbrev pub unsigned_text : PlainPacket → Text
unsigned_text d = info_text d.info ++ d.body

pub flatten_one : (t : Text) → flatten (t ∷ []) ≡ t
unfolding flatten
flatten_one t = append-nil t

abbrev pub plain_data : DataPackets PlainPacket PlainInfo
plain_data = record {
  set_signature_info = λ d i. record d { info = some i };
  set_signature_value = λ d v. record d { value = v };
  signature_value = λ d. d.value;
  encode_unsigned = unsigned_text;
  signed_ranges = λ d. unsigned_text d ∷ [];
  signature_value-set = λ d v. refl;
  flatten-signed_ranges = λ d v. flatten_one (unsigned_text d);
}

abbrev pub is_some : Option PlainInfo → Bool
is_some none = false
is_some (some i) = true

abbrev pub plain_interests : InterestPackets PlainPacket PlainInfo
plain_interests = record {
  set_signature_info = λ d i. record d { info = some i };
  set_signature_value = λ d v. record d { value = v };
  signature_value = λ d. d.value;
  is_signed = λ d. is_some d.info;
  signed_ranges = λ d. info_text d.info ∷ d.body ∷ [];
  signature_value-set = λ d v. refl;
  signed_ranges-set = λ d v. refl;
  is_signed-set = λ d i v. refl;
}

abbrev pub locator_of : Option PlainInfo → Result PlainName
locator_of none = throws bad_tlv
locator_of (some i) = ok i.locator

abbrev pub is_prefix : PlainName → PlainName → Bool
is_prefix [] n = true
is_prefix (c ∷ m) [] = false
is_prefix (c ∷ m) (e ∷ n) = (c.kind == e.kind) && (text_eq c.text e.text && is_prefix m n)

pub is_prefix_refl : (n : PlainName) → is_prefix n n ≡ true
is_prefix_refl [] = refl
is_prefix_refl (c ∷ n) = ground (arith, text_eq_refl c.text, is_prefix_refl n)

abbrev pub nest : PlainBlock → PlainBlock
nest b = if b.kind == content_type then b else push (plain content_type []) b

pub nest-content : (b : PlainBlock) → b.kind ≡ content_type → nest b ≡ b
nest-content b h = let hit : (b.kind == content_type) ≡ true = ground (arith, h) in rw hit refl

pub nest-other : (b : PlainBlock) → b.kind ≢ content_type → parse_codes (nest b).text ≡ ok (b ∷ [])
nest-other b h =
    let miss : (b.kind == content_type) ≡ false = ground (arith, h) in
    rw miss (elements-push (plain content_type []) b [] refl)

abbrev pub plain_info_packets :
    InfoPackets PlainName PlainInfo PlainPacket PlainBlock plain_infos plain_data plain_blocks
plain_info_packets = record {
  new_data = λ n. record {
    packet_name = n;
    body = [];
    nested = plain content_type [];
    info = none;
    value = [];
  };
  packet_name = λ d. d.packet_name;
  content = λ d. d.nested;
  set_content = λ d b. record d { nested = nest b };
  key_locator_name = λ d. locator_of d.info;
  key_chain_sign = λ d n. record d { info = some (record { kind = 1; locator = n }) };
  append_number = λ n k. n ++ plain 8 (k ∷ []) ∷ [];
  is_prefix_of = is_prefix;
  is_valid = λ b. true;
  is_prefix_of_refl = is_prefix_refl;
  packet_name-new_data = λ n. refl;
  packet_name-set_content = λ d b. refl;
  packet_name-set_info = λ d i. refl;
  packet_name-set_value = λ d v. refl;
  packet_name-sign = λ d n. refl;
  content-sign = λ d n. refl;
  key_locator_name-set_info = λ d t n. refl;
  key_locator_name-set_value = λ d v. refl;
  content-set_info = λ d i. refl;
  content-set_value = λ d v. refl;
  content-set_content = λ d b h. nest-content b h;
  elements-set_content = λ d b h. nest-other b h;
  is_valid-encode = λ b. refl;
}

abbrev pub add_texts : Text → Text → Text
add_texts [] t = t
add_texts (a ∷ s) [] = a ∷ s
add_texts (a ∷ s) (b ∷ t) = (a + b) ∷ s

abbrev pub verify_text : Text → ℕ → Text → Bool
verify_text [] p m = false
verify_text (a ∷ s) p m = (a == p) && text_eq s m

pub verify-add_texts :
    (s t : Text) (p q : ℕ) (m : Text)
    → verify_text s p m ≡ true
    → verify_text t q m ≡ true
    → verify_text (add_texts s t) (p + q) m ≡ true
verify-add_texts [] t p q m h k = cc
verify-add_texts (a ∷ s) [] p q m h k = cc
verify-add_texts (a ∷ s) (b ∷ t) p q m h k = ground arith

pub verify-sign_text : (k : ℕ) (m : Text) → verify_text (k ∷ m) k m ≡ true
verify-sign_text k m = ground (arith, text_eq_refl m)

abbrev pub plain_bls : BlsLibrary ℕ ℕ Text
plain_bls = record {
  init_error = 0;
  public_key = λ k. k;
  sign = λ k m. k ∷ m;
  verify = verify_text;
  add_keys = ◌+◌;
  add_signatures = add_texts;
  serialize = λ s. s;
  deserialize = λ t. t;
  uninitialized_key = 0;
  deserialize-serialize = λ s. refl;
  verify-sign = verify-sign_text;
  add_keys_comm = λ p q. omega arith;
  add_keys_assoc = λ p q r. omega arith;
  verify-add = verify-add_texts;
}

-- A packet as a block of five blocks.
abbrev pub info_block : Option PlainInfo → PlainBlock
info_block none = plain 0 []
info_block (some i) = plain (suc i.kind) (block_codes i.locator)

abbrev pub info_of_kind : ℕ → Text → Result (Option PlainInfo)
info_of_kind zero s = ok none
info_of_kind (suc k) s = parse_codes s >>= λ n. ok (some (record { kind = k; locator = n }))

abbrev pub packet_blocks : PlainPacket → List PlainBlock
packet_blocks d =
    plain 7 (block_codes d.packet_name)
    ∷ plain 20 d.body
    ∷ d.nested
    ∷ info_block d.info
    ∷ plain 23 d.value
    ∷ []

abbrev pub packet_of_blocks : List PlainBlock → Result PlainPacket
packet_of_blocks (n ∷ b ∷ c ∷ i ∷ v ∷ []) = do
  name ← parse_codes n.text
  info ← info_of_kind i.kind i.text
  ok (record { packet_name = name; body = b.text; nested = c; info = info; value = v.text })
packet_of_blocks _ = throws bad_tlv

pub info_of_kind-info_block :
    (i : Option PlainInfo) → info_of_kind (info_block i).kind (info_block i).text ≡ ok i
info_of_kind-info_block none = refl
info_of_kind-info_block (some i) = rw (parse_codes-blocks i.locator) refl

pub packet_of_blocks-packet_blocks :
    (d : PlainPacket) → (parse_codes (block_codes (packet_blocks d)) >>= packet_of_blocks) ≡ ok d
packet_of_blocks-packet_blocks d =
    rw
      (
        parse_codes-blocks (packet_blocks d),
        parse_codes-blocks d.packet_name,
        info_of_kind-info_block d.info,
      )
      refl

abbrev pub plain_wires :
    DataWires PlainName PlainInfo PlainPacket PlainBlock plain_infos plain_data plain_blocks
      plain_info_packets
plain_wires = record {
  wire = λ d. plain 6 (block_codes (packet_blocks d));
  of_wire = λ b. parse_codes b.text >>= packet_of_blocks;
  of_wire-wire = packet_of_blocks-packet_blocks;
  block_of_bytes-wire =
      λ outer inner. block_of_codes-block (plain 6 (block_codes (packet_blocks inner)));
}
