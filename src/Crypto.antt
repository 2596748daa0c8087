-- ===== src/Crypto.antt =====
-- src/crypto-helpers.cpp: key agreement, key derivation, and blocks that are encrypted with AES-GCM.
-- Random bytes are arguments.
pub mod Seal
pub mod Agree
use ndn_multi_party_signatur.Prelude.{
  ℕ, ◌+◌, ◌*◌, ◌%◌, ◌^◌, Bool, true, false, not, Option, none, some, List, [], ◌∷◌, ◌++◌, Text,
  length, take, drop, ltb, ◌==◌, Result, ok, throws, crypto_failure, out_of_bounds, if◌then◌else◌,
  ◌>>=◌, get_elem?,
}
use ndn_multi_party_signatur.Tlv.{TlvBlock}
use ndn_multi_party_signatur.OpenSsl.{
  ResultCode, positive_code, zero_code, negative_code, GcmCipher, EcKeys, KeyDerivation,
}

-- tlv: InitializationVector, EncryptedPayload, AuthenticationTag
abbrev pub initialization_vector_type : ℕ
initialization_vector_type = 157

abbrev pub encrypted_payload_type : ℕ
encrypted_payload_type = 159

abbrev pub authentication_tag_type : ℕ
authentication_tag_type = 175

-- ECDHState
pub record EcdhState (Pkey : Type 0) : Type 0 where
  pub privkey : Pkey
  pub pub_key : Text
  pub secret : Text

-- What the calls do that only look for the result 0.
abbrev pub unless_zero : ResultCode × Text → Result Text
unless_zero (positive_code, out) = ok out
unless_zero (zero_code, out) = throws crypto_failure
unless_zero (negative_code, out) = ok out

module _ {Pkey EcKey Group Point : Type 0} (E : EcKeys Pkey EcKey Group Point) where
  -- ECDHState::ECDHState
  unfoldable pub ecdh_new : ℕ → Result (EcdhState Pkey)
  ecdh_new randomness = elim (E.keygen randomness) [
    | none ↦ throws crypto_failure
    | some k ↦ ok (record { privkey = k; pub_key = []; secret = [] })
  ]

  -- ECDHState::getSelfPubKey, with the state that it leaves.
  unfoldable pub get_self_pub_key : EcdhState Pkey → Result (EcdhState Pkey × Text)
  get_self_pub_key s = elim (E.get_ec_key s.privkey) [
    | none ↦ throws crypto_failure
    | some k ↦
        let octets = E.point_to_octets (E.group k) (E.public_point k) in
        if length octets == 0
        then throws crypto_failure
        else ok (record s { pub_key = octets }, octets)
  ]

  -- ECDHState::deriveSecret, which does not look whether there is an EC key.
  unfoldable pub derive_secret : EcdhState Pkey → Text → Result (EcdhState Pkey × Text)
  derive_secret s peer = elim (E.get_ec_key s.privkey) [
    | none ↦ throws out_of_bounds
    | some k ↦
        let peer_point = E.octets_to_point (E.group k) peer in
        unless_zero (E.derive s.privkey (E.group k) peer_point) >>= λ secret.
        ok (record s { secret = secret }, secret)
  ]

module _ (K : KeyDerivation) where
  -- hmacSha256
  unfoldable pub hmac_sha256 : Text → Text → Result Text
  hmac_sha256 bytes key = elim (K.hmac bytes key) [
    | none ↦ throws crypto_failure
    | some result ↦ ok result
  ]

  -- hkdf, without info
  unfoldable pub hkdf : Text → Text → ℕ → Result Text
  hkdf secret salt output_len = unless_zero (K.hkdf_derive secret salt [] output_len)

  -- base64EncodeFromBytes
  unfoldable pub base64_encode_from_bytes : Text → Bool → Text
  base64_encode_from_bytes bytes needs_break = K.base64 bytes needs_break

  -- The AES key and the HMAC key that both sides take from the secret and the salt.
  unfoldable pub session_keys : Text → Text → Result (Text × Text)
  session_keys secret salt = hkdf secret salt 48 >>= λ aes_and_hmac.
      ok (take 16 aes_and_hmac, base64_encode_from_bytes (take 32 (drop 16 aes_and_hmac)) false)

module _ {Ctx : Type 0} (G : GcmCipher Ctx) where
  -- aesGcm128Encrypt: the ciphertext and the tag. What the last call writes is not counted.
  unfoldable pub aes_gcm128_encrypt : Text → Text → Text → Text → Result (Text × Text)
  aes_gcm128_encrypt plaintext associated key iv =
      let ready = G.encrypt_key (G.set_iv_length (G.encrypt_init G.ctx_new) 12) key iv in
      let updated = G.encrypt_update (G.encrypt_associated ready associated) plaintext in
      let final = G.encrypt_final updated.0 in
      elim (G.get_tag final.0 16) [ none ↦ throws crypto_failure | some tag ↦ ok (updated.1, tag) ]

  -- aesGcm128Decrypt
  unfoldable pub aes_gcm128_decrypt : Text → Text → Text → Text → Text → Result Text
  aes_gcm128_decrypt ciphertext associated tag key iv =
      let ready = G.decrypt_key (G.set_iv_length (G.decrypt_init G.ctx_new) 12) key iv in
      let updated = G.decrypt_update (G.decrypt_associated ready associated) ciphertext in
      elim (G.decrypt_final (G.set_tag updated.0 tag)) [
        | none ↦ throws crypto_failure
        | some last ↦ ok (updated.1 ++ last)
      ]

-- The first n bytes behind a pointer into a block's value.
abbrev pub read_bytes : ℕ → Text → Result Text
read_bytes n v = if ltb (length v) n then throws out_of_bounds else ok (take n v)

module _ {Ctx Block Name : Type 0} (B : TlvBlock Block Name) (G : GcmCipher Ctx) where
  -- The block of encodeBlockWithAesGcm128, from the iv, the tag and the ciphertext.
  unfoldable pub sealed_block : ℕ → Text → Text → Text → Block
  sealed_block tlv_type iv tag ciphertext =
      let with_iv =
        B.push_back (B.new_block tlv_type) (B.binary_block initialization_vector_type iv) in
      let with_tag = B.push_back with_iv (B.binary_block authentication_tag_type tag) in
      B.encode (B.push_back with_tag (B.binary_block encrypted_payload_type ciphertext))

  -- encodeBlockWithAesGcm128, with eight random bytes for the iv.
  unfoldable pub encode_block_with_aes_gcm128 : ℕ → Text → Text → Text → Text → Result Block
  encode_block_with_aes_gcm128 tlv_type key payload associated random_bytes =
      let iv = random_bytes ++ 0 ∷ 0 ∷ 0 ∷ 0 ∷ [] in
      aes_gcm128_encrypt G payload associated key iv >>= λ (ciphertext, tag).
      ok (sealed_block tlv_type iv tag ciphertext)

  -- decodeBlockWithAesGcm128
  unfoldable pub decode_block_with_aes_gcm128 : Block → Text → Text → Result Text
  decode_block_with_aes_gcm128 block key associated = do
    encrypted ← B.get block encrypted_payload_type
    iv_block ← B.get block initialization_vector_type
    iv ← read_bytes 12 (B.value iv_block)
    tag_block ← B.get block authentication_tag_type
    tag ← read_bytes 16 (B.value tag_block)
    result ← aes_gcm128_decrypt G (B.value encrypted) associated tag key iv
    if not (length result == length (B.value encrypted)) then throws crypto_failure else ok result
