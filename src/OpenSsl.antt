-- ===== src/OpenSsl.antt =====
-- What src/crypto-helpers.cpp uses of OpenSSL. OpenSSL is not part of the repository: its calls and
-- the laws below, which its documentation and that of GCM, ECDH and HKDF give, are parameters.
use ndn_multi_party_signatur.Prelude.{ℕ, ◌≡◌, Bool, Option, some, [], Text, length}

-- The sign of a result code, which some calls make negative.
pub data ResultCode : Type 0 where
  positive_code zero_code negative_code : ResultCode

-- A cipher context of EVP_aes_128_gcm, in the order of the calls.
pub record GcmCipher (Ctx : Type 0) : Type 0 where
  -- EVP_CIPHER_CTX_new, EVP_CIPHER_CTX_ctrl(EVP_CTRL_GCM_SET_IVLEN)
  pub ctx_new : Ctx
  pub set_iv_length : Ctx → ℕ → Ctx
  -- EVP_EncryptInit_ex with the cipher, and with key and iv
  pub encrypt_init : Ctx → Ctx
  pub encrypt_key : Ctx → Text → Text → Ctx
  -- EVP_EncryptUpdate without an output, and with it; EVP_EncryptFinal_ex
  pub encrypt_associated : Ctx → Text → Ctx
  pub encrypt_update : Ctx → Text → Ctx × Text
  pub encrypt_final : Ctx → Ctx × Text
  -- EVP_CTRL_GCM_GET_TAG, none for the result 0
  pub get_tag : Ctx → ℕ → Option Text
  pub decrypt_init : Ctx → Ctx
  pub decrypt_key : Ctx → Text → Text → Ctx
  pub decrypt_associated : Ctx → Text → Ctx
  pub decrypt_update : Ctx → Text → Ctx × Text
  -- EVP_CTRL_GCM_SET_TAG, and EVP_DecryptFinal_ex, none for the result 0
  pub set_tag : Ctx → Text → Ctx
  pub decrypt_final : Ctx → Option Text
  -- GCM keeps the length of a text, and a tag has the length that is asked for
  pub length-encrypt_update : (c : Ctx) (p : Text) → length (encrypt_update c p).1 ≡ length p
  pub length-get_tag : (c : Ctx) (n : ℕ) (tag : Text) → get_tag c n ≡ some tag → length tag ≡ n
  -- what is encrypted is decrypted under the same key, iv, associated data and tag
  pub decrypt-encrypt :
      (key iv associated p tag : Text)
      → let sealed =
          encrypt_update
            (encrypt_associated
              (encrypt_key (set_iv_length (encrypt_init ctx_new) 12) key iv)
              associated)
            p in
        let opened =
          decrypt_update
            (decrypt_associated
              (decrypt_key (set_iv_length (decrypt_init ctx_new) 12) key iv)
              associated)
            sealed.1 in
        get_tag (encrypt_final sealed.0).0 16 ≡ some tag
        → (opened.1 ≡ p) × (decrypt_final (set_tag opened.0 tag) ≡ some [])

-- Keys on the curve prime256v1.
pub record EcKeys (Pkey EcKey Group Point : Type 0) : Type 0 where
  -- EVP_PKEY_keygen with its parameters, from randomness, none for a result that is not positive
  pub keygen : ℕ → Option Pkey
  -- EVP_PKEY_get1_EC_KEY, none for a null pointer
  pub get_ec_key : Pkey → Option EcKey
  -- EC_KEY_get0_group, EC_KEY_get0_public_key
  pub group : EcKey → Group
  pub public_point : EcKey → Point
  -- EC_POINT_point2oct, with no octets for the result 0, and what EC_POINT_oct2point leaves
  pub point_to_octets : Group → Point → Text
  pub octets_to_point : Group → Text → Point
  -- EVP_PKEY_derive with the peer's point
  pub derive : Pkey → Group → Point → ResultCode × Text
  pub curve : Group
  pub group-keygen :
      (r : ℕ) (k : Pkey) (e : EcKey) → keygen r ≡ some k → get_ec_key k ≡ some e → group e ≡ curve
  -- both sides derive the same secret
  pub derive_shared :
      (a b : Pkey) (e f : EcKey)
      → get_ec_key a ≡ some e
      → get_ec_key b ≡ some f
      → group e ≡ curve
      → group f ≡ curve
      → derive a curve (octets_to_point curve (point_to_octets curve (public_point f)))
        ≡ derive b curve (octets_to_point curve (point_to_octets curve (public_point e)))

-- Keyed hashes, and base64.
pub record KeyDerivation : Type 0 where
  -- EVP_PKEY_derive for HKDF with SHA-256: secret, salt, info and the length
  pub hkdf_derive : Text → Text → Text → ℕ → ResultCode × Text
  -- HMAC with SHA-256: data and key, none for a null pointer
  pub hmac : Text → Text → Option Text
  -- base64Encode of ndn-cxx, with line breaks or without
  pub base64 : Text → Bool → Text
  pub length-hkdf_derive :
      (secret salt info : Text) (n : ℕ) → length (hkdf_derive secret salt info n).1 ≡ n
