-- ===== src/Crypto/Seal.antt =====
-- Blocks that are encrypted and decrypted with the same key.
use ndn_multi_party_signatur.Prelude.{
  ℕ, zero, suc, ◌≡◌, refl, ap, ◌∙◌, true, false, Option-cases, Result-cases, inl, inr, List, [],
  ◌∷◌, ◌++◌, Text, length, take, ltb, ◌==◌, ok, length-append, arith,
}
use mathlib.Core.List.{append-nil}
use mathlib.Core.Path.{subst}
use ndn_multi_party_signatur.Tlv.{TlvBlock, find_element}
use ndn_multi_party_signatur.OpenSsl.{GcmCipher}
use ndn_multi_party_signatur.Crypto.{
  initialization_vector_type, authentication_tag_type, encrypted_payload_type, aes_gcm128_encrypt,
  aes_gcm128_decrypt, sealed_block, encode_block_with_aes_gcm128, decode_block_with_aes_gcm128,
  read_bytes,
}

module _ {Ctx : Type 0} (G : GcmCipher Ctx) where
  -- What `aesGcm128Encrypt` gives: a text as long as the plaintext, a tag of 16 bytes, and decryption
  -- with them.
  pub record Sealed (p associated key iv ciphertext tag : Text) : Type 0 where
    pub length_ciphertext : length ciphertext ≡ length p
    pub length_tag : length tag ≡ 16
    pub opens : aes_gcm128_decrypt G ciphertext associated tag key iv ≡ ok p

  pub aes_gcm128_encrypt-Sealed :
      (p associated key iv ciphertext tag : Text)
      → aes_gcm128_encrypt G p associated key iv ≡ ok (ciphertext, tag)
      → Sealed p associated key iv ciphertext tag
  unfolding aes_gcm128_encrypt aes_gcm128_decrypt
  aes_gcm128_encrypt-Sealed p associated key iv ciphertext tag h =
      let ready = G.encrypt_key (G.set_iv_length (G.encrypt_init G.ctx_new) 12) key iv in
      let updated = G.encrypt_update (G.encrypt_associated ready associated) p in
      elim (Option-cases (G.get_tag (G.encrypt_final updated.0).0 16)) [
        | inl e ↦ cc (rw (aes_gcm128_encrypt, e) at h)
        | inr (t, e) ↦
            let made : aes_gcm128_encrypt G p associated key iv ≡ ok (updated.1, t) =
              rw (aes_gcm128_encrypt, e) refl in
            let same : (updated.1, t) ≡ (ciphertext, tag) = cc in
            let (plain, final) = G.decrypt-encrypt key iv associated p t e in
            subst (λ (x : Text × Text). Sealed p associated key iv x.0 x.1) same
              (record {
                length_ciphertext =
                    G.length-encrypt_update (G.encrypt_associated ready associated) p;
                length_tag = G.length-get_tag (G.encrypt_final updated.0).0 16 t e;
                opens = rw (aes_gcm128_decrypt, final, plain) (ap ok (append-nil p));
              })
      ]

take_all : (n : ℕ) (s : Text) → length s ≡ n → take n s ≡ s
take_all zero [] h = refl
take_all zero (x ∷ s) h = absurd (omega (arith, h))
take_all (suc n) [] h = refl
take_all (suc n) (x ∷ s) h = ap (◌∷◌ x) (take_all n s (omega (arith, h)))

read_bytes_all : (n : ℕ) (s : Text) → length s ≡ n → read_bytes n s ≡ ok s
read_bytes_all n s h =
    let enough : ltb (length s) n ≡ false = ground (arith, h) in rw (enough, take_all n s h) refl

module _ {Ctx Block Name : Type 0} (B : TlvBlock Block Name) (G : GcmCipher Ctx) where
  -- The elements of a sealed block.
  pub elements-sealed_block :
      (t : ℕ) (iv tag ciphertext : Text)
      → B.elements (sealed_block B G t iv tag ciphertext)
        ≡ ok (
            B.binary_block initialization_vector_type iv
            ∷ B.binary_block authentication_tag_type tag
            ∷ B.binary_block encrypted_payload_type ciphertext
            ∷ [])
  unfolding sealed_block
  elements-sealed_block t iv tag ciphertext =
      let b = B.new_block t in
      let i = B.binary_block initialization_vector_type iv in
      let a = B.binary_block authentication_tag_type tag in
      let c = B.binary_block encrypted_payload_type ciphertext in
      B.elements-encode (B.push_back (B.push_back (B.push_back b i) a) c)
      ∙ B.elements-push_back (B.push_back (B.push_back b i) a) c (i ∷ a ∷ []) (
          B.elements-push_back (B.push_back b i) a (i ∷ [])
            (B.elements-push_back b i [] (B.elements-new_block t)))

  -- Where a block starts with the elements of a sealed one, whatever follows, decoding gives the
  -- plaintext.
  pub decode-elements :
      (block : Block) (key associated iv tag ciphertext p : Text) (more : List Block)
      → B.elements block
        ≡ ok (
            B.binary_block initialization_vector_type iv
            ∷ B.binary_block authentication_tag_type tag
            ∷ B.binary_block encrypted_payload_type ciphertext
            ∷ more)
      → length iv ≡ 12
      → Sealed G p associated key iv ciphertext tag
      → decode_block_with_aes_gcm128 B G block key associated ≡ ok p
  unfolding decode_block_with_aes_gcm128 find_element
  decode-elements block key associated iv tag ciphertext p more h len s =
      let i = B.binary_block initialization_vector_type iv in
      let a = B.binary_block authentication_tag_type tag in
      let c = B.binary_block encrypted_payload_type ciphertext in
      let get_c : B.get block encrypted_payload_type ≡ ok c =
        rw
          (
            B.get-elements,
            h,
            B.type-binary_block initialization_vector_type iv,
            B.type-binary_block authentication_tag_type tag,
            B.type-binary_block encrypted_payload_type ciphertext,
          )
          refl in
      let get_i : B.get block initialization_vector_type ≡ ok i =
        rw (B.get-elements, h, B.type-binary_block initialization_vector_type iv) refl in
      let get_a : B.get block authentication_tag_type ≡ ok a =
        rw
          (
            B.get-elements,
            h,
            B.type-binary_block initialization_vector_type iv,
            B.type-binary_block authentication_tag_type tag,
          )
          refl in
      let same_length : (length p == length ciphertext) ≡ true =
        ground (arith, s.length_ciphertext) in
      rw
        (
          decode_block_with_aes_gcm128,
          get_c,
          get_i,
          B.value-binary_block initialization_vector_type iv,
          read_bytes_all 12 iv len,
          get_a,
          B.value-binary_block authentication_tag_type tag,
          read_bytes_all 16 tag s.length_tag,
          B.value-binary_block encrypted_payload_type ciphertext,
          s.opens,
        )
        (rw same_length refl)

  type-sealed_block :
      (t : ℕ) (iv tag ciphertext : Text) → B.type (sealed_block B G t iv tag ciphertext) ≡ t
  unfolding sealed_block
  type-sealed_block t iv tag ciphertext =
      rw (B.type-encode, B.type-push_back, B.type-push_back, B.type-push_back, B.type-new_block)
        refl

  -- What a block holds that `encodeBlockWithAesGcm128` made.
  pub record Encoded (t : ℕ) (key p associated : Text) (block : Block) : Type 0 where
    pub iv : Text
    pub tag : Text
    pub ciphertext : Text
    pub type_of : B.type block ≡ t
    pub held :
        B.elements block
        ≡ ok (
            B.binary_block initialization_vector_type iv
            ∷ B.binary_block authentication_tag_type tag
            ∷ B.binary_block encrypted_payload_type ciphertext
            ∷ [])
    pub length_iv : length iv ≡ 12
    pub sealed : Sealed G p associated key iv ciphertext tag

  pub encode_block-Encoded :
      (t : ℕ) (key p associated random_bytes : Text) (block : Block)
      → length random_bytes ≡ 8
      → encode_block_with_aes_gcm128 B G t key p associated random_bytes ≡ ok block
      → Encoded t key p associated block
  unfolding encode_block_with_aes_gcm128
  encode_block-Encoded t key p associated random_bytes block len h =
      let iv = random_bytes ++ 0 ∷ 0 ∷ 0 ∷ 0 ∷ [] in
      elim (Result-cases (aes_gcm128_encrypt G p associated key iv)) [
        | inr (x, e) ↦ cc (rw (encode_block_with_aes_gcm128, e) at h)
        | inl ((c, tag), e) ↦
            let made : sealed_block B G t iv tag c ≡ block =
              cc (rw (encode_block_with_aes_gcm128, e) at h) in
            subst (Encoded t key p associated) made (record {
              iv = iv;
              tag = tag;
              ciphertext = c;
              type_of = type-sealed_block t iv tag c;
              held = elements-sealed_block t iv tag c;
              length_iv = omega (arith, length-append random_bytes (0 ∷ 0 ∷ 0 ∷ 0 ∷ []), len);
              sealed = aes_gcm128_encrypt-Sealed G p associated key iv c tag e;
            })
      ]

  -- What `encodeBlockWithAesGcm128` encrypts with a key and eight random bytes for the iv,
  -- `decodeBlockWithAesGcm128` decrypts with the same key and associated data.
  pub decode_block-encode_block :
      (t : ℕ) (key p associated random_bytes : Text) (block : Block)
      → length random_bytes ≡ 8
      → encode_block_with_aes_gcm128 B G t key p associated random_bytes ≡ ok block
      → decode_block_with_aes_gcm128 B G block key associated ≡ ok p
  decode_block-encode_block t key p associated random_bytes block len h =
      let k = encode_block-Encoded t key p associated random_bytes block len h in
      decode-elements block key associated k.iv k.tag k.ciphertext p [] k.held k.length_iv k.sealed
