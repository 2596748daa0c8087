-- ===== src/Examples/Ciphers.antt =====
-- The theorems on encrypted blocks and on key agreement at concrete inputs.
use ndn_multi_party_signatur.Prelude.{ℕ, ◌≡◌, refl, [], ◌∷◌, ◌++◌, codes, Text, replicate, ok}
use ndn_multi_party_signatur.Packets.{content_type}
use ndn_multi_party_signatur.Crypto.{
  EcdhState, ecdh_new, get_self_pub_key, derive_secret, aes_gcm128_encrypt, sealed_block,
  encode_block_with_aes_gcm128, decode_block_with_aes_gcm128,
}
use ndn_multi_party_signatur.Crypto.Seal.{decode_block-encode_block}
use ndn_multi_party_signatur.Crypto.Agree.{derive_secret-derive_secret}
use ndn_multi_party_signatur.Examples.Names.{plain_names}
use ndn_multi_party_signatur.Examples.Blocks.{PlainBlock, plain_blocks}
use ndn_multi_party_signatur.Examples.Parties.{plain_cipher, plain_keys}

abbrev random_s : Text
random_s = replicate 8 3

abbrev sealed : PlainBlock
sealed =
    sealed_block plain_blocks plain_cipher content_type (random_s ++ 0 ∷ 0 ∷ 0 ∷ 0 ∷ [])
      (replicate 16 14) (codes "text")

sealed_run :
    encode_block_with_aes_gcm128 plain_blocks plain_cipher content_type
      (14 ∷ [])
      (codes "text")
      []
      random_s
    ≡ ok sealed
unfolding encode_block_with_aes_gcm128 aes_gcm128_encrypt sealed_block
sealed_run = refl

decode_block-encode_block_example :
    decode_block_with_aes_gcm128 plain_blocks plain_cipher sealed (14 ∷ []) [] ≡ ok (codes "text")
decode_block-encode_block_example =
    decode_block-encode_block plain_blocks plain_cipher content_type (14 ∷ []) (codes "text") []
      random_s sealed refl sealed_run

abbrev key_state : ℕ → Text → Text → EcdhState ℕ
key_state k public secret = record { privkey = k; pub_key = public; secret = secret }

three_new : ecdh_new plain_keys 3 ≡ ok (key_state 3 [] [])
unfolding ecdh_new
three_new = refl

nine_new : ecdh_new plain_keys 9 ≡ ok (key_state 9 [] [])
unfolding ecdh_new
nine_new = refl

three_gives : get_self_pub_key plain_keys (key_state 3 [] []) ≡ ok (key_state 3 (3 ∷ []) [], 3 ∷ [])
unfolding get_self_pub_key
three_gives = refl

nine_derives :
    derive_secret plain_keys (key_state 9 [] []) (3 ∷ []) ≡ ok (key_state 9 [] (12 ∷ []), 12 ∷ [])
unfolding derive_secret
nine_derives = refl

nine_gives :
    get_self_pub_key plain_keys (key_state 9 [] (12 ∷ []))
    ≡ ok (key_state 9 (9 ∷ []) (12 ∷ []), 9 ∷ [])
unfolding get_self_pub_key
nine_gives = refl

derive_secret-derive_secret_example :
    (a'' : EcdhState ℕ) × (derive_secret plain_keys (key_state 3 (3 ∷ []) []) (9 ∷ [])
      ≡ ok (a'', 12 ∷ []))
derive_secret-derive_secret_example =
    derive_secret-derive_secret plain_keys 3 9 (key_state 3 [] []) (key_state 3 (3 ∷ []) [])
      (key_state 9 [] []) (key_state 9 [] (12 ∷ [])) (key_state 9 (9 ∷ []) (12 ∷ [])) (3 ∷ [])
      (9 ∷ []) (12 ∷ []) three_new three_gives nine_new nine_derives nine_gives
