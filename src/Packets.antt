-- ===== src/Packets.antt =====
-- What the code uses of ndn-cxx's packets and of the BLS library when it signs and verifies. Neither
-- is part of the repository: the operations and their laws are parameters of the model.
use mathlib.Core.List.{flatten}
use ndn_multi_party_signatur.Prelude.{ℕ, ◌≡◌, ◌≢◌, Bool, true, List, Text, Result, ok, [], ◌∷◌}
use ndn_multi_party_signatur.Tlv.{TlvBlock}

-- SignatureInfo: its signature type, and the one for a key locator name.
pub record SignatureInfos (Name Info : Type 0) : Type 0 where
  pub signature_type : Info → ℕ
  pub new_info : ℕ → Name → Info
  pub signature_type-new_info : (t : ℕ) (n : Name) → signature_type (new_info t n) ≡ t

-- Data: wireEncode(encoder, true) gives the bytes to be signed, and extractSignedRanges() the pieces
-- of a signed packet that the signature covers, which together are these bytes.
pub record DataPackets (Data Info : Type 0) : Type 0 where
  pub set_signature_info : Data → Info → Data
  pub set_signature_value : Data → Text → Data
  pub signature_value : Data → Text
  pub encode_unsigned : Data → Text
  pub signed_ranges : Data → List Text
  pub signature_value-set : (d : Data) (v : Text) → signature_value (set_signature_value d v) ≡ v
  pub flatten-signed_ranges :
      (d : Data) (v : Text) → flatten (signed_ranges (set_signature_value d v)) ≡ encode_unsigned d

-- Interest: extractSignedRanges() gives the pieces that are signed, before and after the signature
-- value is set.
pub record InterestPackets (Interest Info : Type 0) : Type 0 where
  pub set_signature_info : Interest → Info → Interest
  pub set_signature_value : Interest → Text → Interest
  pub signature_value : Interest → Text
  pub is_signed : Interest → Bool
  pub signed_ranges : Interest → List Text
  pub signature_value-set :
      (i : Interest) (v : Text) → signature_value (set_signature_value i v) ≡ v
  pub signed_ranges-set :
      (i : Interest) (v : Text) → signed_ranges (set_signature_value i v) ≡ signed_ranges i
  pub is_signed-set :
      (i : Interest) (info : Info) (v : Text)
      → is_signed (set_signature_value (set_signature_info i info) v) ≡ true

-- tlv::Content
abbrev pub content_type : ℕ
content_type = 21

-- Data again: its name, its key locator and its content, KeyChain's signature, and what the code
-- uses of names and blocks with them.
pub record InfoPackets (Name Info Data Block : Type 0) (I : SignatureInfos Name Info)
    (D : DataPackets Data Info) (B : TlvBlock Block Name) : Type 0 where
  -- Data(name), getName(), getContent(), setContent(block)
  pub new_data : Name → Data
  pub packet_name : Data → Name
  pub content : Data → Block
  pub set_content : Data → Block → Data
  -- getSignatureInfo().getKeyLocator().getName(), which throws where there is none
  pub key_locator_name : Data → Result Name
  -- KeyChain::sign with the key of a name
  pub key_chain_sign : Data → Name → Data
  -- appendNumber(n), isPrefixOf(name)
  pub append_number : Name → ℕ → Name
  pub is_prefix_of : Name → Name → Bool
  -- isValid() of a block
  pub is_valid : Block → Bool
  pub is_prefix_of_refl : (n : Name) → is_prefix_of n n ≡ true
  pub packet_name-new_data : (n : Name) → packet_name (new_data n) ≡ n
  pub packet_name-set_content :
      (d : Data) (b : Block) → packet_name (set_content d b) ≡ packet_name d
  pub packet_name-set_info :
      (d : Data) (i : Info) → packet_name (D.set_signature_info d i) ≡ packet_name d
  pub packet_name-set_value :
      (d : Data) (v : Text) → packet_name (D.set_signature_value d v) ≡ packet_name d
  pub packet_name-sign : (d : Data) (n : Name) → packet_name (key_chain_sign d n) ≡ packet_name d
  pub content-sign : (d : Data) (n : Name) → content (key_chain_sign d n) ≡ content d
  pub content-set_info : (d : Data) (i : Info) → content (D.set_signature_info d i) ≡ content d
  pub content-set_value : (d : Data) (v : Text) → content (D.set_signature_value d v) ≡ content d
  pub key_locator_name-set_info :
      (d : Data) (t : ℕ) (n : Name)
      → key_locator_name (D.set_signature_info d (I.new_info t n)) ≡ ok n
  pub key_locator_name-set_value :
      (d : Data) (v : Text) → key_locator_name (D.set_signature_value d v) ≡ key_locator_name d
  -- a Content block is the content itself, and a block of another type is nested in it
  pub content-set_content :
      (d : Data) (b : Block) → B.type b ≡ content_type → content (set_content d b) ≡ b
  pub elements-set_content :
      (d : Data) (b : Block)
      → B.type b ≢ content_type
      → B.elements (content (set_content d b)) ≡ ok (b ∷ [])
  pub is_valid-encode : (b : Block) → is_valid (B.encode b) ≡ true

-- Data on the wire: wireEncode(), and Data(block), which throws on a block that is no packet.
pub record DataWires (Name Info Data Block : Type 0) (I : SignatureInfos Name Info)
    (D : DataPackets Data Info) (B : TlvBlock Block Name)
    (P : InfoPackets Name Info Data Block I D B) : Type 0 where
  pub wire : Data → Block
  pub of_wire : Block → Result Data
  pub of_wire-wire : (d : Data) → of_wire (wire d) ≡ ok d
  -- the bytes of a content with a packet nested in it are those of the packet's block
  pub block_of_bytes-wire :
      (outer inner : Data)
      → B.block_of_bytes (B.value (P.content (P.set_content outer (wire inner)))) ≡ ok (wire inner)

-- The BLS library: keys and signatures form sums, a signature by a secret key verifies under its
-- public key, and sums of signatures of one message verify under the sums of the keys.
pub record BlsLibrary (Secret Public Signature : Type 0) : Type 0 where
  -- blsInit's error code
  pub init_error : ℕ
  -- blsGetPublicKey, blsSign, blsVerify
  pub public_key : Secret → Public
  pub sign : Secret → Text → Signature
  pub verify : Signature → Public → Text → Bool
  -- blsPublicKeyAdd, blsSignatureAdd
  pub add_keys : Public → Public → Public
  pub add_signatures : Signature → Signature → Signature
  -- blsSignatureSerialize, and what blsSignatureDeserialize leaves in its output
  pub serialize : Signature → Text
  pub deserialize : Text → Signature
  -- what a key variable holds before anything is assigned to it
  pub uninitialized_key : Public
  pub deserialize-serialize : (s : Signature) → deserialize (serialize s) ≡ s
  pub verify-sign : (k : Secret) (m : Text) → verify (sign k m) (public_key k) m ≡ true
  pub add_keys_comm : (p q : Public) → add_keys p q ≡ add_keys q p
  pub add_keys_assoc : (p q r : Public) → add_keys (add_keys p q) r ≡ add_keys p (add_keys q r)
  pub verify-add :
      (s t : Signature) (p q : Public) (m : Text)
      → verify s p m ≡ true
      → verify t q m ≡ true
      → verify (add_signatures s t) (add_keys p q) m ≡ true
