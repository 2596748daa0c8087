-- ===== src/Tlv.antt =====
-- What the code uses of ndn-cxx's TLV blocks. ndn-cxx is not part of the repository: the operations
-- and their laws, which its documentation gives, are parameters of the model.
use ndn_multi_party_signatur.Prelude.{
  ℕ, ◌<◌, ◌≢◌, refl, true, false, arith, ◌^◌, ◌≡◌, List, [], ◌∷◌, ◌++◌, Text, Result, ok, throws,
  bad_tlv, if◌then◌else◌, ◌==◌, ◌>>=◌,
}

-- get(type): the first of the elements that has the type.
unfoldable pub find_element : {Block : Type 0} → (Block → ℕ) → ℕ → List Block → Result Block
find_element type_of t [] = throws bad_tlv
find_element type_of t (b ∷ bs) =
    let rest = find_element type_of t bs in if type_of b == t then ok b else rest

pub find_element-first :
    {Block : Type 0} (type_of : Block → ℕ) (t : ℕ) (b : Block) (bs : List Block)
    → type_of b ≡ t
    → find_element type_of t (b ∷ bs) ≡ ok b
unfolding find_element
find_element-first type_of t b bs h =
    let hit : (type_of b == t) ≡ true = ground (arith, h) in rw hit refl

pub find_element-later :
    {Block : Type 0} (type_of : Block → ℕ) (t : ℕ) (b : Block) (bs : List Block)
    → type_of b ≢ t
    → find_element type_of t (b ∷ bs) ≡ find_element type_of t bs
unfolding find_element
find_element-later type_of t b bs h =
    let miss : (type_of b == t) ≡ false = ground (arith, h) in rw miss refl

-- Blocks hold a type and elements; `Name` is a type with an encoding.
pub record TlvBlock (Block Name : Type 0) : Type 0 where
  -- Block(type), type(), push_back(element), encode()
  pub new_block : ℕ → Block
  pub type : Block → ℕ
  pub push_back : Block → Block → Block
  pub encode : Block → Block
  -- parse(), which throws on a value that is no sequence of blocks, and then elements()
  pub elements : Block → Result (List Block)
  -- Name::wireEncode(), and Name(block), which throws on a block that is no name
  pub name_encode : Name → Block
  pub name_decode : Block → Result Name
  pub type-new_block : (t : ℕ) → type (new_block t) ≡ t
  pub type-push_back : (b e : Block) → type (push_back b e) ≡ type b
  pub type-encode : (b : Block) → type (encode b) ≡ type b
  pub elements-new_block : (t : ℕ) → elements (new_block t) ≡ ok []
  pub elements-push_back :
      (b e : Block) (es : List Block)
      → elements b ≡ ok es
      → elements (push_back b e) ≡ ok (es ++ e ∷ [])
  pub elements-encode : (b : Block) → elements (encode b) ≡ elements b
  pub name_decode-name_encode : (n : Name) → name_decode (name_encode n) ≡ ok n
  -- parse() and get(type)
  pub get : Block → ℕ → Result Block
  -- value(), makeBinaryBlock(type, bytes) and Block(type, buffer), and Block(buffer)
  pub value : Block → Text
  pub binary_block : ℕ → Text → Block
  pub block_of_bytes : Text → Result Block
  -- makeStringBlock(type, text), readString(block)
  pub string_block : ℕ → Text → Block
  pub read_string : Block → Text
  -- makeNonNegativeIntegerBlock(type, n), readNonNegativeInteger(block)
  pub number_block : ℕ → ℕ → Block
  pub read_number : Block → Result ℕ
  -- makeNestedBlock(type, name), blockFromValue()
  pub nested_block : ℕ → Name → Block
  pub block_from_value : Block → Result Block
  pub get-elements : (b : Block) (t : ℕ) → get b t ≡ (elements b >>= find_element type t)
  pub value-binary_block : (t : ℕ) (v : Text) → value (binary_block t v) ≡ v
  pub type-binary_block : (t : ℕ) (v : Text) → type (binary_block t v) ≡ t
  pub type-string_block : (t : ℕ) (s : Text) → type (string_block t s) ≡ t
  pub type-number_block : (t n : ℕ) → type (number_block t n) ≡ t
  pub type-nested_block : (t : ℕ) (n : Name) → type (nested_block t n) ≡ t
  -- the value of an encoded block is that of its elements
  pub elements-binary_block :
      (t : ℕ) (b : Block) (es : List Block)
      → elements b ≡ ok es
      → elements (binary_block t (value (encode b))) ≡ ok es
  pub read_string-string_block : (t : ℕ) (s : Text) → read_string (string_block t s) ≡ s
  pub read_number-number_block : (t n : ℕ) → n < 2 ^ 64 → read_number (number_block t n) ≡ ok n
  pub block_from_value-nested_block :
      (t : ℕ) (n : Name) → block_from_value (nested_block t n) ≡ ok (name_encode n)
