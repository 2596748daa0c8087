-- ===== src/Examples/Blocks.antt =====
-- Blocks as a type with a value, whose elements are read one after another: an instance of what `Tlv`
-- asks for. On the wire a block is its type, each code of its value one higher, and 0.
use mathlib.Core.List.{append-nil, append_assoc}
use ndn_multi_party_signatur.Prelude.{
  ℕ, zero, suc, ◌≡◌, refl, List, [], ◌∷◌, ◌++◌, Text, Result, ok, throws, bad_tlv, ◌>>=◌,
  if◌then◌else◌, ◌==◌,
}
use ndn_multi_party_signatur.Tlv.{TlvBlock, find_element}
use ndn_multi_party_signatur.Examples.Names.{Component, PlainName, plain}

abbrev pub PlainBlock : Type 0
PlainBlock = Component

abbrev pub raised : Text → Text
raised [] = 0 ∷ []
raised (x ∷ s) = suc x ∷ raised s

abbrev pub block_code : PlainBlock → Text
block_code b = b.kind ∷ raised b.text

abbrev pub block_codes : List PlainBlock → Text
block_codes [] = []
block_codes (b ∷ bs) = block_code b ++ block_codes bs

-- A reader between two blocks, or inside one.
pub data Reader : Type 0 where
  between : List PlainBlock → Reader
  inside : List PlainBlock → ℕ → Text → Reader

abbrev pub read_code : Reader → ℕ → Reader
read_code (between bs) x = inside bs x []
read_code (inside bs t v) zero = between (bs ++ plain t v ∷ [])
read_code (inside bs t v) (suc x) = inside bs t (v ++ x ∷ [])

abbrev pub read_codes : Reader → Text → Reader
read_codes r [] = r
read_codes r (x ∷ s) = read_codes (read_code r x) s

abbrev pub blocks_read : Reader → Result (List PlainBlock)
blocks_read (between bs) = ok bs
blocks_read (inside bs t v) = throws bad_tlv

abbrev pub parse_codes : Text → Result (List PlainBlock)
parse_codes s = blocks_read (read_codes (between []) s)

pub read_codes-append :
    (r : Reader) (s t : Text) → read_codes r (s ++ t) ≡ read_codes (read_codes r s) t
read_codes-append r [] t = refl
read_codes-append r (x ∷ s) t = read_codes-append (read_code r x) s t

pub read_codes-raised :
    (bs : List PlainBlock) (t : ℕ) (v s : Text)
    → read_codes (inside bs t v) (raised s) ≡ between (bs ++ plain t (v ++ s) ∷ [])
read_codes-raised bs t v [] = rw append-nil refl
read_codes-raised bs t v (x ∷ s) = rw (read_codes-raised bs t (v ++ x ∷ []) s, append_assoc) refl

pub read_codes-block :
    (bs : List PlainBlock) (b : PlainBlock)
    → read_codes (between bs) (block_code b) ≡ between (bs ++ b ∷ [])
read_codes-block bs b = read_codes-raised bs b.kind [] b.text

pub read_codes-blocks :
    (bs cs : List PlainBlock) → read_codes (between bs) (block_codes cs) ≡ between (bs ++ cs)
read_codes-blocks bs [] = rw append-nil refl
read_codes-blocks bs (c ∷ cs) =
    rw
      (
        read_codes-append (between bs) (block_code c) (block_codes cs),
        read_codes-block bs c,
        read_codes-blocks (bs ++ c ∷ []) cs,
        append_assoc,
      )
      refl

pub parse_codes-blocks : (cs : List PlainBlock) → parse_codes (block_codes cs) ≡ ok cs
parse_codes-blocks cs = rw (read_codes-blocks [] cs) refl

pub between_of_ok : (r : Reader) (es : List PlainBlock) → blocks_read r ≡ ok es → r ≡ between es
between_of_ok (between bs) es h = cc
between_of_ok (inside bs t v) es h = cc

abbrev pub push : PlainBlock → PlainBlock → PlainBlock
push b e = plain b.kind (b.text ++ block_code e)

pub elements-push :
    (b e : PlainBlock) (es : List PlainBlock)
    → parse_codes b.text ≡ ok es
    → parse_codes (push b e).text ≡ ok (es ++ e ∷ [])
elements-push b e es h =
    rw
      (
        read_codes-append (between []) b.text (block_code e),
        between_of_ok (read_codes (between []) b.text) es h,
        read_codes-block es e,
      )
      refl

abbrev pub first_block : List PlainBlock → Result PlainBlock
first_block [] = throws bad_tlv
first_block (b ∷ bs) = ok b

abbrev pub block_of_codes : Text → Result PlainBlock
block_of_codes s = parse_codes s >>= first_block

pub block_of_codes-block : (b : PlainBlock) → block_of_codes (block_code b) ≡ ok b
block_of_codes-block b = rw (read_codes-block [] b) refl

abbrev pub name_block : PlainName → PlainBlock
name_block n = plain 7 (block_codes n)

abbrev pub block_name : PlainBlock → Result PlainName
block_name b = if b.kind == 7 then parse_codes b.text else throws bad_tlv

abbrev pub first_number : Text → Result ℕ
first_number [] = throws bad_tlv
first_number (n ∷ s) = ok n

instance abbrev pub plain_blocks : TlvBlock PlainBlock PlainName
plain_blocks = record {
  new_block = λ t. plain t [];
  type = λ b. b.kind;
  push_back = push;
  encode = λ b. b;
  elements = λ b. parse_codes b.text;
  name_encode = name_block;
  name_decode = block_name;
  type-new_block = λ t. refl;
  type-push_back = λ b e. refl;
  type-encode = λ b. refl;
  elements-new_block = λ t. refl;
  elements-push_back = elements-push;
  elements-encode = λ b. refl;
  name_decode-name_encode = parse_codes-blocks;
  get = λ b t. parse_codes b.text >>= find_element (λ e. e.kind) t;
  value = λ b. b.text;
  binary_block = plain;
  block_of_bytes = block_of_codes;
  string_block = plain;
  read_string = λ b. b.text;
  number_block = λ t n. plain t (n ∷ []);
  read_number = λ b. first_number b.text;
  nested_block = λ t n. plain t (block_code (name_block n));
  block_from_value = λ b. block_of_codes b.text;
  get-elements = λ b t. refl;
  value-binary_block = λ t v. refl;
  type-binary_block = λ t v. refl;
  type-string_block = λ t s. refl;
  type-number_block = λ t n. refl;
  type-nested_block = λ t n. refl;
  elements-binary_block = λ t b es h. h;
  read_string-string_block = λ t s. refl;
  read_number-number_block = λ t n h. refl;
  block_from_value-nested_block = λ t n. block_of_codes-block (name_block n);
}
