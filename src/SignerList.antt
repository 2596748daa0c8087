-- ===== src/SignerList.antt =====
-- MpsSignerList of include/ndnmps/mps-signer-list.hpp and src/mps-signer-list.cpp.
pub mod Laws
use ndn_multi_party_signatur.Prelude.{
  ℕ, Bool, true, not, List, [], ◌∷◌, ◌==◌, if◌then◌else◌, Result, ok, throws, bad_tlv, ◌>>=◌,
}
use ndn_multi_party_signatur.Ordered.{Ord}
use ndn_multi_party_signatur.Ordered.Sort.{sort, vector_eq}
use ndn_multi_party_signatur.Tlv.{TlvBlock}

pub record MpsSignerList (Name : Type 0) : Type 0 where
  pub signers : List Name

-- MpsSignerList(), with no names
abbrev pub empty_list : {Name : Type 0} → MpsSignerList Name
empty_list = record { signers = [] }

module _ {Name : Type 0} ⦃o : Ord Name⦄ where
  -- operator==
  unfoldable pub equals : MpsSignerList Name → MpsSignerList Name → Bool
  equals a b = vector_eq (sort a.signers) (sort b.signers)

  -- operator!=
  unfoldable pub differs : MpsSignerList Name → MpsSignerList Name → Bool
  differs a b = not (equals a b)

-- tlv::MpsSignerList
abbrev pub signer_list_type : ℕ
signer_list_type = 200

module _ {Block Name : Type 0} ⦃B : TlvBlock Block Name⦄ where
  -- The loop of `wireEncode` over the signers.
  pub push_names : Block → List Name → Block
  push_names wire [] = wire
  push_names wire (item ∷ items) = push_names (B.push_back wire (B.name_encode item)) items

  unfoldable pub wire_encode : MpsSignerList Name → Block
  unfolding push_names
  wire_encode list = B.encode (push_names (B.new_block signer_list_type) list.signers)

  -- The loop of `wireDecode` over the elements.
  decode_names : List Block → Result (List Name)
  decode_names [] = ok []
  decode_names (item ∷ items) = do
    name ← B.name_decode item
    names ← decode_names items
    ok (name ∷ names)

  unfoldable pub wire_decode : Block → Result (MpsSignerList Name)
  unfolding decode_names
  wire_decode wire =
      if not (B.type wire == signer_list_type)
      then throws bad_tlv
      else do items ← B.elements wire; names ← decode_names items; ok (record { signers = names })
