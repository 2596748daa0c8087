-- ===== src/SignerList/Laws.antt =====
-- Comparison and encoding of signer lists.
use ndn_multi_party_signatur.Prelude.{
  ◌≡◌, ◌≢◌, refl, ◌∙◌, ◌↔◌, true, List, [], ◌∷◌, ◌++◌, map, ◌==◌, ok, throws, bad_tlv, arith,
  Bool-cases, inl, inr,
}
use mathlib.Core.List.{append_assoc, append-nil}
use ndn_multi_party_signatur.Ordered.{Ord}
use ndn_multi_party_signatur.Ordered.Sort.{occurrences, vector_eq-sort_iff}
use ndn_multi_party_signatur.Tlv.{TlvBlock}
use ndn_multi_party_signatur.SignerList.{
  MpsSignerList, equals, wire_encode, wire_decode, push_names, decode_names, signer_list_type,
}

module _ {Name : Type 0} ⦃o : Ord Name⦄ where
  -- Two signer lists compare equal exactly when every name stands in both of them the same number of
  -- times: they are compared as multisets, in which repeated names count and the order does not.
  pub equals_iff :
      (a b : MpsSignerList Name)
      → (equals a b ≡ true) ↔ ((k : Name) → occurrences k a.signers ≡ occurrences k b.signers)
  unfolding equals
  equals_iff a b = vector_eq-sort_iff a.signers b.signers

module _ (Block : Type 0) {Name : Type 0} ⦃B : TlvBlock Block Name⦄ where
  push_names-type :
      (wire : Block) (names : List Name) → B.type (push_names wire names) ≡ B.type wire
  unfolding push_names
  push_names-type wire [] = refl
  push_names-type wire (n ∷ names) =
      push_names-type (B.push_back wire (B.name_encode n)) names
      ∙ B.type-push_back wire (B.name_encode n)

  push_names-elements :
      (wire : Block) (names : List Name) (es : List Block)
      → B.elements wire ≡ ok es
      → B.elements (push_names wire names) ≡ ok (es ++ map B.name_encode names)
  unfolding push_names
  push_names-elements wire [] es h = rw append-nil h
  push_names-elements wire (n ∷ names) es h =
      rw (← append_assoc es (B.name_encode n ∷ []) (map B.name_encode names)) (
        push_names-elements (B.push_back wire (B.name_encode n)) names (es ++ B.name_encode n ∷ [])
          (B.elements-push_back wire (B.name_encode n) es h))

  decode_names-map :
      (names : List Name)
      → decode_names {Block = Block} {Name = Name} (map B.name_encode names) ≡ ok names
  unfolding decode_names
  decode_names-map [] = refl
  decode_names-map (n ∷ names) = rw (B.name_decode-name_encode n, decode_names-map names) refl

  pub type-wire_encode :
      (list : MpsSignerList Name) → B.type (wire_encode {Block = Block} list) ≡ signer_list_type
  unfolding wire_encode
  type-wire_encode list =
      B.type-encode (push_names (B.new_block signer_list_type) list.signers)
      ∙ push_names-type (B.new_block signer_list_type) list.signers
      ∙ B.type-new_block signer_list_type

  -- Decoding an encoded signer list gives the list back, names, order and repetitions.
  pub wire_decode-wire_encode :
      (list : MpsSignerList Name) → wire_decode {Block = Block} (wire_encode list) ≡ ok list
  unfolding wire_encode wire_decode
  wire_decode-wire_encode list =
      let start = B.new_block signer_list_type in
      rw
        (
          B.type-encode (push_names start list.signers),
          push_names-type start list.signers,
          B.type-new_block signer_list_type,
          B.elements-encode (push_names start list.signers),
          push_names-elements start list.signers [] (B.elements-new_block signer_list_type),
          decode_names-map list.signers,
        )
        refl

  -- A block of another type is refused.
  pub wire_decode_other :
      (wire : Block)
      → B.type wire ≢ signer_list_type
      → wire_decode {Name = Name} wire ≡ throws bad_tlv
  unfolding wire_decode
  wire_decode_other wire h = elim (Bool-cases (B.type wire == signer_list_type)) [
    | inl e ↦ absurd (h (ground arith))
    | inr e ↦ rw e refl
  ]
