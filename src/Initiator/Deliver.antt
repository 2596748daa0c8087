-- ===== src/Initiator/Deliver.antt =====
-- A multi-party signature from its start to its end.
use mathlib.Core.List.{Permᴰ, append_assoc}
use ndn_multi_party_signatur.Prelude.{
  codes, ℕ, suc, ◌+◌, ◌≡◌, ◌≢◌, refl, sym, ap, ◌∙◌, Bool, true, false, some, List, [], ◌∷◌, ◌++◌,
  ◌==◌, length, map, Text, ok, ◌>>=◌, Result-cases, arith, length-append, inl, inr,
}
use ndn_multi_party_signatur.Ndn.{NdnName}
use ndn_multi_party_signatur.Ordered.{Ord}
use ndn_multi_party_signatur.Ordered.Map.{lookup}
use ndn_multi_party_signatur.Ordered.Set.Perm.{length-Permᴰ}
use ndn_multi_party_signatur.Tlv.{TlvBlock}
use ndn_multi_party_signatur.Packets.{
  SignatureInfos, DataPackets, InterestPackets, InfoPackets, BlsLibrary,
}
use ndn_multi_party_signatur.Bls.{gen_data_signature, bls_signature_type}
use ndn_multi_party_signatur.SignerList.{MpsSignerList}
use ndn_multi_party_signatur.Schema.Policy.{MultipartySchema}
use ndn_multi_party_signatur.Schema.Container.{
  MultipartySchemaContainer, get_available_signers, container_pass_schema,
}
use ndn_multi_party_signatur.Schema.Container.Decide.{
  Decides, container_pass_schema-get_available_signers,
}
use ndn_multi_party_signatur.Verifier.{verify}
use ndn_multi_party_signatur.Initiator.{
  MultiSignGlobalState, prepare_unfinished_data_and_info_data, start, finish, on_signature, deliver,
}
use ndn_multi_party_signatur.Initiator.Finish.{finish-verify}

length-map : {A B : Type 0} (f : A → B) (xs : List A) → length (map f xs) ≡ length xs
length-map f [] = refl
length-map f (x ∷ xs) = ap suc (length-map f xs)

module _ {Name Info Data Interest Secret Public Signature Block : Type 0} ⦃N : NdnName Name⦄
    ⦃o : Ord Name⦄ ⦃B : TlvBlock Block Name⦄ (I : SignatureInfos Name Info)
    (D : DataPackets Data Info) (T : InterestPackets Interest Info)
    (L : BlsLibrary Secret Public Signature) (P : InfoPackets Name Info Data Block I D B) where
  -- A state with more pieces.
  abbrev with_pieces : MultiSignGlobalState Name Data → List Text → MultiSignGlobalState Name Data
  with_pieces g pieces = record g { fetched_signatures = g.fetched_signatures ++ pieces }

  on_signature_last :
      (g : MultiSignGlobalState Name Data) (piece : Text)
      → length g.fetched_signatures + 1 ≡ length g.signers.signers
      → deliver I D T L P g (piece ∷ [])
        ≡ (finish I D T L P (with_pieces g (piece ∷ [])) >>= λ x. ok (some x))
  unfolding deliver on_signature
  on_signature_last g piece h =
      let full : (length (g.fetched_signatures ++ piece ∷ []) == length g.signers.signers) ≡ true =
        ground (arith, h, length-append g.fetched_signatures (piece ∷ [])) in
      elim (Result-cases (finish I D T L P (with_pieces g (piece ∷ [])))) [
        | inl (x, e) ↦ rw (full, e) refl
        | inr (x, e) ↦ rw (full, e) refl
      ]

  on_signature_more :
      (g : MultiSignGlobalState Name Data) (piece : Text) (pieces : List Text)
      → length g.fetched_signatures + 1 ≢ length g.signers.signers
      → deliver I D T L P g (piece ∷ pieces) ≡ deliver I D T L P (with_pieces g (piece ∷ [])) pieces
  unfolding deliver on_signature
  on_signature_more g piece pieces h =
      let open_ : (length (g.fetched_signatures ++ piece ∷ []) == length g.signers.signers)
          ≡ false =
        ground (arith, h, length-append g.fetched_signatures (piece ∷ [])) in
      rw (open_) refl

  -- Where as many pieces arrive as there are signers without a piece, the first ones end nothing and
  -- the last one ends the signature, with all the pieces in the order of their arrival.
  pub deliver-finish :
      (g : MultiSignGlobalState Name Data) (piece : Text) (pieces : List Text)
      → length g.fetched_signatures + length (piece ∷ pieces) ≡ length g.signers.signers
      → deliver I D T L P g (piece ∷ pieces) ≡ (
          finish I D T L P
            (record g { fetched_signatures = g.fetched_signatures ++ piece ∷ pieces })
          >>= λ x. ok (some x))
  deliver-finish g piece [] h = on_signature_last g piece (omega (arith, h))
  deliver-finish g piece (next ∷ pieces) h =
      on_signature_more g piece (next ∷ pieces) (λ e. ground (arith, h, e))
      ∙ deliver-finish (with_pieces g (piece ∷ [])) next pieces
          (omega (arith, h, length-append g.fetched_signatures (piece ∷ [])))
      ∙ ap (λ ps. finish I D T L P (record g { fetched_signatures = ps }) >>= λ x. ok (some x))
          (append_assoc g.fetched_signatures (piece ∷ []) (next ∷ pieces))

  pub start-get_available_signers :
      (c : MultipartySchemaContainer Name Public) (r : ℕ) (prefix : Name) (unsigned : Data)
      (s : MultipartySchema Name) (key : Name) (failed : Bool) (g : MultiSignGlobalState Name Data)
      → start I D T L P c r prefix unsigned s key ≡ ok (failed, g)
      → (list : MpsSignerList Name) × (get_available_signers c s ≡ ok list)
        × (g ≡ record {
          signers = list;
          schema = s;
          to_be_signed = (prepare_unfinished_data_and_info_data I D T L P r unsigned prefix).0;
          sign_info = (prepare_unfinished_data_and_info_data I D T L P r unsigned prefix).1;
          fetched_signatures = [];
          signing_key_name = key;
        })
  unfolding start
  start-get_available_signers c r prefix unsigned s key failed g h =
      elim (Result-cases (get_available_signers c s)) [
        | inr (x, e) ↦ cc (rw (start, e) at h)
        | inl (list, e) ↦ (list, e, cc (rw (start, e) at h))
      ]

  pub prepare-key_locator :
      (r : ℕ) (unsigned : Data) (prefix : Name)
      → let packets = prepare_unfinished_data_and_info_data I D T L P r unsigned prefix in
        (P.key_locator_name packets.0 ≡ ok (P.packet_name packets.1))
        × (P.packet_name packets.0 ≡ P.packet_name unsigned)
  unfolding prepare_unfinished_data_and_info_data
  prepare-key_locator r unsigned prefix =
      let key_locator = P.append_number (N.append_text prefix (codes "mps")) r in
      let info = I.new_info bls_signature_type key_locator in
      let packet = D.set_signature_info unsigned info in
      (
        P.key_locator_name-set_value packet []
            ∙ P.key_locator_name-set_info unsigned bls_signature_type key_locator
            ∙ ap ok (sym (P.packet_name-new_data key_locator)),
        P.packet_name-set_value packet [] ∙ P.packet_name-set_info unsigned info,
      )

  -- The pieces of the signers end the signature, one for each signer.
  all_pieces-finish :
      (c : MultipartySchemaContainer Name Public) (g : MultiSignGlobalState Name Data) (k : Secret)
      (ks : List Secret) (pubs : List Public)
      → g.fetched_signatures ≡ []
      → map (lookup c.trusted_ids) g.signers.signers ≡ map some pubs
      → Permᴰ (map L.public_key (k ∷ ks)) pubs
      → deliver I D T L P g (map (λ x. gen_data_signature I D T L x g.to_be_signed) (k ∷ ks)) ≡ (
          finish I D T L P
            (with_pieces g (map (λ x. gen_data_signature I D T L x g.to_be_signed) (k ∷ ks)))
          >>= λ x. ok (some x))
  all_pieces-finish c g k ks pubs fresh held p =
      deliver-finish g (gen_data_signature I D T L k g.to_be_signed)
        (map (λ x. gen_data_signature I D T L x g.to_be_signed) ks)
        (let all_came =
            ap suc (
              length-map (λ x. gen_data_signature I D T L x g.to_be_signed) ks
              ∙ sym (length-map L.public_key ks))
            ∙ length-Permᴰ p
            ∙ sym (length-map some pubs)
            ∙ ap length (sym held)
            ∙ length-map (lookup c.trusted_ids) g.signers.signers in
          rw fresh (omega (arith, all_came)))

  -- A multi-party signature succeeds and is accepted: the initiator starts with the signers that its
  -- container has for a schema, the schema decides on the packet, and the pieces of the keys that
  -- the container holds for these signers arrive in any order. Then the last piece ends the
  -- signature with a packet and an info packet, and a verifier with the same container accepts them.
  pub deliver-verify :
      (c : MultipartySchemaContainer Name Public) (r : ℕ) (prefix : Name) (unsigned : Data)
      (s : MultipartySchema Name) (key : Name) (failed : Bool) (g : MultiSignGlobalState Name Data)
      (k : Secret) (ks : List Secret) (pubs : List Public)
      → start I D T L P c r prefix unsigned s key ≡ ok (failed, g)
      → Decides c.schemas (P.packet_name unsigned) s
      → map (lookup c.trusted_ids) g.signers.signers ≡ map some pubs
      → Permᴰ (map L.public_key (k ∷ ks)) pubs
      → (packet : Data) × (info : Data) × (deliver I D T L P g
            (map (λ x. gen_data_signature I D T L x g.to_be_signed) (k ∷ ks))
          ≡ ok (some (packet, info)))
        × (verify I D T L P c packet info ≡ ok true)
  deliver-verify c r prefix unsigned s key failed g k ks pubs h d held p =
      let (list, chosen, same_state) =
        start-get_available_signers c r prefix unsigned s key failed g h in
      let (located, named) = prepare-key_locator r unsigned prefix in
      let fresh : g.fetched_signatures ≡ [] = rw same_state refl in
      let pieces = map (λ x. gen_data_signature I D T L x g.to_be_signed) (k ∷ ks) in
      let passes : container_pass_schema c (P.packet_name g.to_be_signed) g.signers ≡ true =
        rw (same_state, named)
          (container_pass_schema-get_available_signers c s (P.packet_name unsigned) list chosen
            d) in
      let (packet, info, made, good) =
        finish-verify I D T L P c (with_pieces g pieces) k ks pubs (rw same_state located) passes
          held p (ap (λ ps. ps ++ pieces) fresh) in
      (packet, info, (all_pieces-finish c g k ks pubs fresh held p ∙ rw made refl), good)
