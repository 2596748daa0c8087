-- ===== src/Initiator/Events/Ends.antt =====
-- The end of a signature after any answers and losses.
use mathlib.Core.List.{Permᴰ}
use ndn_multi_party_signatur.Prelude.{
  ℕ, ◌<◌, ◌≡◌, refl, ap, ◌∙◌, Bool, Bool-cases, Option-cases, Result-cases, inl, inr, true, ◌==◌,
  some, List, [], ◌∷◌, ◌++◌, length, length-append, map, Text, ok, arith,
}
use ndn_multi_party_signatur.Ndn.{NdnName}
use ndn_multi_party_signatur.Ordered.{Ord, same, eq_of_same}
use ndn_multi_party_signatur.Ordered.Set.{contains, Distinct}
use ndn_multi_party_signatur.Ordered.Set.Members.{sorted-Distinct}
use ndn_multi_party_signatur.Ordered.Set.Perm.{
  contains-append_one, Distinct-append_one, Distinct-Permᴰ, Permᴰ_map,
}
use ndn_multi_party_signatur.Ordered.Map.{lookup, has_key, keys, has_key-contains}
use ndn_multi_party_signatur.Tlv.{TlvBlock}
use ndn_multi_party_signatur.Packets.{
  SignatureInfos, DataPackets, InterestPackets, InfoPackets, BlsLibrary,
}
use ndn_multi_party_signatur.Bls.{gen_data_signature}
use ndn_multi_party_signatur.Schema.Policy.{MultipartySchema}
use ndn_multi_party_signatur.Schema.Container.{MultipartySchemaContainer, container_pass_schema}
use ndn_multi_party_signatur.Schema.Container.Available.{Available-of_ok}
use ndn_multi_party_signatur.Schema.Container.Decide.{Trusted, container_pass_schema_iff}
use ndn_multi_party_signatur.Schema.Replacement.Grow.{NamedKeys}
use ndn_multi_party_signatur.Verifier.{verify}
use ndn_multi_party_signatur.Initiator.{MultiSignGlobalState, on_signature, finish, start}
use ndn_multi_party_signatur.Initiator.Finish.{finish-verify}
use ndn_multi_party_signatur.Initiator.Deliver.{start-get_available_signers, prepare-key_locator}
use ndn_multi_party_signatur.Initiator.Events.{piece_of, Reached}
use ndn_multi_party_signatur.Initiator.Events.Answers.{Open, Reached-Open, map-append_one}

map-map :
    {A B C : Type 0} (f : B → C) (h : A → B) (xs : List A)
    → map f (map h xs) ≡ map (λ x. f (h x)) xs
map-map f h [] = refl
map-map f h (x ∷ xs) = ap (λ ys. f (h x) ∷ ys) (map-map f h xs)

length-map : {A B : Type 0} (f : A → B) (xs : List A) → length (map f xs) ≡ length xs
length-map f [] = refl
length-map f (x ∷ xs) = omega (arith, length-map f xs)

module _ {Name Info Data Interest Secret Public Signature Block : Type 0} ⦃N : NdnName Name⦄
    ⦃o : Ord Name⦄ ⦃B : TlvBlock Block Name⦄ (I : SignatureInfos Name Info)
    (D : DataPackets Data Info) (T : InterestPackets Interest Info)
    (L : BlsLibrary Secret Public Signature) (P : InfoPackets Name Info Data Block I D B)
    (secret : Name → Secret) where
  -- What the container of a verifier holds for trusted signers.
  map-lookup :
      (ids : List (Name × Public)) (names : List Name)
      → ((n : Name) (p : Public) → lookup ids n ≡ some p → p ≡ L.public_key (secret n))
      → Trusted ids names
      → map (lookup ids) names ≡ map some (map (λ n. L.public_key (secret n)) names)
  map-lookup ids [] keys_of t = refl
  map-lookup ids (n ∷ names) keys_of t = elim (Option-cases (lookup ids n)) [
    | inl e ↦
        let listed : has_key ids n ≡ contains (keys ids) n = has_key-contains ids n in
        cc (rw (has_key, e) at listed, t.0)
    | inr (p, e) ↦ rw (e, keys_of n p e, map-lookup ids names keys_of t.1) refl
  ]

  finish-verify_names :
      (v : MultipartySchemaContainer Name Public) (g : MultiSignGlobalState Name Data)
      (names : List Name) (packet info : Data)
      → P.key_locator_name g.to_be_signed ≡ ok (P.packet_name g.sign_info)
      → container_pass_schema v (P.packet_name g.to_be_signed) g.signers ≡ true
      → ((n : Name) (p : Public) → lookup v.trusted_ids n ≡ some p → p ≡ L.public_key (secret n))
      → Permᴰ names g.signers.signers
      → 0 < length names
      → g.fetched_signatures ≡ map (piece_of I D T L P secret g) names
      → finish I D T L P g ≡ ok (packet, info)
      → verify I D T L P v packet info ≡ ok true
  finish-verify_names v g [] packet info located passes keys_of perm some_name pieces ends =
      absurd (omega (arith, some_name))
  finish-verify_names v g (n ∷ ns) packet info located passes keys_of perm some_name pieces ends =
      let trusted =
        ((container_pass_schema_iff v (P.packet_name g.to_be_signed) g.signers).0 passes).0 in
      let public_of : Name → Public = λ m. L.public_key (secret m) in
      let (packet', info', made, good) =
        finish-verify I D T L P v g (secret n) (map secret ns) (map public_of g.signers.signers)
          located passes (map-lookup v.trusted_ids g.signers.signers keys_of trusted)
          (rw (map-map L.public_key secret ns) (Permᴰ_map public_of perm))
          (pieces
            ∙ rw (map-map (λ s. gen_data_signature I D T L s g.to_be_signed) secret ns) refl) in
      let same_packet : packet' ≡ packet = cc (rw ends at made) in
      let same_info : info' ≡ info = cc (rw ends at made) in rw (← same_packet, ← same_info) good

  on_signature-some :
      (g g' : MultiSignGlobalState Name Data) (piece : Text) (packets : Data × Data)
      → on_signature I D T L P g piece ≡ ok (g', some packets)
      → (length (g.fetched_signatures ++ piece ∷ []) ≡ length g.signers.signers)
        × (finish I D T L P (record g { fetched_signatures = g.fetched_signatures ++ piece ∷ [] })
            ≡ ok packets)
  unfolding on_signature
  on_signature-some g g' piece packets h =
      let g1 : MultiSignGlobalState Name Data = record g {
        fetched_signatures = g.fetched_signatures ++ piece ∷ [];
      } in
      elim (Bool-cases (length (g.fetched_signatures ++ piece ∷ []) == length g.signers.signers)) [
        | inr e ↦ cc (rw e at h)
        | inl e ↦ elim (Result-cases (finish I D T L P g1)) [
          | inr (x, f) ↦ cc (rw (e, f) at h)
          | inl (x, f) ↦
              let same_packets : x ≡ packets = cc (rw (e, f) at h) in
              (ground (arith, e), f ∙ ap ok same_packets)
        ]
      ]

  -- The last answer is that of the only signer without one.
  ending_names :
      (g0 g g' : MultiSignGlobalState Name Data) (c : MultipartySchemaContainer Name Public)
      (answered : List Name) (open_ : Name → Bool) (k : Name) (packets : Data × Data)
      → Open I D T L P secret g0 c g answered open_
      → open_ k ≡ true
      → on_signature I D T L P g (piece_of I D T L P secret g k) ≡ ok (g', some packets)
      → Permᴰ (answered ++ k ∷ []) g.signers.signers
  ending_names g0 g g' c answered open_ k packets x h e =
      let free = x.waiting k h in
      let full = (on_signature-some g g' (piece_of I D T L P secret g k) packets e).0 in
      Distinct-Permᴰ (answered ++ k ∷ []) g.signers.signers
        (Distinct-append_one answered k x.answered_once free.1) x.distinct
        (λ j a. elim (Bool-cases (same k j)) [
          | inl f ↦ rw (← eq_of_same k j f) free.0
          | inr f ↦ x.inside j (ground (arith, contains-append_one answered k j, a, f))
        ])
        (omega (
          arith,
          full,
          length-append answered (k ∷ []),
          length-append g.fetched_signatures (piece_of I D T L P secret g k ∷ []),
          ap length x.pieces,
          length-map (piece_of I D T L P secret g0) answered,
        ))

  -- Signers may be lost and replaced while others answer, in any order. When an answer then ends a
  -- signature that the initiator started, the signers of the final list have answered once each and
  -- no one else has, and a verifier accepts the two packets, if its container passes this list and
  -- holds for each signer the key that the signer signs with. It is assumed that no key that the
  -- initiator trusts has the name with no components.
  pub Reached-verify :
      (c0 c v : MultipartySchemaContainer Name Public) (r : ℕ) (prefix : Name) (unsigned : Data)
      (s : MultipartySchema Name) (key : Name) (failed : Bool)
      (g0 g g' : MultiSignGlobalState Name Data) (answered : List Name) (open_ : Name → Bool)
      (k : Name) (packet info : Data)
      → NamedKeys c0
      → start I D T L P c0 r prefix unsigned s key ≡ ok (failed, g0)
      → Reached I D T L P secret c0 g0 c g answered open_
      → open_ k ≡ true
      → on_signature I D T L P g (piece_of I D T L P secret g k) ≡ ok (g', some (packet, info))
      → ((n : Name) (p : Public) → lookup v.trusted_ids n ≡ some p → p ≡ L.public_key (secret n))
      → container_pass_schema v (P.packet_name unsigned) g.signers ≡ true
      → Permᴰ (answered ++ k ∷ []) g.signers.signers × (verify I D T L P v packet info ≡ ok true)
  Reached-verify c0 c v r prefix unsigned s key failed g0 g g' answered open_ k packet info named h
        reached waits ends keys_of passes =
      let (list, chosen, same_state) =
        start-get_available_signers I D T L P c0 r prefix unsigned s key failed g0 h in
      let (located, name_kept) = prepare-key_locator I D T L P r unsigned prefix in
      let distinct : Distinct g0.signers.signers =
        rw same_state (sorted-Distinct list.signers (Available-of_ok c0 s list chosen).sorted) in
      let fresh : g0.fetched_signatures ≡ [] = rw same_state refl in
      let x = Reached-Open I D T L P secret c0 c g0 g answered open_ named distinct fresh reached in
      let perm = ending_names g0 g g' c answered open_ k (packet, info) x waits ends in
      let piece = piece_of I D T L P secret g k in
      let finished = (on_signature-some g g' piece (packet, info) ends).1 in
      let g1 : MultiSignGlobalState Name Data = record g {
        fetched_signatures = g.fetched_signatures ++ piece ∷ [];
      } in
      let located' : P.key_locator_name g.to_be_signed ≡ ok (P.packet_name g.sign_info) =
        rw (x.packet, x.info, same_state) located in
      let passes' : container_pass_schema v (P.packet_name g.to_be_signed) g.signers ≡ true =
        rw (x.packet, same_state, name_kept) passes in
      let pieces : g1.fetched_signatures ≡ map (piece_of I D T L P secret g1) (answered ++ k ∷ []) =
        rw (x.pieces, x.packet, map-append_one (piece_of I D T L P secret g0) answered k) refl in
      (
        perm,
        finish-verify_names v g1 (answered ++ k ∷ []) packet info located' passes' keys_of perm
            (omega (arith, length-append answered (k ∷ []))) pieces finished,
      )
