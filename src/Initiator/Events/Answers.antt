-- ===== src/Initiator/Events/Answers.antt =====
-- What holds while answers and losses arrive.
use mathlib.Core.Path.{subst}
use ndn_multi_party_signatur.Prelude.{
  ◌≡◌, ◌≢◌, refl, ap, ◌∙◌, Bool, Bool-cases, Result-cases, inl, inr, true, false, not, ◌&&◌, ◌||◌,
  ◌==◌, none, List, [], ◌∷◌, ◌++◌, length, map, Text, ok, arith,
}
use ndn_multi_party_signatur.Ndn.{NdnName}
use ndn_multi_party_signatur.Ordered.{Ord, same, eq_of_same}
use ndn_multi_party_signatur.Ordered.Set.{contains, Distinct}
use ndn_multi_party_signatur.Ordered.Set.Members.{sorted-Distinct, contains_empty}
use ndn_multi_party_signatur.Ordered.Set.Perm.{contains-append_one, Distinct-append_one}
use ndn_multi_party_signatur.Tlv.{TlvBlock}
use ndn_multi_party_signatur.Packets.{
  SignatureInfos, DataPackets, InterestPackets, InfoPackets, BlsLibrary,
}
use ndn_multi_party_signatur.SignerList.{empty_list}
use ndn_multi_party_signatur.Schema.Container.{MultipartySchemaContainer}
use ndn_multi_party_signatur.Schema.Replacement.{replace_signer}
use ndn_multi_party_signatur.Schema.Replacement.Grow.{NamedKeys}
use ndn_multi_party_signatur.Schema.Replacement.Promise.{
  Replaced, replace_signer-Replaced, NamedKeys-mark,
}
use ndn_multi_party_signatur.Initiator.{
  MultiSignGlobalState, on_signature, finish, on_unavailable_signer,
}
use ndn_multi_party_signatur.Initiator.Events.{piece_of, Reached, begin_, answer, loss, failure}

pub map-append_one :
    {A B : Type 0} (f : A → B) (xs : List A) (x : A) → map f (xs ++ x ∷ []) ≡ map f xs ++ f x ∷ []
map-append_one f [] x = refl
map-append_one f (y ∷ xs) x = ap (λ ys. f y ∷ ys) (map-append_one f xs x)

module _ {Name Info Data Interest Secret Public Signature Block : Type 0} ⦃N : NdnName Name⦄
    ⦃o : Ord Name⦄ ⦃B : TlvBlock Block Name⦄ (I : SignatureInfos Name Info)
    (D : DataPackets Data Info) (T : InterestPackets Interest Info)
    (L : BlsLibrary Secret Public Signature) (P : InfoPackets Name Info Data Block I D B)
    (secret : Name → Secret) where
  on_signature-none :
      (g g' : MultiSignGlobalState Name Data) (piece : Text)
      → on_signature I D T L P g piece ≡ ok (g', none)
      → g' ≡ record g { fetched_signatures = g.fetched_signatures ++ piece ∷ [] }
  unfolding on_signature
  on_signature-none g g' piece h =
      let g1 : MultiSignGlobalState Name Data = record g {
        fetched_signatures = g.fetched_signatures ++ piece ∷ [];
      } in
      elim (Bool-cases (length (g.fetched_signatures ++ piece ∷ []) == length g.signers.signers)) [
        | inr e ↦ cc (rw e at h)
        | inl e ↦ elim (Result-cases (finish I D T L P g1)) [
          | inr (x, f) ↦ cc (rw (e, f) at h)
          | inl (x, f) ↦ cc (rw (e, f) at h)
        ]
      ]

  -- The answers are the pieces of different signers of the list, and the open requests go to others.
  pub record Open (g0 : MultiSignGlobalState Name Data) (c : MultipartySchemaContainer Name Public)
      (g : MultiSignGlobalState Name Data) (answered : List Name) (open_ : Name → Bool)
      : Type 0 where
    pub packet : g.to_be_signed ≡ g0.to_be_signed
    pub info : g.sign_info ≡ g0.sign_info
    pub pieces : g.fetched_signatures ≡ map (piece_of I D T L P secret g0) answered
    pub named : NamedKeys c
    pub distinct : Distinct g.signers.signers
    pub answered_once : Distinct answered
    pub inside : (j : Name) → contains answered j ≡ true → contains g.signers.signers j ≡ true
    pub waiting :
        (j : Name)
        → open_ j ≡ true
        → (contains g.signers.signers j ≡ true) × (contains answered j ≡ false)

  answer-Open :
      (g0 g g' : MultiSignGlobalState Name Data) (c : MultipartySchemaContainer Name Public)
      (answered : List Name) (open_ : Name → Bool) (k : Name)
      → Open g0 c g answered open_
      → open_ k ≡ true
      → on_signature I D T L P g (piece_of I D T L P secret g k) ≡ ok (g', none)
      → Open g0 c g' (answered ++ k ∷ []) (λ j. open_ j && not (same k j))
  answer-Open g0 g g' c answered open_ k x h e =
      rw (on_signature-none g g' (piece_of I D T L P secret g k) e) (record {
        packet = x.packet;
        info = x.info;
        pieces =
            rw (x.pieces, x.packet, map-append_one (piece_of I D T L P secret g0) answered k) refl;
        named = x.named;
        distinct = x.distinct;
        answered_once = Distinct-append_one answered k x.answered_once (x.waiting k h).1;
        inside = λ j c'. elim (Bool-cases (same k j)) [
          | inl e ↦ rw (← eq_of_same k j e) (x.waiting k h).0
          | inr e ↦ x.inside j (ground (arith, contains-append_one answered k j, c', e))
        ];
        waiting = λ j c'.
            let free = x.waiting j (ground (arith, c')) in
            (free.0, ground (arith, contains-append_one answered k j, free.1, c'));
      })

  -- A loss that does not fail, and one that does.
  record Lost (c : MultipartySchemaContainer Name Public) (g : MultiSignGlobalState Name Data)
      (k : Name) (c' : MultipartySchemaContainer Name Public) (g' : MultiSignGlobalState Name Data)
      (asked : List Name) : Type 0 where
    packet : g'.to_be_signed ≡ g.to_be_signed
    info : g'.sign_info ≡ g.sign_info
    fetched : g'.fetched_signatures ≡ g.fetched_signatures
    named : NamedKeys c'
    replaced : Replaced c g.signers k g'.signers asked

  replace_signer-container :
      (c : MultipartySchemaContainer Name Public) (g : MultiSignGlobalState Name Data) (k : Name)
      → NamedKeys c
      → NamedKeys (replace_signer c g.signers k g.schema).0
  unfolding replace_signer
  replace_signer-container c g k named = NamedKeys-mark c k named

  on_unavailable_signer-Lost :
      (c : MultipartySchemaContainer Name Public) (g : MultiSignGlobalState Name Data) (k : Name)
      → NamedKeys c
      → (on_unavailable_signer c g k).3 ≡ false
      → Lost c g k
          (on_unavailable_signer c g k).0
          (on_unavailable_signer c g k).1
          (on_unavailable_signer c g k).2
  unfolding on_unavailable_signer
  on_unavailable_signer-Lost c g k named h =
      let list' = (replace_signer c g.signers k g.schema).1 in
      elim (Bool-cases (length list'.signers == 0)) [
        | inl e ↦ cc (rw e at h)
        | inr e ↦
            let nonempty : list' ≢ empty_list =
              λ r. cc (subst (λ l. (length l.signers == 0) ≡ false) r e) in
            rw e (record {
              packet = refl;
              info = refl;
              fetched = refl;
              named = replace_signer-container c g k named;
              replaced = elim (replace_signer-Replaced c g.signers k g.schema named).1 [
                | inl (none_left, same) ↦ absurd (nonempty none_left)
                | inr r ↦ r
              ];
            })
      ]

  on_unavailable_signer_failed :
      (c : MultipartySchemaContainer Name Public) (g : MultiSignGlobalState Name Data) (k : Name)
      → NamedKeys c
      → (on_unavailable_signer c g k).3 ≡ true
      → ((on_unavailable_signer c g k).1 ≡ g) × NamedKeys (on_unavailable_signer c g k).0
  unfolding on_unavailable_signer
  on_unavailable_signer_failed c g k named h =
      let list' = (replace_signer c g.signers k g.schema).1 in
      elim (Bool-cases (length list'.signers == 0)) [
        | inl e ↦ rw e (refl, replace_signer-container c g k named)
        | inr e ↦ cc (rw e at h)
      ]

  loss-Open :
      (g0 g g' : MultiSignGlobalState Name Data) (c c' : MultipartySchemaContainer Name Public)
      (answered asked : List Name) (open_ : Name → Bool) (k : Name)
      → Open g0 c g answered open_
      → open_ k ≡ true
      → Lost c g k c' g' asked
      → Open g0 c' g' answered (λ j. (open_ j && not (same k j)) || contains asked j)
  loss-Open g0 g g' c c' answered asked open_ k x h l =
      let r = l.replaced in
      let free = x.waiting k h in
      record {
        packet = l.packet ∙ x.packet;
        info = l.info ∙ x.info;
        pieces = l.fetched ∙ x.pieces;
        named = l.named;
        distinct = sorted-Distinct g'.signers.signers r.sorted;
        answered_once = x.answered_once;
        inside = λ j a. elim (Bool-cases (same k j)) [
          | inl e ↦ absurd (ground (arith, (rw (eq_of_same k j e) at free.1), a))
          | inr e ↦ ground (arith, r.members j, x.inside j a, e)
        ];
        waiting = λ j a. elim (Bool-cases (contains asked j)) [
          | inl e ↦
              let new = (r.diff_new j e).0 in
              (
                ground (arith, r.members j, e),
                elim (Bool-cases (contains answered j)) [
                  | inl f ↦ absurd (ground (arith, x.inside j f, new))
                  | inr f ↦ f
                ],
              )
          | inr e ↦
              let old : (open_ j && not (same k j)) ≡ true = ground (arith, a, e) in
              let free_j = x.waiting j (ground (arith, old)) in
              (ground (arith, r.members j, free_j.0, old), free_j.1)
        ];
      }

  failure-Open :
      (g0 g g' : MultiSignGlobalState Name Data) (c c' : MultipartySchemaContainer Name Public)
      (answered : List Name) (open_ : Name → Bool)
      → Open g0 c g answered open_
      → g' ≡ g
      → NamedKeys c'
      → Open g0 c' g' answered open_
  failure-Open g0 g g' c c' answered open_ x kept named = rw kept (record {
    packet = x.packet;
    info = x.info;
    pieces = x.pieces;
    named = named;
    distinct = x.distinct;
    answered_once = x.answered_once;
    inside = x.inside;
    waiting = x.waiting;
  })

  -- Whatever arrives, the invariant holds.
  pub Reached-Open :
      (c0 c : MultipartySchemaContainer Name Public) (g0 g : MultiSignGlobalState Name Data)
      (answered : List Name) (open_ : Name → Bool)
      → NamedKeys c0
      → Distinct g0.signers.signers
      → g0.fetched_signatures ≡ []
      → Reached I D T L P secret c0 g0 c g answered open_
      → Open g0 c g answered open_
  Reached-Open c0 c g0 g answered open_ named distinct fresh reached = go reached
    where
      go :
          {c1 : MultipartySchemaContainer Name Public} {g1 : MultiSignGlobalState Name Data}
          {ks : List Name} {ws : Name → Bool}
          → Reached I D T L P secret c0 g0 c1 g1 ks ws
          → Open g0 c1 g1 ks ws
      go begin_ = record {
        packet = refl;
        info = refl;
        pieces = fresh;
        named = named;
        distinct = distinct;
        answered_once = tt;
        inside = λ j a. absurd (ground (arith, contains_empty j, a));
        waiting = λ j a. (a, contains_empty j);
      }
      go (answer k g' r h e) = answer-Open _ _ g' _ _ _ k (go r) h e
      go (loss k r h e) =
          let x = go r in
          loss-Open _ _ _ _ _ _ _ _ k x h (on_unavailable_signer-Lost _ _ k x.named e)
      go (failure k r h e) =
          let x = go r in
          let (kept, named') = on_unavailable_signer_failed _ _ k x.named e in
          failure-Open _ _ _ _ _ _ _ x kept named'
