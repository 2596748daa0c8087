-- ===== src/Signer/Taken.antt =====
-- The requests that a signer takes.
use ndn_multi_party_signatur.Prelude.{
  ℕ, ◌≡◌, refl, ap, ◌∙◌, Bool, Bool-cases, inl, inr, true, some, [], Text, ok, Result-cases,
}
use mathlib.Core.Path.{subst}
use ndn_multi_party_signatur.Ndn.{NdnName}
use ndn_multi_party_signatur.Bls.{gen_data_signature}
use ndn_multi_party_signatur.Messages.{Services}
use ndn_multi_party_signatur.Crypto.{
  EcdhState, ecdh_new, derive_secret, session_keys, get_self_pub_key,
}
use ndn_multi_party_signatur.Protocol.{processing, ok_code}
use ndn_multi_party_signatur.Signer.{
  SignRequestState, on_sign_request, parse_sign_request_payload, take_request, new_request_state,
  sign_ack, refusal_ack, generate_sign_request_ack, refuse, accept,
}
use ndn_multi_party_signatur.Signer.Reveals.{Steps, Steps-IsAllowed}

module _
    {Name Info Data Interest Secret Public Signature Block Ctx Pkey EcKey Group Point Tpm : Type 0}
    (w : Services Name Info Data Interest Secret Public Signature Block Ctx Pkey EcKey Group Point
      Tpm)
    ⦃N : NdnName Name⦄ (estimate : ℕ) where
  -- How a request that is taken comes to its state.
  pub record Started (randomness : ℕ) (peer salt : Text) (s : SignRequestState Pkey) : Type 0 where
    pub own : EcdhState Pkey
    pub secret : Text
    pub created : ecdh_new w.keys randomness ≡ ok own
    pub derived : derive_secret w.keys own peer ≡ ok (s.ecdh, secret)
    pub shared : session_keys w.derivation secret salt ≡ ok (s.aes_key, s.hmac_key)
    pub pending : s.code ≡ processing
    pub answering : s.registered ≡ true

  pub new_request_state-Started :
      (randomness : ℕ) (peer salt : Text) (s : SignRequestState Pkey)
      → new_request_state w estimate randomness peer salt ≡ ok s
      → Started randomness peer salt s
  unfolding new_request_state
  new_request_state-Started randomness peer salt s h =
      elim (Result-cases (ecdh_new w.keys randomness)) [
        | inr (x, e) ↦ cc (rw (new_request_state, e) at h)
        | inl (own, e) ↦ elim (Result-cases (derive_secret w.keys own peer)) [
          | inr (x, f) ↦ cc (rw (new_request_state, e, f) at h)
          | inl ((own', secret), f) ↦ elim (Result-cases (session_keys w.derivation secret salt)) [
            | inr (x, g) ↦ cc (rw (new_request_state, e, f, g) at h)
            | inl ((aes, hmac), g) ↦
                let made : record {
                  ecdh = own';
                  aes_key = aes;
                  code = processing;
                  signature_value = [];
                  version = 0;
                  registered = true;
                  hmac_key = hmac;
                }
                    ≡ s =
                  cc (rw (new_request_state, e, f, g) at h) in
                subst (Started randomness peer salt) made (record {
                  own = own;
                  secret = secret;
                  created = e;
                  derived = f;
                  shared = g;
                  pending = refl;
                  answering = refl;
                })
          ]
        ]
      ]

  -- How it comes to its ack.
  pub record Taken (self_prefix : Name) (randomness : ℕ) (salt : Text) (request_id : ℕ)
      (random_bytes : Text) (interest_name : Name) (peer : Text) (s : SignRequestState Pkey)
      (ack : Data) : Type 0 where
    pub before : SignRequestState Pkey
    pub own : EcdhState Pkey
    pub self_pub : Text
    pub started : Started randomness peer salt before
    pub published : get_self_pub_key w.keys before.ecdh ≡ ok (own, self_pub)
    pub acked :
        generate_sign_request_ack w estimate interest_name self_prefix processing request_id salt
          self_pub before.aes_key random_bytes
        ≡ ok ack
    pub state : s ≡ record before { ecdh = own }

  pub take_request-Taken :
      (self_prefix : Name) (randomness : ℕ) (salt : Text) (request_id : ℕ) (random_bytes : Text)
      (interest_name : Name) (peer : Text) (s : SignRequestState Pkey) (ack : Data)
      → take_request w estimate self_prefix randomness salt request_id random_bytes interest_name
          peer
        ≡ ok (s, ack)
      → Taken self_prefix randomness salt request_id random_bytes interest_name peer s ack
  unfolding take_request
  take_request-Taken self_prefix randomness salt request_id random_bytes interest_name peer s ack
        h =
      elim (Result-cases (new_request_state w estimate randomness peer salt)) [
        | inr (x, e) ↦ cc (rw (take_request, e) at h)
        | inl (b, e) ↦ elim (Result-cases (get_self_pub_key w.keys b.ecdh)) [
          | inr (x, f) ↦ cc (rw (take_request, e, f) at h)
          | inl ((own, self_pub), f) ↦
              elim (Result-cases (
                generate_sign_request_ack w estimate interest_name self_prefix processing request_id
                  salt self_pub b.aes_key random_bytes)) [
                    | inr (x, g) ↦ cc (rw (take_request, e, f, g) at h)
                    | inl (a, g) ↦
                        let made : (record b { ecdh = own }, a) ≡ (s, ack) =
                          cc (rw (take_request, e, f, g) at h) in
                        subst
                          (λ (x : SignRequestState Pkey × Data).
                            Taken self_prefix randomness salt request_id random_bytes interest_name
                              peer x.0 x.1)
                          made
                          (record {
                            before = b;
                            own = own;
                            self_pub = self_pub;
                            started = new_request_state-Started randomness peer salt b e;
                            published = f;
                            acked = g;
                            state = refl;
                          })
                  ]
        ]
      ]

  pub refuse_none :
      (key : Secret) (key_name interest_name : Name) {ack : Data} {x : SignRequestState Pkey × Name}
      → refuse w estimate key key_name interest_name ≡ ok (ack, some x)
      → ⊥
  unfolding refuse
  refuse_none key key_name interest_name h =
      elim (Result-cases (sign_ack w key key_name (refusal_ack w estimate interest_name))) [
        | inl (a, e) ↦ cc (rw (refuse, e) at h)
        | inr (x, e) ↦ cc (rw (refuse, e) at h)
      ]

  -- An answer with a state is that of a request that was taken.
  pub accept-Taken :
      (key : Secret) (key_name self_prefix : Name) (randomness : ℕ) (salt : Text) (request_id : ℕ)
      (random_bytes : Text) (interest_name : Name) (request : Name × Text) (ack : Data)
      (s : SignRequestState Pkey) (fetched : Name)
      → accept w estimate key key_name self_prefix randomness salt request_id random_bytes
          interest_name request
        ≡ ok (ack, some (s, fetched))
      → (unsigned_ack : Data) × Taken self_prefix randomness salt request_id random_bytes
          interest_name request.1 s unsigned_ack
        × (sign_ack w key key_name unsigned_ack ≡ ok ack)
        × (request.0 ≡ fetched)
  unfolding accept
  accept-Taken key key_name self_prefix randomness salt request_id random_bytes interest_name
        request ack s fetched h =
      elim (Result-cases (
        take_request w estimate self_prefix randomness salt request_id random_bytes interest_name
          request.1)) [
            | inr (x, e) ↦ cc (rw (accept, e) at h)
            | inl ((b, a), e) ↦ elim (Result-cases (sign_ack w key key_name a)) [
              | inr (x, f) ↦ cc (rw (accept, e, f) at h)
              | inl (a', f) ↦
                  let same : b ≡ s = cc (rw (accept, e, f) at h) in
                  let same_ack : a' ≡ ack = cc (rw (accept, e, f) at h) in
                  let same_name : request.0 ≡ fetched = cc (rw (accept, e, f) at h) in
                  let k =
                    take_request-Taken self_prefix randomness salt request_id random_bytes
                      interest_name request.1 b a e in
                  (
                    a,
                    subst
                        (λ x.
                          Taken self_prefix randomness salt request_id random_bytes interest_name
                            request.1 x a)
                        same k,
                    f ∙ ap ok same_ack,
                    same_name,
                  )
            ]
          ]

  -- Only a request that the callback took, with a right digest and readable parameters, makes a
  -- state, and whatever happens to this state, in any order and number of answers and requests, when
  -- its code is OK its signature is the signer's signature of a packet that the other callback
  -- allowed.
  pub on_sign_request-Steps :
      (key : Secret) (key_name self_prefix : Name) (verify_sign_request : Interest → Bool)
      (randomness : ℕ) (salt : Text) (request_id : ℕ) (random_bytes : Text) (interest : Interest)
      (ack : Data) (s t : SignRequestState Pkey) (fetched : Name) (allowed : Data → Bool)
      (result_prefix : Name)
      → on_sign_request w estimate key key_name self_prefix verify_sign_request randomness salt
          request_id random_bytes interest
        ≡ ok (ack, some (s, fetched))
      → Steps w estimate key allowed self_prefix result_prefix s t
      → (verify_sign_request interest ≡ true)
        × (w.parts.is_parameters_digest_valid interest ≡ true)
        × ((peer : Text) × (parse_sign_request_payload w interest ≡ ok (fetched, peer)))
        × (t.code ≡ ok_code
            → (unsigned : Data) × (allowed unsigned ≡ true)
              × (t.signature_value
                  ≡ gen_data_signature w.infos w.packets w.interests w.bls key unsigned))
  unfolding on_sign_request
  on_sign_request-Steps key key_name self_prefix verify_sign_request randomness salt request_id
        random_bytes interest ack s t fetched allowed result_prefix h steps =
      elim (Bool-cases (verify_sign_request interest)) [
        | inr v ↦ absurd (refuse_none key key_name _ (rw (on_sign_request, v) at h))
        | inl v ↦ elim (Bool-cases (w.parts.is_parameters_digest_valid interest)) [
          | inr d ↦ absurd (refuse_none key key_name _ (rw (on_sign_request, v, d) at h))
          | inl d ↦ elim (Result-cases (parse_sign_request_payload w interest)) [
            | inr (x, e) ↦ absurd (refuse_none key key_name _ (rw (on_sign_request, v, d, e) at h))
            | inl ((name, peer), e) ↦
                let (a, k, signed, same) =
                  accept-Taken key key_name self_prefix randomness salt request_id random_bytes
                    (w.parts.interest_name interest) (name, peer) ack s fetched
                    (rw (on_sign_request, v, d, e) at h) in
                (
                  v,
                  d,
                  (peer, (rw (e, same) refl)),
                  Steps-IsAllowed w estimate key allowed self_prefix result_prefix s t
                      (rw k.state k.started.pending) steps,
                )
          ]
        ]
      ]
