-- ===== src/Signer/Reveals.antt =====
-- The states of a sign request, and what its answers reveal.
use ndn_multi_party_signatur.Prelude.{
  ℕ, ◌+◌, ◌≤◌, ◌≡◌, refl, Bool, Bool-cases, inl, inr, true, ◌==◌, Text, Result-cases, arith,
}
use ndn_multi_party_signatur.Ndn.{NdnName}
use ndn_multi_party_signatur.Bls.{gen_data_signature}
use ndn_multi_party_signatur.Messages.{Services}
use ndn_multi_party_signatur.Protocol.{processing, ok_code, is_processing, is_ok}
use ndn_multi_party_signatur.Signer.{
  SignRequestState, on_parameter_data, on_parameter_failure, on_result_request,
  generate_result_data, result_payload, parse_parameter_data,
}

module _
    {Name Info Data Interest Secret Public Signature Block Ctx Pkey EcKey Group Point Tpm : Type 0}
    (w : Services Name Info Data Interest Secret Public Signature Block Ctx Pkey EcKey Group Point
      Tpm)
    ⦃N : NdnName Name⦄ (estimate : ℕ) (key : Secret) (allowed : Data → Bool)
    (self_prefix result_prefix : Name) where
  -- What can happen to the state of a request: an answer to the Interest for the parameters, and
  -- requests for the result while the prefix is registered, answered or not.
  pub data Step : SignRequestState Pkey → SignRequestState Pkey → Type 0 where
    parameter :
        (tpm : Tpm) (s : SignRequestState Pkey) (packet : Data)
        → Step s (on_parameter_data w key allowed tpm s packet)
    failure : (s : SignRequestState Pkey) → Step s (on_parameter_failure w s)
    request :
        (tpm : Tpm) (s : SignRequestState Pkey) (interest_name : Name) (random_bytes : Text)
        → s.registered ≡ true
        → Step s
            (on_result_request w estimate tpm s self_prefix result_prefix interest_name
              random_bytes).1

  pub data Steps (s : SignRequestState Pkey) : SignRequestState Pkey → Type 0 where
    start_of : Steps s s
    then_ : {t u : SignRequestState Pkey} → Steps s t → Step t u → Steps s u

  -- A signature in the state is the signer's, over a packet that the callback allowed.
  pub IsAllowed : SignRequestState Pkey → Type 0
  IsAllowed s =
      (s.code ≡ ok_code)
      → (unsigned : Data) × (allowed unsigned ≡ true)
        × (s.signature_value ≡ gen_data_signature w.infos w.packets w.interests w.bls key unsigned)

  on_parameter_data-IsAllowed :
      (tpm : Tpm) (s : SignRequestState Pkey) (packet : Data)
      → IsAllowed s
      → IsAllowed (on_parameter_data w key allowed tpm s packet)
  unfolding on_parameter_data IsAllowed
  on_parameter_data-IsAllowed tpm s packet h =
      elim (Bool-cases (w.parts.hmac_verify tpm (w.parts.hmac_name s.hmac_key) packet)) [
        | inr bad ↦ rw bad h
        | inl good ↦ elim (Result-cases (parse_parameter_data w packet s.aes_key)) [
          | inr (x, e) ↦ rw (good, e) (λ c. cc)
          | inl (unsigned, e) ↦ elim (Bool-cases (allowed unsigned)) [
            | inl a ↦ rw (good, e, a) (λ c. (unsigned, a, refl))
            | inr a ↦ rw (good, e, a) (λ c. cc)
          ]
        ]
      ]

  -- Making a payload changes neither the code nor the signature.
  pub result_payload-same :
      (s : SignRequestState Pkey)
      → let s' = (result_payload w estimate s result_prefix).0 in
        (s'.code ≡ s.code) × (s'.signature_value ≡ s.signature_value) × (s.version ≤ s'.version)
  unfolding result_payload
  result_payload-same s = elim (Bool-cases (is_processing s.code)) [
    | inl p ↦ rw p (refl, refl, omega arith)
    | inr p ↦ elim (Bool-cases (is_ok s.code)) [
      | inl q ↦ rw (p, q) (refl, refl, omega arith)
      | inr q ↦ rw (p, q) (refl, refl, omega arith)
    ]
  ]

  on_result_request-IsAllowed :
      (tpm : Tpm) (s : SignRequestState Pkey) (interest_name : Name) (random_bytes : Text)
      → IsAllowed s
      → IsAllowed
          (on_result_request w estimate tpm s self_prefix result_prefix interest_name
            random_bytes).1
  unfolding on_result_request generate_result_data IsAllowed
  on_result_request-IsAllowed tpm s interest_name random_bytes h =
      elim (Bool-cases (N.size interest_name == N.size self_prefix + 5)) [
        | inr e ↦ rw e h
        | inl e ↦
            let (same_code, same_value, grown) = result_payload-same s in
            rw (e, same_code, same_value) h
      ]

  Step-IsAllowed : {s t : SignRequestState Pkey} → Step s t → IsAllowed s → IsAllowed t
  unfolding IsAllowed on_parameter_failure
  Step-IsAllowed (parameter tpm s packet) h = on_parameter_data-IsAllowed tpm s packet h
  Step-IsAllowed (failure s) h = λ c. cc
  Step-IsAllowed (request tpm s interest_name random_bytes r) h =
      on_result_request-IsAllowed tpm s interest_name random_bytes h

  -- The state that a sign request makes is still in processing, so whatever happens to it, when its
  -- code is OK its signature is the signer's signature of a packet that the callback allowed: no
  -- order of answers and requests makes the signer reveal a signature of a refused packet.
  pub Steps-IsAllowed :
      (s t : SignRequestState Pkey)
      → s.code ≡ processing
      → Steps s t
      → t.code ≡ ok_code
      → (unsigned : Data) × (allowed unsigned ≡ true)
        × (t.signature_value ≡ gen_data_signature w.infos w.packets w.interests w.bls key unsigned)
  unfolding IsAllowed
  Steps-IsAllowed s t fresh steps = go steps
    where
      go : {u : SignRequestState Pkey} → Steps s u → IsAllowed u
      go start_of = λ c. cc
      go (then_ steps step) = Step-IsAllowed step (go steps)
