-- ===== src/Signer/New.antt =====
-- The constructor of BLSSigner, of src/signer.cpp. The face and the key chain are left out; the
-- randomness of the key and the time are arguments.
use ndn_multi_party_signatur.Prelude.{
  ℕ, ◌≡◌, Bool, Bool-cases, Result-cases, inl, inr, true, false, codes, Result, ok, if◌then◌else◌,
  ◌>>=◌,
}
use ndn_multi_party_signatur.Ndn.{NdnName}
use ndn_multi_party_signatur.Packets.{SignatureInfos, DataPackets, InterestPackets, BlsLibrary}
use ndn_multi_party_signatur.Bls.{init, verify_data}
use ndn_multi_party_signatur.Bls.Certificate.{
  Certificates, gen_self_signed_certificate, gen_self_signed_certificate-verify_data,
}

-- BLSSigner, without its callbacks, with the prefix of its sign requests.
pub record BlsSigner (Name Secret Public : Type 0) : Type 0 where
  pub prefix : Name
  pub key_name : Name
  pub sk : Secret
  pub pk : Public
  pub invocation_prefix : Name

-- blsSecretKeySetByCSPRNG, and appendTimestamp() of a name.
pub record KeyMaking (Name Secret : Type 0) ⦃N : NdnName Name⦄ : Type 0 where
  pub random_secret : ℕ → Secret
  pub append_timestamp : Name → ℕ → Name
  pub empty-append_timestamp : (n : Name) (t : ℕ) → N.empty (append_timestamp n t) ≡ false

module _ {Name Info Data Interest Secret Public Signature : Type 0} ⦃N : NdnName Name⦄
    (I : SignatureInfos Name Info) (D : DataPackets Data Info) (T : InterestPackets Interest Info)
    (L : BlsLibrary Secret Public Signature) (M : KeyMaking Name Secret) where
  -- BLSSigner::BLSSigner, with the flag of ndnBLSInit before and after.
  unfoldable pub bls_signer_new :
      Bool → Name → Name → ℕ → ℕ → Result (Bool × BlsSigner Name Secret Public)
  bls_signer_new initialized prefix key_name randomness now =
      init I D T L initialized >>= λ initialized'.
      let sk = M.random_secret randomness in
      ok (
        initialized',
        record {
          prefix = prefix;
          key_name =
              if N.empty key_name
              then M.append_timestamp (N.append_text prefix (codes "KEY")) now
              else key_name;
          sk = sk;
          pk = L.public_key sk;
          invocation_prefix = N.append_text (N.append_text prefix (codes "mps")) (codes "sign");
        },
      )

module _ {Name Info Data Interest Secret Public Signature Period : Type 0} ⦃N : NdnName Name⦄
    (I : SignatureInfos Name Info) (D : DataPackets Data Info) (T : InterestPackets Interest Info)
    (L : BlsLibrary Secret Public Signature) (M : KeyMaking Name Secret)
    (C : Certificates Name Info Data Public Period I) where
  -- A new signer has a key name that is not empty, and the self-signed certificate of its key is made
  -- and verifies under its public key.
  pub bls_signer_new-verify_data :
      (initialized initialized' : Bool) (prefix key_name : Name) (randomness now number : ℕ)
      (period : Period) (s : BlsSigner Name Secret Public)
      → bls_signer_new I D T L M initialized prefix key_name randomness now ≡ ok (initialized', s)
      → (N.empty s.key_name ≡ false)
        × ((cert : Data) × (gen_self_signed_certificate I D T L C number s.key_name s.pk s.sk period
              ≡ ok cert)
            × (verify_data I D T L s.pk cert ≡ true))
  unfolding bls_signer_new
  bls_signer_new-verify_data initialized initialized' prefix key_name randomness now number period s
        h =
      let sk = M.random_secret randomness in
      let name =
        if N.empty key_name
        then M.append_timestamp (N.append_text prefix (codes "KEY")) now
        else key_name in
      let named : N.empty name ≡ false = elim (Bool-cases (N.empty key_name)) [
        | inl e ↦ rw e (M.empty-append_timestamp (N.append_text prefix (codes "KEY")) now)
        | inr e ↦ rw e e
      ] in
      let made : BlsSigner Name Secret Public = record {
        prefix = prefix;
        key_name = name;
        sk = sk;
        pk = L.public_key sk;
        invocation_prefix = N.append_text (N.append_text prefix (codes "mps")) (codes "sign");
      } in
      elim (Result-cases (init I D T L initialized)) [
        | inr (x, e) ↦ cc (rw (bls_signer_new, e) at h)
        | inl (flag, e) ↦
            let same : made ≡ s = cc (rw (bls_signer_new, e) at h) in
            rw (← same)
              (named, gen_self_signed_certificate-verify_data I D T L C number name sk period)
      ]
