-- ===== src/Crypto/Agree.antt =====
-- The two sides of a key agreement.
use ndn_multi_party_signatur.Prelude.{
  ℕ, ◌≡◌, refl, sym, ap, ◌∙◌, Bool-cases, some, Option-cases, Result-cases, inl, inr, [], Text,
  length, ◌==◌, ok, ◌>>=◌,
}
use ndn_multi_party_signatur.OpenSsl.{EcKeys}
use ndn_multi_party_signatur.Crypto.{
  EcdhState, ecdh_new, get_self_pub_key, derive_secret, unless_zero,
}

module _ {Pkey EcKey Group Point : Type 0} (E : EcKeys Pkey EcKey Group Point) where
  -- A state that holds a key on the curve, and the octets of its public point.
  pub record OnCurve (s : EcdhState Pkey) (octets : Text) : Type 0 where
    key : EcKey
    found : E.get_ec_key s.privkey ≡ some key
    on_curve : E.group key ≡ E.curve
    public_octets : E.point_to_octets E.curve (E.public_point key) ≡ octets

  pub get_self_pub_key-OnCurve :
      (r : ℕ) (s t t' u : EcdhState Pkey) (octets : Text)
      → ecdh_new E r ≡ ok s
      → t.privkey ≡ s.privkey
      → u.privkey ≡ s.privkey
      → get_self_pub_key E t ≡ ok (t', octets)
      → OnCurve u octets
  unfolding ecdh_new get_self_pub_key
  get_self_pub_key-OnCurve r s t t' u octets h same_t same_u g = elim (Option-cases (E.keygen r)) [
    | inl e ↦ cc (rw (ecdh_new, e) at h)
    | inr (k, e) ↦ elim (Option-cases (E.get_ec_key t.privkey)) [
      | inl f ↦ cc (rw (get_self_pub_key, f) at g)
      | inr (key, f) ↦
          let made : record { privkey = k; pub_key = []; secret = [] } ≡ s =
            cc (rw (ecdh_new, e) at h) in
          let same_key : k ≡ s.privkey = ap (λ (x : EcdhState Pkey). x.privkey) made in
          let curve = E.group-keygen r k key e (rw (same_key, ← same_t) f) in
          elim (Bool-cases (length (E.point_to_octets (E.group key) (E.public_point key)) == 0)) [
            | inl z ↦ cc (rw (get_self_pub_key, f, z) at g)
            | inr z ↦
                let both : (
                  record t { pub_key = E.point_to_octets (E.group key) (E.public_point key) },
                  E.point_to_octets (E.group key) (E.public_point key),
                )
                    ≡ (t', octets) =
                  cc (rw (get_self_pub_key, f, z) at g) in
                record {
                  key = key;
                  found = rw (same_u, ← same_t) f;
                  on_curve = curve;
                  public_octets = rw (← curve) (ap (λ (x : EcdhState Pkey × Text). x.1) both);
                }
          ]
    ]
  ]

  derive_secret_text :
      (s : EcdhState Pkey) (octets peer : Text)
      → OnCurve s octets
      → (derive_secret E s peer >>= λ x. ok x.1)
        ≡ unless_zero (E.derive s.privkey E.curve (E.octets_to_point E.curve peer))
  unfolding derive_secret
  derive_secret_text s octets peer x =
      elim (Result-cases
        (unless_zero (E.derive s.privkey E.curve (E.octets_to_point E.curve peer)))) [
          | inl (t, e) ↦ rw (derive_secret, x.found, x.on_curve, e) refl
          | inr (t, e) ↦ rw (derive_secret, x.found, x.on_curve, e) refl
        ]

  derive_secret_agree :
      (s t : EcdhState Pkey) (public_s public_t : Text)
      → OnCurve s public_s
      → OnCurve t public_t
      → (derive_secret E s public_t >>= λ x. ok x.1) ≡ (derive_secret E t public_s >>= λ x. ok x.1)
  derive_secret_agree s t public_s public_t x y =
      derive_secret_text s public_s public_t x
      ∙ ap unless_zero (
          rw (← x.public_octets, ← y.public_octets)
            (E.derive_shared s.privkey t.privkey x.key y.key x.found y.found x.on_curve y.on_curve))
      ∙ sym (derive_secret_text t public_t public_s y)

  -- Deriving a secret, and giving the public key, keep the private key.
  pub derive_secret-privkey :
      (s s' : EcdhState Pkey) (peer secret : Text)
      → derive_secret E s peer ≡ ok (s', secret)
      → s'.privkey ≡ s.privkey
  unfolding derive_secret
  derive_secret-privkey s s' peer secret h = elim (Option-cases (E.get_ec_key s.privkey)) [
    | inl e ↦ cc (rw (derive_secret, e) at h)
    | inr (k, e) ↦
        elim (Result-cases
          (unless_zero (E.derive s.privkey (E.group k) (E.octets_to_point (E.group k) peer)))) [
            | inr (x, f) ↦ cc (rw (derive_secret, e, f) at h)
            | inl (t, f) ↦
                let made : record s { secret = t } ≡ s' = cc (rw (derive_secret, e, f) at h) in
                sym (ap (λ (x : EcdhState Pkey). x.privkey) made)
          ]
  ]

  pub get_self_pub_key-privkey :
      (s s' : EcdhState Pkey) (octets : Text)
      → get_self_pub_key E s ≡ ok (s', octets)
      → s'.privkey ≡ s.privkey
  unfolding get_self_pub_key
  get_self_pub_key-privkey s s' octets h = elim (Option-cases (E.get_ec_key s.privkey)) [
    | inl e ↦ cc (rw (get_self_pub_key, e) at h)
    | inr (k, e) ↦
        let found = E.point_to_octets (E.group k) (E.public_point k) in
        elim (Bool-cases (length found == 0)) [
          | inl z ↦ cc (rw (get_self_pub_key, e, z) at h)
          | inr z ↦
              let made : record s { pub_key = found } ≡ s' =
                cc (rw (get_self_pub_key, e, z) at h) in
              sym (ap (λ (x : EcdhState Pkey). x.privkey) made)
        ]
  ]

  -- One side makes a key and gives away its public key; the other makes a key, derives a secret from
  -- that public key, and then gives its own. The first then derives the same secret from it.
  pub derive_secret-derive_secret :
      (r q : ℕ) (a a' b b' b'' : EcdhState Pkey) (public_a public_b secret : Text)
      → ecdh_new E r ≡ ok a
      → get_self_pub_key E a ≡ ok (a', public_a)
      → ecdh_new E q ≡ ok b
      → derive_secret E b public_a ≡ ok (b', secret)
      → get_self_pub_key E b' ≡ ok (b'', public_b)
      → (a'' : EcdhState Pkey) × (derive_secret E a' public_b ≡ ok (a'', secret))
  derive_secret-derive_secret r q a a' b b' b'' public_a public_b secret new_a gave_a new_b derived
        gave_b =
      let on_a =
        get_self_pub_key-OnCurve r a a a' a' public_a new_a refl
          (get_self_pub_key-privkey a a' public_a gave_a) gave_a in
      let on_b =
        get_self_pub_key-OnCurve q b b' b'' b public_b new_b
          (derive_secret-privkey b b' public_a secret derived) refl gave_b in
      let same = derive_secret_agree a' b public_a public_b on_a on_b in
      elim (Result-cases (derive_secret E a' public_b)) [
        | inr (x, e) ↦ cc (rw (e, derived) at same)
        | inl ((a'', t), e) ↦
            let equal : t ≡ secret = cc (rw (e, derived) at same) in (a'', (rw (e, equal) refl))
      ]
