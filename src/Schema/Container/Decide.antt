-- ===== src/Schema/Container/Decide.antt =====
-- What `passSchema` of the container decides.
use ndn_multi_party_signatur.Prelude.{
  ◌≡◌, refl, ◌↔◌, true, false, List, [], ◌∷◌, ◌++◌, arith, All, Bool-cases, inl, inr, ok, All-imp,
  ap,
}
use ndn_multi_party_signatur.Ndn.{NdnName}
use ndn_multi_party_signatur.Ordered.{Ord}
use ndn_multi_party_signatur.Ordered.Map.{keys, has_key-contains}
use ndn_multi_party_signatur.Ordered.Set.{contains}
use ndn_multi_party_signatur.SignerList.{MpsSignerList}
use ndn_multi_party_signatur.Schema.Policy.{MultipartySchema, match_packet, pass_schema}
use ndn_multi_party_signatur.Schema.Container.{
  MultipartySchemaContainer, get_available_signers, container_pass_schema, all_trusted, pass_first,
}
use ndn_multi_party_signatur.Schema.Container.Matched.{Eligible}
use ndn_multi_party_signatur.Schema.Container.Available.{Available-of_ok}

module _ {Name : Type 0} ⦃N : NdnName Name⦄ where
  -- The schema of a list that decides on a packet: it matches, and none before it does.
  pub record Decides (schemas : List (MultipartySchema Name)) (packet_name : Name)
      (s : MultipartySchema Name) : Type 0 where
    pub before : List (MultipartySchema Name)
    pub after : List (MultipartySchema Name)
    pub split : schemas ≡ before ++ s ∷ after
    pub others : All (λ t. match_packet t packet_name ≡ false) before
    pub matches : match_packet s packet_name ≡ true

  pass_first-skip :
      (before after : List (MultipartySchema Name)) (packet_name : Name) (names : List Name)
      → All (λ t. match_packet t packet_name ≡ false) before
      → pass_first (before ++ after) packet_name names ≡ pass_first after packet_name names
  unfolding pass_first
  pass_first-skip [] after packet_name names h = refl
  pass_first-skip (t ∷ before) after packet_name names h =
      rw h.0 (pass_first-skip before after packet_name names h.1)

  pub pass_first-Decides :
      (schemas : List (MultipartySchema Name)) (packet_name : Name) (names : List Name)
      (s : MultipartySchema Name)
      → Decides schemas packet_name s
      → pass_first schemas packet_name names ≡ pass_schema s names
  unfolding pass_first
  pass_first-Decides schemas packet_name names s d =
      rw (d.split, pass_first-skip d.before (s ∷ d.after) packet_name names d.others, d.matches)
        refl

  Decides-cons :
      (t s : MultipartySchema Name) (schemas : List (MultipartySchema Name)) (packet_name : Name)
      → match_packet t packet_name ≡ false
      → Decides schemas packet_name s
      → Decides (t ∷ schemas) packet_name s
  Decides-cons t s schemas packet_name h d = record {
    before = t ∷ d.before;
    after = d.after;
    split = ap (◌∷◌ t) d.split;
    others = (h, d.others);
    matches = d.matches;
  }

  pass_first-true :
      (schemas : List (MultipartySchema Name)) (packet_name : Name) (names : List Name)
      → pass_first schemas packet_name names ≡ true
      → (s : MultipartySchema Name) × Decides schemas packet_name s × (pass_schema s names ≡ true)
  unfolding pass_first
  pass_first-true [] packet_name names h = cc
  pass_first-true (t ∷ schemas) packet_name names h =
      elim (Bool-cases (match_packet t packet_name)) [
        | inl hit ↦ (
          t,
          record { before = []; after = schemas; split = refl; others = tt; matches = hit },
          (rw hit at h),
        )
        | inr miss ↦
            let (s, d, e) = pass_first-true schemas packet_name names (rw miss at h) in
            (s, Decides-cons t s schemas packet_name miss d, e)
      ]

module _ {Name Key : Type 0} ⦃N : NdnName Name⦄ ⦃o : Ord Name⦄ where
  -- Every name is a trusted one.
  abbrev pub Trusted : List (Name × Key) → List Name → Type 0
  Trusted ids names = All (λ k. contains (keys ids) k ≡ true) names

  pub all_trusted_iff :
      (ids : List (Name × Key)) (names : List Name)
      → (all_trusted ids names ≡ true) ↔ Trusted ids names
  unfolding all_trusted
  all_trusted_iff ids [] = (λ h. tt, λ h. refl)
  all_trusted_iff ids (k ∷ names) =
      let ih = all_trusted_iff ids names in
      let same_test = has_key-contains ids k in
      (
        λ h. (ground (arith, same_test), ih.0 (ground (arith, same_test))),
        λ h. ground (arith, same_test, ih.1 h.1),
      )

  -- The container accepts a signer list for a packet exactly when every signer is trusted and the
  -- list passes the first of the container's schemas that matches the packet. A later schema that
  -- matches has no say.
  pub container_pass_schema_iff :
      (c : MultipartySchemaContainer Name Key) (packet_name : Name) (list : MpsSignerList Name)
      → (container_pass_schema c packet_name list ≡ true) ↔ (
          Trusted c.trusted_ids list.signers
          × (s : MultipartySchema Name) × Decides c.schemas packet_name s
          × (pass_schema s list.signers ≡ true))
  unfolding container_pass_schema
  container_pass_schema_iff c packet_name list =
      let trust = all_trusted_iff c.trusted_ids list.signers in
      (
        λ h.
            let first = pass_first-true c.schemas packet_name list.signers (ground arith) in
            (trust.0 (ground arith), first.0, first.1, first.2),
        λ (t, s, d, e). rw (trust.1 t, pass_first-Decides c.schemas packet_name list.signers s d) e,
      )

  -- Initiator and verifier agree: where they hold the same container, a list that
  -- `getAvailableSigners` returned for a schema is accepted for every packet that this schema
  -- decides on.
  pub container_pass_schema-get_available_signers :
      (c : MultipartySchemaContainer Name Key) (s : MultipartySchema Name) (packet_name : Name)
      (list : MpsSignerList Name)
      → get_available_signers c s ≡ ok list
      → Decides c.schemas packet_name s
      → container_pass_schema c packet_name list ≡ true
  container_pass_schema-get_available_signers c s packet_name list e d =
      let a = Available-of_ok c s list e in
      (container_pass_schema_iff c packet_name list).1 (
        All-imp (Eligible c) (λ k. contains (keys c.trusted_ids) k ≡ true) (λ k h. h.0) list.signers
            a.eligible,
        s,
        d,
        a.passes,
      )
