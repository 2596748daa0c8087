-- ===== src/Verifier/Decides.antt =====
-- What `verify` decides on a packet and its signature info packet.
use ndn_multi_party_signatur.Prelude.{
  ◌≡◌, refl, ap, ◌∙◌, ◌↔◌, ◌⊎◌, Error, Result-cases, true, false, Bool-cases, inl, inr, ok, throws,
}
use ndn_multi_party_signatur.Ndn.{NdnName}
use ndn_multi_party_signatur.Ordered.{Ord}
use ndn_multi_party_signatur.Tlv.{TlvBlock}
use ndn_multi_party_signatur.Packets.{
  SignatureInfos, DataPackets, InterestPackets, InfoPackets, BlsLibrary,
}
use ndn_multi_party_signatur.Bls.{verify_data}
use ndn_multi_party_signatur.SignerList.{MpsSignerList}
use ndn_multi_party_signatur.Schema.Policy.{MultipartySchema, pass_schema}
use ndn_multi_party_signatur.Schema.Container.{MultipartySchemaContainer, container_pass_schema}
use ndn_multi_party_signatur.Schema.Container.Decide.{Decides, Trusted, container_pass_schema_iff}
use ndn_multi_party_signatur.Schema.AggregateKey.{aggregate_key, aggregate_key_ok}
use ndn_multi_party_signatur.Verifier.{
  Reply, received, nack, timed_out, key_locator_matches, read_signer_list, verify, async_verify,
}

Reply-cases :
    {Data : Type 0} (r : Reply Data)
    → ((d : Data) × (r ≡ received d)) ⊎ ((r ≡ nack) ⊎ (r ≡ timed_out))
Reply-cases (received d) = inl (d, refl)
Reply-cases nack = inr (inl refl)
Reply-cases timed_out = inr (inr refl)

module _ {Name Info Data Interest Secret Public Signature Block : Type 0} ⦃N : NdnName Name⦄
    ⦃o : Ord Name⦄ ⦃B : TlvBlock Block Name⦄ (I : SignatureInfos Name Info)
    (D : DataPackets Data Info) (T : InterestPackets Interest Info)
    (L : BlsLibrary Secret Public Signature) (P : InfoPackets Name Info Data Block I D B) where
  -- A packet, a signature info packet and a container: the key locator is a name and a prefix of the
  -- info packet's, the info packet holds a list of trusted names that passes the first schema for
  -- the packet, and the packet's signature verifies under the sum of the keys of these names.
  pub record Accepted (c : MultipartySchemaContainer Name Public) (packet info : Data)
      : Type 0 where
    pub key_locator : Name
    pub locates : P.key_locator_name packet ≡ ok key_locator
    pub prefix : P.is_prefix_of key_locator (P.packet_name info) ≡ true
    pub list : MpsSignerList Name
    pub reads : read_signer_list I D T L P info ≡ ok list
    pub trusted : Trusted c.trusted_ids list.signers
    pub schema : MultipartySchema Name
    pub decides : Decides c.schemas (P.packet_name packet) schema
    pub passes : pass_schema schema list.signers ≡ true
    pub key : Public
    pub sums : aggregate_key L c list ≡ ok key
    pub signed : verify_data I D T L key packet ≡ true

  matches_name :
      (packet info : Data)
      → key_locator_matches I D T L P packet info ≡ true
      → (n : Name) × (P.key_locator_name packet ≡ ok n)
        × (P.is_prefix_of n (P.packet_name info) ≡ true)
  unfolding key_locator_matches
  matches_name packet info h = elim (Result-cases (P.key_locator_name packet)) [
    | inl (n, e) ↦ (n, e, (rw (key_locator_matches, e) at h))
    | inr (x, e) ↦ cc (rw (key_locator_matches, e) at h)
  ]

  matches_iff :
      (packet info : Data) (n : Name)
      → P.key_locator_name packet ≡ ok n
      → P.is_prefix_of n (P.packet_name info) ≡ true
      → key_locator_matches I D T L P packet info ≡ true
  unfolding key_locator_matches
  matches_iff packet info n e h = rw (key_locator_matches, e) h

  -- Past the checks, `verify` is the verification of the packet's signature.
  pub verify-verify_data :
      (c : MultipartySchemaContainer Name Public) (packet info : Data) (list : MpsSignerList Name)
      (key : Public)
      → key_locator_matches I D T L P packet info ≡ true
      → read_signer_list I D T L P info ≡ ok list
      → container_pass_schema c (P.packet_name packet) list ≡ true
      → aggregate_key L c list ≡ ok key
      → verify I D T L P c packet info ≡ ok (verify_data I D T L key packet)
  unfolding verify
  verify-verify_data c packet info list key m r p a = rw (verify, m, r, p, a) refl

  -- The steps of `verify` all gave a result, up to the verification of the signature.
  record Checked (c : MultipartySchemaContainer Name Public) (packet info : Data) : Type 0 where
    list : MpsSignerList Name
    key : Public
    located : key_locator_matches I D T L P packet info ≡ true
    reads : read_signer_list I D T L P info ≡ ok list
    passes : container_pass_schema c (P.packet_name packet) list ≡ true
    sums : aggregate_key L c list ≡ ok key

  checked :
      (c : MultipartySchemaContainer Name Public) (packet info : Data)
      → (verify I D T L P c packet info ≡ ok false)
        ⊎ (((e : Error) × (read_signer_list I D T L P info ≡ throws e)
              × (verify I D T L P c packet info ≡ throws e))
            ⊎ Checked c packet info)
  unfolding verify
  checked c packet info = elim (Bool-cases (key_locator_matches I D T L P packet info)) [
    | inr m ↦ inl (rw m refl)
    | inl m ↦ elim (Result-cases (read_signer_list I D T L P info)) [
      | inr (e, r) ↦ inr (inl (e, r, (rw (m, r) refl)))
      | inl (list, r) ↦ elim (Bool-cases (container_pass_schema c (P.packet_name packet) list)) [
        | inr p ↦ inl (rw (m, r, p) refl)
        | inl p ↦
            let trust = ((container_pass_schema_iff c (P.packet_name packet) list).0 p).0 in
            let (key, a) = aggregate_key_ok L c list trust in
            inr (
              inr (record { list = list; key = key; located = m; reads = r; passes = p; sums = a }))
      ]
    ]
  ]

  Checked-Accepted :
      (c : MultipartySchemaContainer Name Public) (packet info : Data) (k : Checked c packet info)
      → verify_data I D T L k.key packet ≡ true
      → Accepted c packet info
  Checked-Accepted c packet info k h =
      let (n, e, prefix) = matches_name packet info k.located in
      let (trust, s, d, p) =
        (container_pass_schema_iff c (P.packet_name packet) k.list).0 k.passes in
      record {
        key_locator = n;
        locates = e;
        prefix = prefix;
        list = k.list;
        reads = k.reads;
        trusted = trust;
        schema = s;
        decides = d;
        passes = p;
        key = k.key;
        sums = k.sums;
        signed = h;
      }

  verify-Checked :
      (c : MultipartySchemaContainer Name Public) (packet info : Data) (k : Checked c packet info)
      → verify I D T L P c packet info ≡ ok (verify_data I D T L k.key packet)
  verify-Checked c packet info k =
      verify-verify_data c packet info k.list k.key k.located k.reads k.passes k.sums

  -- `verify` returns true exactly for a packet and an info packet that are `Accepted`: the packet's
  -- key locator is a name and a prefix of the info packet's name, a signer list can be read from the
  -- info packet, its names are all trusted and pass the first schema of the container that matches
  -- the packet, and the packet's signature verifies under the key that `aggregateKey` gives for it.
  pub verify_iff :
      (c : MultipartySchemaContainer Name Public) (packet info : Data)
      → (verify I D T L P c packet info ≡ ok true) ↔ Accepted c packet info
  verify_iff c packet info = (
    λ h. elim (checked c packet info) [
      | inl e ↦ cc
      | inr (inl (x, r, e)) ↦ cc
      | inr (inr k) ↦ let e = verify-Checked c packet info k in Checked-Accepted c packet info k cc
    ],
    λ a.
        verify-verify_data c packet info a.list a.key
          (matches_iff packet info a.key_locator a.locates a.prefix) a.reads
          ((container_pass_schema_iff c (P.packet_name packet) a.list).1
            (a.trusted, a.schema, a.decides, a.passes))
          a.sums
        ∙ ap ok a.signed,
  )

  -- `asyncVerify` calls its callback with true exactly where the packet's key locator is a name, the
  -- network answers the Interest for that name with an info packet, and this packet and the info
  -- packet are `Accepted`. A nack and a timeout count as a refusal.
  pub async_verify_iff :
      (c : MultipartySchemaContainer Name Public) (fetch : Name → Reply Data) (packet : Data)
      → (async_verify I D T L P c fetch packet ≡ ok true) ↔ (
          (n : Name) × (info : Data) × (P.key_locator_name packet ≡ ok n)
          × (fetch n ≡ received info)
          × Accepted c packet info)
  unfolding async_verify
  async_verify_iff c fetch packet = (
    λ h. elim (Result-cases (P.key_locator_name packet)) [
      | inr (x, e) ↦ cc (rw (async_verify, e) at h)
      | inl (n, e) ↦ elim (Reply-cases (fetch n)) [
        | inl (info, f) ↦
            (n, info, e, f, (verify_iff c packet info).0 (rw (async_verify, e, f) at h))
        | inr (inl f) ↦ cc (rw (async_verify, e, f) at h)
        | inr (inr f) ↦ cc (rw (async_verify, e, f) at h)
      ]
    ],
    λ (n, info, e, f, a). rw (async_verify, e, f) ((verify_iff c packet info).1 a),
  )
