-- ===== src/Schema/AggregateKey.antt =====
-- MultipartySchemaContainer::aggregateKey of src/schema.cpp.
use ndn_multi_party_signatur.Prelude.{
  ◌≡◌, refl, Option-cases, inl, inr, Bool, true, false, none, some, List, [], ◌∷◌, map, Result, ok,
  throws, missing_key, if◌then◌else◌,
}
use ndn_multi_party_signatur.Ndn.{NdnName}
use ndn_multi_party_signatur.Ordered.{Ord}
use ndn_multi_party_signatur.Ordered.Map.{lookup, has_key-contains}
use ndn_multi_party_signatur.Packets.{SignatureInfos, DataPackets, InterestPackets, BlsLibrary}
use ndn_multi_party_signatur.Bls.{add_all_keys, aggregate_public_key}
use ndn_multi_party_signatur.SignerList.{MpsSignerList}
use ndn_multi_party_signatur.Schema.Container.{MultipartySchemaContainer}
use ndn_multi_party_signatur.Schema.Container.Decide.{Trusted}

module _ {Name Secret Public Signature : Type 0} ⦃o : Ord Name⦄
    (L : BlsLibrary Secret Public Signature) where
  -- The loop over the signers, with the sum so far and whether it is initialized.
  unfoldable pub add_looked_up : List (Name × Public) → Bool → Public → List Name → Result Public
  add_looked_up ids init agg [] = ok agg
  add_looked_up ids init agg (item ∷ items) = elim (lookup ids item) [
    | none ↦ throws missing_key
    | some key ↦ add_looked_up ids true (if init then L.add_keys agg key else key) items
  ]

  -- MultipartySchemaContainer::aggregateKey
  unfoldable pub aggregate_key :
      MultipartySchemaContainer Name Public → MpsSignerList Name → Result Public
  aggregate_key c list = add_looked_up c.trusted_ids false L.uninitialized_key list.signers

module _ {Name Info Data Interest Secret Public Signature : Type 0} ⦃o : Ord Name⦄
    (I : SignatureInfos Name Info) (D : DataPackets Data Info) (T : InterestPackets Interest Info)
    (L : BlsLibrary Secret Public Signature) where
  add_looked_up-add_all_keys :
      (ids : List (Name × Public)) (agg : Public) (names : List Name) (ks : List Public)
      → map (lookup ids) names ≡ map some ks
      → add_looked_up L ids true agg names ≡ ok (add_all_keys I D T L agg ks)
  unfolding add_looked_up add_all_keys
  add_looked_up-add_all_keys ids agg [] [] h = refl
  add_looked_up-add_all_keys ids agg [] (k ∷ ks) h = cc
  add_looked_up-add_all_keys ids agg (n ∷ names) [] h = cc
  add_looked_up-add_all_keys ids agg (n ∷ names) (k ∷ ks) h =
      let found : lookup ids n ≡ some k = cc in
      let others : map (lookup ids) names ≡ map some ks = cc in
      rw (add_looked_up, found) (add_looked_up-add_all_keys ids (L.add_keys agg k) names ks others)

  first :
      (ids : List (Name × Public)) (names : List Name) (k : Public) (ks : List Public)
      → map (lookup ids) names ≡ map some (k ∷ ks)
      → add_looked_up L ids false L.uninitialized_key names ≡ ok (add_all_keys I D T L k ks)
  unfolding add_looked_up
  first ids [] k ks h = cc
  first ids (n ∷ names) k ks h =
      let found : lookup ids n ≡ some k = cc in
      let others : map (lookup ids) names ≡ map some ks = cc in
      rw (add_looked_up, found) (add_looked_up-add_all_keys ids k names ks others)

  -- Where a container trusts every signer of a list of at least one, `aggregateKey` gives what
  -- `ndnBLSAggregatePublicKey` gives for the keys that the container holds for them, in their order.
  pub aggregate_key-aggregate_public_key :
      (c : MultipartySchemaContainer Name Public) (list : MpsSignerList Name) (k : Public)
      (ks : List Public)
      → map (lookup c.trusted_ids) list.signers ≡ map some (k ∷ ks)
      → aggregate_key L c list ≡ aggregate_public_key I D T L (k ∷ ks)
  unfolding aggregate_key aggregate_public_key
  aggregate_key-aggregate_public_key c list k ks h = first c.trusted_ids list.signers k ks h

module _ {Name Secret Public Signature : Type 0} ⦃N : NdnName Name⦄ ⦃o : Ord Name⦄
    (L : BlsLibrary Secret Public Signature) where
  add_looked_up_ok :
      (ids : List (Name × Public)) (init : Bool) (agg : Public) (names : List Name)
      → Trusted ids names
      → (key : Public) × (add_looked_up L ids init agg names ≡ ok key)
  unfolding add_looked_up
  add_looked_up_ok ids init agg [] h = (agg, refl)
  add_looked_up_ok ids init agg (n ∷ names) h = elim (Option-cases (lookup ids n)) [
    | inl missing ↦ cc (h.0, has_key-contains ids n, missing)
    | inr (key, found) ↦
        rw (add_looked_up, found)
          (add_looked_up_ok ids true (if init then L.add_keys agg key else key) names h.1)
  ]

  -- `aggregateKey` throws nothing on a signer list whose names the container all trusts.
  pub aggregate_key_ok :
      (c : MultipartySchemaContainer Name Public) (list : MpsSignerList Name)
      → Trusted c.trusted_ids list.signers
      → (key : Public) × (aggregate_key L c list ≡ ok key)
  unfolding aggregate_key
  aggregate_key_ok c list h =
      add_looked_up_ok c.trusted_ids false L.uninitialized_key list.signers h
