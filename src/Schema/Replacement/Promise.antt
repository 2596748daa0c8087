-- ===== src/Schema/Replacement/Promise.antt =====
-- What the caller of `replaceSigner` may rely on.
use ndn_multi_party_signatur.Prelude.{
  ◌≡◌, ◌≢◌, refl, ap, ◌⊎◌, true, false, not, ◌&&◌, ◌||◌, List, [], arith, Bool-cases, inl, inr,
}
use ndn_multi_party_signatur.Ndn.{NdnName}
use ndn_multi_party_signatur.Ordered.{Ord, same, same_refl}
use ndn_multi_party_signatur.Ordered.Set.{contains, insert, IsSorted}
use ndn_multi_party_signatur.Ordered.Set.Members.{contains-insert}
use ndn_multi_party_signatur.SignerList.{MpsSignerList, empty_list}
use ndn_multi_party_signatur.Schema.Policy.{MultipartySchema}
use ndn_multi_party_signatur.Schema.Container.{MultipartySchemaContainer}
use ndn_multi_party_signatur.Schema.Container.Matched.{Eligible}
use ndn_multi_party_signatur.Schema.Replacement.{replacement, mark_unavailable, replace_signer}
use ndn_multi_party_signatur.Schema.Replacement.Grow.{NamedKeys, Grown}
use ndn_multi_party_signatur.Schema.Replacement.Renewed.{
  remaining, contains-remaining, Renewed, replacement-Renewed,
}

module _ {Name Key : Type 0} ⦃N : NdnName Name⦄ ⦃o : Ord Name⦄ where
  -- The lists that a call returns, against the list that it was given.
  pub record Replaced (c : MultipartySchemaContainer Name Key) (list : MpsSignerList Name)
      (u : Name) (result : MpsSignerList Name) (diff : List Name) : Type 0 where
    pub sorted : IsSorted result.signers
    pub gone : contains result.signers u ≡ false
    pub members :
        (k : Name)
        → contains result.signers k
          ≡ ((contains list.signers k && not (same u k)) || contains diff k)
    pub diff_new :
        (k : Name)
        → contains diff k ≡ true
        → (contains list.signers k ≡ false) × (k ≢ u) × Eligible c k

  diff_fact :
      (c : MultipartySchemaContainer Name Key) (list : MpsSignerList Name) (u : Name)
      (sets : List Name × List Name)
      → Grown (mark_unavailable c u) (remaining list u) sets
      → (k : Name) → contains sets.1 k ≡ true
      → (contains list.signers k ≡ false) × (same u k ≡ false) × Eligible c k
  unfolding mark_unavailable
  diff_fact c list u sets g k h =
      let (out, el) = g.diff_new k h in
      let unmarked : (same u k ≡ false) × (contains c.unavailable_signers k ≡ false) =
        ground (arith, contains-insert u c.unavailable_signers k) in
      (ground (arith, contains-remaining list u k, unmarked), unmarked.0, (el.0, unmarked.1))

  Replaced-of_Renewed :
      (c : MultipartySchemaContainer Name Key) (list : MpsSignerList Name) (u : Name)
      (schema : MultipartySchema Name) (result : MpsSignerList Name) (diff : List Name)
      → Renewed (mark_unavailable c u) list u schema result.signers diff
      → Replaced c list u result diff
  Replaced-of_Renewed c list u schema result diff r =
      let new = diff_fact c list u (result.signers, diff) r.grown in
      record {
        sorted = r.grown.sorted;
        gone = elim (Bool-cases (contains diff u)) [
          | inl h ↦ absurd (ground (arith, (new u h).1, same_refl u))
          | inr h ↦ ground (arith, r.grown.union u, contains-remaining list u u, same_refl u)
        ];
        members = λ k. ground (arith, r.grown.union k, contains-remaining list u k);
        diff_new = λ k h.
            let (out, other, el) = new k h in
            (out, (λ e. ground (arith, same_refl u, e, other)), el);
      }

  pub NamedKeys-mark :
      (c : MultipartySchemaContainer Name Key) (u : Name)
      → NamedKeys c
      → NamedKeys (mark_unavailable c u)
  unfolding mark_unavailable
  NamedKeys-mark c u h = h

  -- `replaceSigner` marks the key unavailable and leaves the rest of the container alone. Unless it
  -- returns two empty lists, its list is sorted and holds exactly the given signers without the
  -- unavailable one, and the names of the difference; these are new to the list, trusted, and not
  -- marked unavailable. It is assumed that no trusted key has the name with no components.
  pub replace_signer-Replaced :
      (c : MultipartySchemaContainer Name Key) (list : MpsSignerList Name) (u : Name)
      (schema : MultipartySchema Name)
      → NamedKeys c
      → let (c', result, diff) = replace_signer c list u schema in
        (c' ≡ record c { unavailable_signers = insert u c.unavailable_signers })
        × (((result ≡ empty_list) × (diff ≡ [])) ⊎ Replaced c list u result diff)
  unfolding replace_signer mark_unavailable
  replace_signer-Replaced c list u schema named =
      let c' = mark_unavailable c u in
      (
        refl,
        elim (replacement-Renewed c' list u schema named) [
          | inl (e, stop) ↦ inl (
            ap (λ (x : MpsSignerList Name × List Name). x.0) e,
            ap (λ (x : MpsSignerList Name × List Name). x.1) e,
          )
          | inr r ↦ inr (
              Replaced-of_Renewed c list u schema (replacement c' list u schema).0
                (replacement c' list u schema).1 r)
        ],
      )
