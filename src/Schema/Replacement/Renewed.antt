-- ===== src/Schema/Replacement/Renewed.antt =====
-- What `replaceSigner` returns.
use ndn_multi_party_signatur.Prelude.{
  ◌+◌, ◌≤◌, ◌<◌, ◌≡◌, refl, ◌⊎◌, true, not, ◌&&◌, none, List, [], count_if, arith, All,
  Option-cases, inl, inr, All-imp,
}
use ndn_multi_party_signatur.Ndn.{NdnName}
use ndn_multi_party_signatur.Ordered.{Ord, same}
use ndn_multi_party_signatur.Ordered.Set.{contains, insert, IsSorted, erase, of_list}
use ndn_multi_party_signatur.Ordered.Set.Members.{
  erase-IsSorted, insert_all-IsSorted, contains-insert_all, contains-erase, contains_empty,
}
use ndn_multi_party_signatur.Ordered.Set.Count.{count_if-insert-le}
use ndn_multi_party_signatur.SignerList.{MpsSignerList, empty_list}
use ndn_multi_party_signatur.Schema.Pattern.{WildCardName, match}
use ndn_multi_party_signatur.Schema.Policy.{MultipartySchema}
use ndn_multi_party_signatur.Schema.Policy.Distinct.{matched_sum}
use ndn_multi_party_signatur.Schema.Container.{MultipartySchemaContainer, get_matched_keys}
use ndn_multi_party_signatur.Schema.Replacement.{replace_required, replace_optional, replacement}
use ndn_multi_party_signatur.Schema.Replacement.Grow.{
  NamedKeys, Grown, Grown-refl, Grown-insert, Refilled, replace_required-Refilled, kept, added,
  replace_optional-Refill, matched_sum_mono,
}

module _ {Name : Type 0} ⦃o : Ord Name⦄ where
  -- The signers without the unavailable one.
  abbrev pub remaining : MpsSignerList Name → Name → List Name
  remaining list u = erase u (of_list list.signers)

  remaining-IsSorted : (list : MpsSignerList Name) (u : Name) → IsSorted (remaining list u)
  remaining-IsSorted list u =
      erase-IsSorted u (of_list list.signers) (insert_all-IsSorted list.signers [] tt)

  pub contains-remaining :
      (list : MpsSignerList Name) (u k : Name)
      → contains (remaining list u) k ≡ (contains list.signers k && not (same u k))
  contains-remaining list u k = ground (
    arith,
    contains-erase u (of_list list.signers) k,
    contains-insert_all list.signers [] k,
    contains_empty k,
  )

module _ {Name Key : Type 0} ⦃N : NdnName Name⦄ ⦃o : Ord Name⦄ where
  -- The optional patterns had nothing to add, or one key was added for them.
  abbrev pub Supplemented :
      MultipartySchemaContainer Name Key → List (WildCardName Name) → List Name → List Name → Type 0
  Supplemented c ps base r =
      All
        (λ p.
          (p.times ≤ count_if (match p) r)
          ⊎ ((count_if (match p) r < p.times)
              × All (λ k. contains r k ≡ true) (get_matched_keys c p)))
        ps
      ⊎ (matched_sum ps base + 1 ≤ matched_sum ps r)

  pub record Renewed (c : MultipartySchemaContainer Name Key) (list : MpsSignerList Name) (u : Name)
      (schema : MultipartySchema Name) (result diff : List Name) : Type 0 where
    pub grown : Grown c (remaining list u) (result, diff)
    pub enough :
        All
          (λ p.
            match p u ≡ true
            → p.times ≤ count_if (match p) (remaining list u) + 1
            → p.times ≤ count_if (match p) result)
          schema.signers
    pub supplemented : Supplemented c schema.optional_signers (remaining list u) result

  -- The sets before the optional loop, and those after it.
  finish :
      (c : MultipartySchemaContainer Name Key) (list : MpsSignerList Name) (u : Name)
      (schema : MultipartySchema Name) (r d : List Name)
      → NamedKeys c
      → Refilled c u schema.signers (remaining list u) (remaining list u) (r, d)
      → let (result, diff) = replace_optional c schema.optional_signers (r, d) in
        Renewed c list u schema result diff
  finish c list u schema r d named f =
      elim (replace_optional-Refill c schema.optional_signers r d named) [
        | kept e all ↦ rw e (record { grown = f.grown; enough = f.enough; supplemented = inl all })
        | added k e free el up ↦ rw e (record {
          grown = Grown-insert c (remaining list u) r d k free el f.grown;
          enough =
              All-imp
                (λ p.
                  match p u ≡ true
                  → p.times ≤ count_if (match p) (remaining list u) + 1
                  → p.times ≤ count_if (match p) r)
                (λ p.
                  match p u ≡ true
                  → p.times ≤ count_if (match p) (remaining list u) + 1
                  → p.times ≤ count_if (match p) (insert k r))
                (λ p ih h le. omega (arith, ih h le, count_if-insert-le (match p) k r))
                schema.signers f.enough;
          supplemented = inr (
              omega
                (arith, up, matched_sum_mono schema.optional_signers (remaining list u) r f.more));
        })
      ]

  -- The call stops in the loop over the required patterns, or returns renewed lists.
  pub replacement-Renewed :
      (c : MultipartySchemaContainer Name Key) (list : MpsSignerList Name) (u : Name)
      (schema : MultipartySchema Name)
      → NamedKeys c
      → ((replacement c list u schema ≡ (empty_list, []))
          × (replace_required c u schema.signers (remaining list u, []) ≡ none))
        ⊎ Renewed c list u schema
            (replacement c list u schema).0.signers
            (replacement c list u schema).1
  unfolding replacement
  replacement-Renewed c list u schema named =
      elim (Option-cases (replace_required c u schema.signers (remaining list u, []))) [
        | inl e ↦ inl (rw (e, replacement) refl, e)
        | inr ((r, d), e) ↦ inr (
            rw (e, replacement)
              (finish c list u schema r d named (
                replace_required-Refilled c u schema.signers (remaining list u) (remaining list u)
                  [] (r, d) named (Grown-refl c (remaining list u) (remaining-IsSorted list u)) e)))
      ]
