-- ===== src/Schema/Section/Lost.antt =====
-- What toString keeps of a schema, and what it loses.
use ndn_multi_party_signatur.Prelude.{
  ◌<◌, ◌^◌, ◌≡◌, ◌≢◌, refl, sym, ◌∙◌, List, [], ◌∷◌, length, Text, ok, throws, Error, Result-cases,
  inl, inr, arith, All, find,
}
use ndn_multi_party_signatur.Ndn.{NdnName}
use ndn_multi_party_signatur.Schema.Pattern.{WildCardName, of_string}
use ndn_multi_party_signatur.Schema.Pattern.Parse.{multiplicity, append_all, components}
use ndn_multi_party_signatur.Schema.Pattern.Reads.{of_string_slashed}
use ndn_multi_party_signatur.Schema.Policy.{MultipartySchema}
use ndn_multi_party_signatur.Schema.Section.{
  PropertyTrees, to_section, to_string, from_schema_section, from_info,
}
use ndn_multi_party_signatur.Schema.Section.Nodes.{reread}
use ndn_multi_party_signatur.Schema.Section.Reread.{reread_schema, from_schema_section-to_section}

module _ {Tree Name : Type 0} (trees : PropertyTrees Tree) ⦃N : NdnName Name⦄
    (to_uri : Name → Text) where
  -- A pattern that its URI says all of.
  abbrev pub IsSaid : WildCardName Name → Type 0
  IsSaid p = of_string (to_uri p.name) ≡ ok p

  reread-IsSaid : (ps : List (WildCardName Name)) → All IsSaid ps → reread trees to_uri ps ≡ ok ps
  unfolding reread
  reread-IsSaid [] h = refl
  reread-IsSaid (p ∷ ps) h = rw (h.0, reread-IsSaid ps h.1) refl

  -- A schema that is written by `toString` is read by `fromINFO` as itself, where each of its patterns
  -- is what the constructor makes of its URI, its rule id is not empty and its number of optional
  -- signers fits an `int`. There must be no file with the text as its name, and the INFO parser must
  -- read the tree that the INFO writer wrote.
  pub from_info-to_string :
      (schema : MultipartySchema Name) (e : Error)
      → schema.min_optional_signers < 2 ^ 31
      → to_uri schema.pkt_name.name ≢ []
      → schema.rule_id ≢ []
      → IsSaid schema.pkt_name
      → All IsSaid schema.signers
      → All IsSaid schema.optional_signers
      → trees.read_info_file (to_string trees to_uri schema) ≡ throws e
      → trees.read_info_stream (to_string trees to_uri schema) ≡ ok (to_section trees to_uri schema)
      → from_info trees (to_string trees to_uri schema) ≡ ok schema
  unfolding from_info reread_schema
  from_info-to_string schema e small named ruled name required optional no_file read =
      rw
        (
          from_info,
          no_file,
          read,
          from_schema_section-to_section trees to_uri schema small named ruled,
          name,
          reread-IsSaid schema.signers required,
          reread-IsSaid schema.optional_signers optional,
        )
        refl

  of_string-single :
      (s u : Text) (p : WildCardName Name) → s ≡ b'/' ∷ u → of_string s ≡ ok p → p.times ≡ 1
  unfolding multiplicity find
  of_string-single s u p h e =
      let read : WildCardName Name = record {
        name = append_all N.empty_name (components u);
        times = multiplicity [];
      } in
      let same : read ≡ p = cc (rw h at e, of_string_slashed {Name = Name} [] u tt) in
      rw (← same) refl

  reread-single :
      ((n : Name) → (u : Text) × (to_uri n ≡ b'/' ∷ u))
      → (ps qs : List (WildCardName Name)) → reread trees to_uri ps ≡ ok qs
      → All (λ p. p.times ≡ 1) qs × (length qs ≡ length ps)
  unfolding reread
  reread-single slash [] qs h = let same : [] ≡ qs = cc in rw (← same) (tt, refl)
  reread-single slash (p ∷ ps) qs h =
      elim (Result-cases (of_string {Name = Name} (to_uri p.name))) [
        | inr (x, e) ↦ cc (rw e at h)
        | inl (q, e) ↦ elim (Result-cases (reread trees to_uri ps)) [
          | inr (x, f) ↦ cc (rw (e, f) at h)
          | inl (rs, f) ↦
              let same : q ∷ rs ≡ qs = cc (rw (e, f) at h) in
              let (u, slashed) = slash p.name in
              let (all, count) = reread-single slash ps rs f in
              rw (← same)
                ((of_string-single (to_uri p.name) u q slashed e, all), omega (arith, count))
        ]
      ]

  -- The multiplicity of no pattern comes through: a schema read from the tree that `toString` writes
  -- has as many patterns as before, all with the multiplicity 1. This is for a schema whose rule id is
  -- not empty and whose number of optional signers fits an `int`; URIs start with a slash.
  pub from_schema_section-to_section_times :
      (schema read : MultipartySchema Name)
      → schema.min_optional_signers < 2 ^ 31
      → schema.rule_id ≢ []
      → ((n : Name) → (u : Text) × (to_uri n ≡ b'/' ∷ u))
      → from_schema_section trees (to_section trees to_uri schema) ≡ ok read
      → (read.pkt_name.times ≡ 1)
        × All (λ p. p.times ≡ 1) read.signers
        × (length read.signers ≡ length schema.signers)
        × All (λ p. p.times ≡ 1) read.optional_signers
        × (length read.optional_signers ≡ length schema.optional_signers)
  unfolding reread_schema
  from_schema_section-to_section_times schema read small ruled slash h =
      let (u, slashed) = slash schema.pkt_name.name in
      let named : to_uri schema.pkt_name.name ≢ [] = λ empty. cc in
      let reading =
        sym (from_schema_section-to_section trees to_uri schema small named ruled) ∙ h in
      elim (Result-cases (of_string {Name = Name} (to_uri schema.pkt_name.name))) [
        | inr (x, e) ↦ cc (rw (reread_schema, e) at reading)
        | inl (p, e) ↦ elim (Result-cases (reread trees to_uri schema.signers)) [
          | inr (x, f) ↦ cc (rw (reread_schema, e, f) at reading)
          | inl (qs, f) ↦ elim (Result-cases (reread trees to_uri schema.optional_signers)) [
            | inr (x, g) ↦ cc (rw (reread_schema, e, f, g) at reading)
            | inl (rs, g) ↦
                let made : MultipartySchema Name = record {
                  pkt_name = p;
                  rule_id = schema.rule_id;
                  signers = qs;
                  optional_signers = rs;
                  min_optional_signers = schema.min_optional_signers;
                } in
                let same : made ≡ read = cc (rw (reread_schema, e, f, g) at reading) in
                let (all, count) = reread-single slash schema.signers qs f in
                let (all', count') = reread-single slash schema.optional_signers rs g in
                rw (← same) (
                  of_string-single (to_uri schema.pkt_name.name) u p slashed e,
                  all,
                  count,
                  all',
                  count',
                )
          ]
        ]
      ]
