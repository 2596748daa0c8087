-- ===== src/Schema/Section/Reread.antt =====
-- What becomes of a schema that is written by toString and read again.
use ndn_multi_party_signatur.Prelude.{
  ◌<◌, ◌^◌, ◌≡◌, ◌≢◌, refl, ap, ◌∙◌, false, none, some, [], ◌∷◌, length, ltb, ◌==◌, Text, text_eq,
  Result, ok, Bool-cases, inl, inr, if◌then◌else◌, ◌>>=◌, arith,
}
use ndn_multi_party_signatur.Ndn.{NdnName}
use ndn_multi_party_signatur.Schema.Pattern.{of_string}
use ndn_multi_party_signatur.Schema.Policy.{MultipartySchema}
use ndn_multi_party_signatur.Schema.Section.{
  ConfigKey, config_pkt_name, config_rule_id, config_all_of, config_at_least_num, config_at_least,
  key_text, non_negative, to_size, PropertyTrees, get_text, get_number, add_patterns, to_section,
  read_section, from_schema_section,
}
use ndn_multi_party_signatur.Schema.Section.Nodes.{
  reread, get_child-add_patterns, read_section-add_patterns, children-add_patterns,
}

module _ {Tree Name : Type 0} (trees : PropertyTrees Tree) ⦃N : NdnName Name⦄
    (to_uri : Name → Text) where
  -- What the tree of toString holds before the lists of patterns.
  record Headed (schema : MultipartySchema Name) (t : Tree) : Type 0 where
    name_leaf :
        trees.get_child_optional t (key_text config_pkt_name)
        ≡ some (trees.leaf (to_uri schema.pkt_name.name))
    rule_leaf :
        trees.get_child_optional t (key_text config_rule_id) ≡ some (trees.leaf schema.rule_id)
    number :
        to_size (get_number trees t config_at_least_num (non_negative 0))
        ≡ schema.min_optional_signers
    no_all_of : trees.get_child_optional t (key_text config_all_of) ≡ none
    no_at_least : trees.get_child_optional t (key_text config_at_least) ≡ none
    filled : 0 < length (trees.children t)

  -- The part of toString before the lists of patterns.
  head_of : MultipartySchema Name → Tree
  head_of schema =
      let named =
        trees.put trees.empty_tree (key_text config_pkt_name) (to_uri schema.pkt_name.name) in
      let content = trees.put named (key_text config_rule_id) schema.rule_id in
      if ltb 0 schema.min_optional_signers
      then trees.put content (key_text config_at_least_num)
          (trees.decimal schema.min_optional_signers)
      else content

  head_of-Headed :
      (schema : MultipartySchema Name)
      → schema.min_optional_signers < 2 ^ 31
      → Headed schema (head_of schema)
  unfolding head_of get_number
  head_of-Headed schema h =
      let e = trees.empty_tree in
      let n = trees.leaf (to_uri schema.pkt_name.name) in
      let r = trees.leaf schema.rule_id in
      let d = trees.leaf (trees.decimal schema.min_optional_signers) in
      let t1 = trees.add_child e (key_text config_pkt_name) n in
      let t2 = trees.add_child t1 (key_text config_rule_id) r in
      let t3 = trees.add_child t2 (key_text config_at_least_num) d in
      let absent : (k : ConfigKey)
          → config_pkt_name ≢ k
          → trees.get_child_optional t1 (key_text k) ≡ none =
        λ k ne.
          trees.get_child-other e config_pkt_name k n ne ∙ trees.get_child-empty (key_text k) in
      let absent2 : (k : ConfigKey)
          → config_pkt_name ≢ k
          → config_rule_id ≢ k
          → trees.get_child_optional t2 (key_text k) ≡ none =
        λ k ne ne'. trees.get_child-other t1 config_rule_id k r ne' ∙ absent k ne in
      let named =
        trees.put_absent e config_pkt_name (to_uri schema.pkt_name.name)
          (trees.get_child-empty (key_text config_pkt_name)) in
      let ruled =
        trees.put_absent t1 config_rule_id schema.rule_id (absent config_rule_id (λ x. cc)) in
      let counted =
        trees.put_absent t2 config_at_least_num (trees.decimal schema.min_optional_signers)
          (absent2 config_at_least_num (λ x. cc) (λ x. cc)) in
      let name2 =
        trees.get_child-other t1 config_rule_id config_pkt_name r (λ x. cc)
        ∙ trees.get_child-added e config_pkt_name n
            (trees.get_child-empty (key_text config_pkt_name)) in
      let rule2 = trees.get_child-added t1 config_rule_id r (absent config_rule_id (λ x. cc)) in
      elim (Bool-cases (ltb 0 schema.min_optional_signers)) [
        | inl some_number ↦
            let other : (k : ConfigKey)
                → config_at_least_num ≢ k
                → trees.get_child_optional t3 (key_text k)
                  ≡ trees.get_child_optional t2 (key_text k) =
              λ k ne. trees.get_child-other t2 config_at_least_num k d ne in
            rw (some_number, named, ruled, counted)
              (record {
                name_leaf = other config_pkt_name (λ x. cc) ∙ name2;
                rule_leaf = other config_rule_id (λ x. cc) ∙ rule2;
                number =
                    rw
                      (
                        get_number,
                        trees.get_child-added t2 config_at_least_num d
                            (absent2 config_at_least_num (λ x. cc) (λ x. cc)),
                        trees.get_int-decimal schema.min_optional_signers h,
                      )
                      refl;
                no_all_of =
                    other config_all_of (λ x. cc) ∙ absent2 config_all_of (λ x. cc) (λ x. cc);
                no_at_least =
                    other config_at_least (λ x. cc) ∙ absent2 config_at_least (λ x. cc) (λ x. cc);
                filled = trees.length-children-add t2 (key_text config_at_least_num) d;
              })
        | inr zero_number ↦
            rw (zero_number, named, ruled)
              (record {
                name_leaf = name2;
                rule_leaf = rule2;
                number =
                    rw (get_number, absent2 config_at_least_num (λ x. cc) (λ x. cc)) (ground arith);
                no_all_of = absent2 config_all_of (λ x. cc) (λ x. cc);
                no_at_least = absent2 config_at_least (λ x. cc) (λ x. cc);
                filled = trees.length-children-add t1 (key_text config_rule_id) r;
              })
      ]

  same_number :
      {s t : Tree}
      → trees.get_child_optional s (key_text config_at_least_num)
        ≡ trees.get_child_optional t (key_text config_at_least_num)
      → get_number trees s config_at_least_num (non_negative 0)
        ≡ get_number trees t config_at_least_num (non_negative 0)
  unfolding get_number
  same_number h = rw (get_number, h) refl

  -- A text with a character is not the empty one.
  text_eq-nil : (s : Text) → s ≢ [] → text_eq s [] ≡ false
  unfolding text_eq
  text_eq-nil [] h = absurd (h refl)
  text_eq-nil (c ∷ s) h = refl

  unfoldable pub reread_schema : MultipartySchema Name → Result (MultipartySchema Name)
  reread_schema schema = do
    pkt_name ← of_string (to_uri schema.pkt_name.name)
    signers ← reread trees to_uri schema.signers
    optional_signers ← reread trees to_uri schema.optional_signers
    ok (record {
      pkt_name = pkt_name;
      rule_id = schema.rule_id;
      signers = signers;
      optional_signers = optional_signers;
      min_optional_signers = schema.min_optional_signers;
    })

  -- The tree that toString writes is read as the schema whose patterns are those of their URIs.
  pub from_schema_section-to_section :
      (schema : MultipartySchema Name)
      → schema.min_optional_signers < 2 ^ 31
      → to_uri schema.pkt_name.name ≢ []
      → schema.rule_id ≢ []
      → from_schema_section trees (to_section trees to_uri schema) ≡ reread_schema schema
  unfolding from_schema_section to_section head_of reread_schema get_text
  from_schema_section-to_section schema small named ruled =
      let h = head_of-Headed schema small in
      let t0 = head_of schema in
      let t1 = add_patterns trees to_uri t0 config_all_of schema.signers in
      let t2 = add_patterns trees to_uri t1 config_at_least schema.optional_signers in
      let other : (k : ConfigKey)
          → config_all_of ≢ k
          → config_at_least ≢ k
          → trees.get_child_optional t2 (key_text k) ≡ trees.get_child_optional t0 (key_text k) =
        λ k ne ne'.
          get_child-add_patterns trees to_uri t1 config_at_least k schema.optional_signers ne'
          ∙ get_child-add_patterns trees to_uri t0 config_all_of k schema.signers ne in
      let name_text : get_text trees t2 config_pkt_name [] ≡ to_uri schema.pkt_name.name =
        rw (get_text, other config_pkt_name (λ x. cc) (λ x. cc), h.name_leaf)
          (trees.value-leaf (to_uri schema.pkt_name.name)) in
      let rule_text : get_text trees t2 config_rule_id [] ≡ schema.rule_id =
        rw (get_text, other config_rule_id (λ x. cc) (λ x. cc), h.rule_leaf)
          (trees.value-leaf schema.rule_id) in
      let number : to_size (get_number trees t2 config_at_least_num (non_negative 0))
          ≡ schema.min_optional_signers =
        ap to_size (same_number (other config_at_least_num (λ x. cc) (λ x. cc))) ∙ h.number in
      let all_of : read_section trees (trees.get_child_optional t2 (key_text config_all_of))
          ≡ reread trees to_uri schema.signers =
        rw
          (get_child-add_patterns trees to_uri t1 config_at_least config_all_of
            schema.optional_signers (λ x. cc))
          (read_section-add_patterns trees to_uri t0 config_all_of schema.signers h.no_all_of) in
      let at_least : read_section trees (trees.get_child_optional t2 (key_text config_at_least))
          ≡ reread trees to_uri schema.optional_signers =
        read_section-add_patterns trees to_uri t1 config_at_least schema.optional_signers (
          get_child-add_patterns trees to_uri t0 config_all_of config_at_least schema.signers
            (λ x. cc)
          ∙ h.no_at_least) in
      let filled : 0 < length (trees.children t2) =
        children-add_patterns trees to_uri t1 config_at_least schema.optional_signers
          (children-add_patterns trees to_uri t0 config_all_of schema.signers h.filled) in
      let some_children : (length (trees.children t2) == 0) ≡ false = ground (arith, filled) in
      rw
        (
          from_schema_section,
          some_children,
          name_text,
          rule_text,
          text_eq-nil (to_uri schema.pkt_name.name) named,
          text_eq-nil schema.rule_id ruled,
          number,
          all_of,
          at_least,
        )
        refl
