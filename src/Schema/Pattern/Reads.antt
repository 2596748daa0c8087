-- ===== src/Schema/Pattern/Reads.antt =====
-- What a wildcard name read from a text is, and which names it matches.
use mathlib.Core.Path.{subst}
use ndn_multi_party_signatur.Prelude.{
  ℕ, zero, suc, ◌+◌, ◌<◌, ◌≡◌, ◌≢◌, refl, sym, ◌∙◌, ◌↔◌, ◌⊎◌, inl, inr, true, some, List, [], ◌∷◌,
  ◌++◌, length, length-append, get_elem?, get_elem?-lt, get_elem?_of_lt, Text, codes, text_eq,
  text_eq_refl, eq_of_text_eq, arith, Bool-cases, ok, throws, bad_wildcard_name,
}
use ndn_multi_party_signatur.Ndn.{NdnName}
use ndn_multi_party_signatur.Schema.Pattern.{
  WildCardName, wildcard_name_type, append_component, of_string, match,
}
use ndn_multi_party_signatur.Schema.Pattern.Match.{match_iff}
use ndn_multi_party_signatur.Schema.Pattern.Parse.{
  components, Lacks, find_lacking, find-append, drop-append, append_all, append_components-eq,
  multiplicity, times_prefix-eq,
}

module _ {Name : Type 0} ⦃N : NdnName Name⦄ where
  -- The constructor of a wildcard name throws for a text without a slash.
  pub of_string_unslashed :
      (s : Text) → Lacks b'/' s → of_string {Name = Name} s ≡ throws bad_wildcard_name
  unfolding of_string
  of_string_unslashed s h = rw (find_lacking b'/' s h, of_string) refl

  -- For a text with a first slash the constructor does not throw and its loop ends: the name has the
  -- parts between the later slashes as its components, and the multiplicity is the number that
  -- stands before an `x` in front of the first slash, or 1 where there is none that fits an `int`.
  pub of_string_slashed :
      (before after : Text)
      → Lacks b'/' before
      → of_string (before ++ b'/' ∷ after)
        ≡ ok (record {
          name = append_all N.empty_name (components after);
          times = multiplicity before;
        })
  unfolding of_string
  of_string_slashed before after h =
      rw
        (
          find-append b'/' before after h,
          of_string,
          drop-append before after b'/',
          append_components-eq (suc (length (before ++ b'/' ∷ after))) N.empty_name after
              (omega (arith, length-append before (b'/' ∷ after))),
          times_prefix-eq before (b'/' ∷ after),
        )
        refl

  -- What the constructor makes of one part.
  abbrev Component : Name → ℕ → Text → Type 0
  Component m i part =
      ((part ≡ codes "*") × (N.type_at m i ≡ wildcard_name_type N))
      ⊎ ((part ≢ codes "*") × (N.type_at m i ≢ wildcard_name_type N) × (N.text_at m i ≡ part))

  record Appended (m : Name) (parts : List Text) (r : Name) : Type 0 where
    size : N.size r ≡ N.size m + length parts
    old : (i : ℕ) → i < N.size m → (N.type_at r i ≡ N.type_at m i) × (N.text_at r i ≡ N.text_at m i)
    new : (j : ℕ) (part : Text) → get_elem? parts j ≡ some part → Component r (N.size m + j) part

  append_component-Appended :
      (m : Name) (part : Text)
      → Component (append_component m part) (N.size m) part
        × (N.size (append_component m part) ≡ N.size m + 1)
        × ((i : ℕ)
            → i < N.size m
            → (N.type_at (append_component m part) i ≡ N.type_at m i)
              × (N.text_at (append_component m part) i ≡ N.text_at m i))
  unfolding append_component
  append_component-Appended m part = elim (Bool-cases (text_eq part (codes "*"))) [
    | inl star ↦
        rw (star, append_component)
          (
            inl (
              eq_of_text_eq part (codes "*") star,
              N.type_at-append_type m (wildcard_name_type N),
            ),
            N.size-append_type m (wildcard_name_type N),
            λ i h. (
              N.type_at-append_type_lt m (wildcard_name_type N) i h,
              N.text_at-append_type_lt m (wildcard_name_type N) i h,
            ),
          )
    | inr plain ↦
        rw (plain, append_component)
          (
            inr (
              (λ e. ground (arith, text_eq_refl part, rw e at plain, text_eq_refl (codes "*"))),
              (λ e. N.generic-ne-wildcard (sym (N.type_at-append_text m part) ∙ e)),
              N.text_at-append_text m part,
            ),
            N.size-append_text m part,
            λ i h. (N.type_at-append_text_lt m part i h, N.text_at-append_text_lt m part i h),
          )
  ]

  Component-transfer :
      (q r : Name) (i : ℕ) (part : Text)
      → N.type_at r i ≡ N.type_at q i
      → N.text_at r i ≡ N.text_at q i
      → Component q i part
      → Component r i part
  Component-transfer q r i part ty tx (inl (e, w)) = inl (e, ty ∙ w)
  Component-transfer q r i part ty tx (inr (e, w, t)) = inr (e, (λ x. w (sym ty ∙ x)), tx ∙ t)

  append_all-Appended : (m : Name) (parts : List Text) → Appended m parts (append_all m parts)
  unfolding append_all
  append_all-Appended m [] = record {
    size = omega arith;
    old = λ i h. (refl, refl);
    new = λ j part e. absurd (ground arith);
  }
  append_all-Appended m (p ∷ ps) =
      let (first, size, old) = append_component-Appended m p in
      let rest = append_all-Appended (append_component m p) ps in
      record {
        size = omega (arith, rest.size, size);
        old = λ i h.
            let (ty, tx) = rest.old i (omega (arith, size)) in
            let (ty', tx') = old i h in (ty ∙ ty', tx ∙ tx');
        new = at_part first size rest;
      }
    where
      at_part :
          Component (append_component m p) (N.size m) p
          → N.size (append_component m p) ≡ N.size m + 1
          → Appended (append_component m p) ps (append_all (append_component m p) ps)
          → (j : ℕ) (part : Text) → get_elem? (p ∷ ps) j ≡ some part
          → Component (append_all (append_component m p) ps) (N.size m + j) part
      at_part first size rest zero part e =
          let r = append_all (append_component m p) ps in
          let (ty, tx) = rest.old (N.size m) (omega (arith, size)) in
          let same_part : p ≡ part = cc in
          let here : N.size m ≡ N.size m + 0 = omega arith in
          subst (λ i. Component r i part) here
            (Component-transfer (append_component m p) r (N.size m) part ty tx
              (subst (Component (append_component m p) (N.size m)) same_part first))
      at_part first size rest (suc j) part e =
          let later : N.size (append_component m p) + j ≡ N.size m + suc j = omega (arith, size) in
          subst (λ i. Component (append_all (append_component m p) ps) i part) later
            (rest.new j part e)

  -- What a text says of a name: as many parts as components, each `*` or the component's text.
  abbrev pub PartsMatch : List Text → Name → Type 0
  PartsMatch parts n =
      (length parts ≡ N.size n)
      × ((i : ℕ) (part : Text)
          → get_elem? parts i ≡ some part
          → (part ≡ codes "*") ⊎ (part ≡ N.text_at n i))

  match-append_all_iff :
      (parts : List Text) (times : ℕ) (n : Name)
      → (match (record { name = append_all N.empty_name parts; times = times }) n ≡ true)
        ↔ PartsMatch parts n
  match-append_all_iff parts times n =
      let r = append_all N.empty_name parts in
      let w : WildCardName Name = record { name = r; times = times } in
      let read = append_all-Appended N.empty_name parts in
      let size : N.size r ≡ length parts = omega (arith, read.size, N.size_empty_name) in
      (
        λ m.
            let (sizes, accept) = (match_iff w n).0 m in
            (
              omega (arith, size, sizes),
              λ i part e. elim (component i part e) [
                | inl (star, _) ↦ inl star
                | inr (_, plain, text) ↦
                    elim (accept i (omega (arith, size, get_elem?-lt parts i part e))) [
                      | inl wild ↦ absurd (plain wild)
                      | inr same_text ↦ inr (sym text ∙ same_text)
                    ]
              ],
            ),
        λ (sizes, fits). (match_iff w n).1 (
          omega (arith, size, sizes),
          λ i h.
              let (part, e) = get_elem?_of_lt parts i (omega (arith, size, h)) in
              elim (component i part e) [
                | inl (_, wild) ↦ inl wild
                | inr (ne, _, text) ↦ elim (fits i part e) [
                  | inl star ↦ absurd (ne star)
                  | inr same_text ↦ inr (text ∙ same_text)
                ]
              ],
        ),
      )
    where
      component :
          (i : ℕ) (part : Text)
          → get_elem? parts i ≡ some part
          → Component (append_all N.empty_name parts) i part
      component i part e =
          let place : N.size N.empty_name + i ≡ i = omega (arith, N.size_empty_name) in
          subst (λ j. Component (append_all N.empty_name parts) j part) place
            ((append_all-Appended N.empty_name parts).new i part e)

  -- A wildcard name read from a text matches exactly the names with as many components as the text
  -- has parts behind its first slash, in which each part is `*` or the text of the component at its
  -- place.
  pub match-of_string_iff :
      (before after : Text) (w : WildCardName Name) (n : Name)
      → Lacks b'/' before
      → of_string (before ++ b'/' ∷ after) ≡ ok w
      → (match w n ≡ true) ↔ PartsMatch (components after) n
  match-of_string_iff before after w n h e =
      let read : WildCardName Name = record {
        name = append_all N.empty_name (components after);
        times = multiplicity before;
      } in
      let same_name : read ≡ w = cc (of_string_slashed before after h) in
      subst (λ v. (match v n ≡ true) ↔ PartsMatch (components after) n) same_name
        (match-append_all_iff (components after) (multiplicity before) n)
