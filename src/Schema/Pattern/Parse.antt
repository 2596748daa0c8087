-- ===== src/Schema/Pattern/Parse.antt =====
-- How the constructor of a wildcard name reads its text.
use ndn_multi_party_signatur.Prelude.{
  ℕ, zero, suc, ◌+◌, ◌≤◌, ◌<◌, ◌≡◌, refl, ◌⊎◌, inl, inr, false, none, some, List, [], ◌∷◌, ◌++◌,
  length, take, drop, Text, find, stoi, ◌==◌, if◌then◌else◌, arith, length-drop, ltb-false_of_le,
  ltb_of_lt, Bool-cases, Option-cases, All,
}
use ndn_multi_party_signatur.Ndn.{NdnName}
use ndn_multi_party_signatur.Schema.Pattern.{append_component, append_components, times_prefix}

-- The parts of a text between its slashes.
cons_first : ℕ → List Text → List Text
cons_first c [] = (c ∷ []) ∷ []
cons_first c (p ∷ ps) = (c ∷ p) ∷ ps

unfoldable pub components : Text → List Text
unfolding cons_first
components [] = [] ∷ []
components (c ∷ s) = let rest = components s in if c == b'/' then [] ∷ rest else cons_first c rest

-- The character does not occur.
abbrev pub Lacks : ℕ → Text → Type 0
Lacks c s = All (λ d. (d == c) ≡ false) s

components_unsplit : (s : Text) → find b'/' s ≡ none → components s ≡ s ∷ []
unfolding find components
components_unsplit [] h = refl
components_unsplit (c ∷ s) h = elim (Option-cases (find b'/' s)) [
  | inl e ↦ ground (arith, components_unsplit s e)
  | inr (i, e) ↦ absurd (ground arith)
]

components_split :
    (s : Text) (i : ℕ)
    → find b'/' s ≡ some i
    → (components s ≡ take i s ∷ components (drop (i + 1) s)) × (i < length s)
unfolding find components
components_split [] i h = absurd (ground arith)
components_split (c ∷ s) zero h = elim (Bool-cases (c == b'/')) [
  | inl slash ↦ rw slash (refl, omega arith)
  | inr other ↦ elim (Option-cases (find b'/' s)) [
    | inl e ↦ absurd (ground arith)
    | inr (i, e) ↦ absurd (ground arith)
  ]
]
components_split (c ∷ s) (suc j) h = elim (Bool-cases (c == b'/')) [
  | inl slash ↦ absurd (ground arith)
  | inr other ↦
      let e : find b'/' s ≡ some j = ground arith in
      let (split, lt) = components_split s j e in
      rw (other, one_more j) (rw split refl, omega arith)
]
  where
    one_more : (n : ℕ) → suc n + 1 ≡ suc (n + 1)
    one_more n = omega arith

pub find_lacking : (c : ℕ) (s : Text) → Lacks c s → find c s ≡ none
unfolding find
find_lacking c [] h = refl
find_lacking c (d ∷ s) h = ground (arith, find_lacking c s h.1, h.0)

pub find-append : (c : ℕ) (s t : Text) → Lacks c s → find c (s ++ c ∷ t) ≡ some (length s)
unfolding find
find-append c [] t h = ground arith
find-append c (d ∷ s) t h = ground (arith, find-append c s t h.1, h.0)

pub drop-append : (s t : Text) (c : ℕ) → drop (length s + 1) (s ++ c ∷ t) ≡ t
drop-append [] t c = refl
drop-append (d ∷ s) t c = rw (one_more (length s)) (drop-append s t c)
  where
    one_more : (n : ℕ) → suc n + 1 ≡ suc (n + 1)
    one_more n = omega arith

length-drop-lt : (i : ℕ) (s : Text) → i < length s → length (drop (i + 1) s) < length s
length-drop-lt i s h = omega (arith, length-drop (i + 1) s)

module _ {Name : Type 0} ⦃N : NdnName Name⦄ where
  -- The parts appended, one after the other.
  unfoldable pub append_all : Name → List Text → Name
  append_all m [] = m
  append_all m (p ∷ ps) = append_all (append_component m p) ps

  pub append_components-eq :
      (fuel : ℕ) (m : Name) (s : Text)
      → length s < fuel
      → append_components fuel m s ≡ some (append_all m (components s))
  unfolding append_components append_all
  append_components-eq zero m s h = absurd (omega arith)
  append_components-eq (suc fuel) m s h = elim (Option-cases (find b'/' s)) [
    | inl e ↦ rw (e, append_components, components_unsplit s e) refl
    | inr (i, e) ↦
        let (split, lt) = components_split s i e in
        rw (e, append_components, split)
          (append_components-eq fuel (append_component m (take i s)) (drop (i + 1) s)
            (omega (arith, length-drop-lt i s lt)))
  ]

-- The multiplicity that the text before the first slash gives.
unfoldable pub multiplicity : Text → ℕ
multiplicity s = elim (find b'x' s) [
  | none ↦ 1
  | some x ↦ elim (stoi (take x s)) [ none ↦ 1 | some n ↦ n ]
]

find-append_left :
    (c i : ℕ) (s t : Text) → find c s ≡ some i → (find c (s ++ t) ≡ some i) × (i < length s)
unfolding find
find-append_left c i [] t h = absurd (ground arith)
find-append_left c i (d ∷ s) t h = elim (Option-cases (find c s)) [
  | inl e ↦ ground (arith, e)
  | inr (j, e) ↦ ground (arith, find-append_left c j s t e)
]

find-append_right :
    (c : ℕ) (s t : Text)
    → find c s ≡ none
    → (find c (s ++ t) ≡ none) ⊎ ((i : ℕ) × (find c (s ++ t) ≡ some i) × (length s ≤ i))
unfolding find
find-append_right c [] t h = elim (Option-cases (find c t)) [
  | inl e ↦ inl e
  | inr (i, e) ↦ inr (i, e, omega arith)
]
find-append_right c (d ∷ s) t h = elim (Bool-cases (d == c)) [
  | inl hit ↦ absurd (ground arith)
  | inr miss ↦
      let rest : find c s ≡ none = elim (Option-cases (find c s)) [
        | inl e ↦ e
        | inr (i, e) ↦ absurd (ground arith)
      ] in
      elim (find-append_right c s t rest) [
        | inl e ↦ inl (rw (miss, e) refl)
        | inr (i, e, le) ↦ inr (suc i, rw (miss, e) refl, omega arith)
      ]
]

take-append : (i : ℕ) (s t : Text) → i ≤ length s → take i (s ++ t) ≡ take i s
take-append zero s t h = refl
take-append (suc i) [] t h = absurd (omega arith)
take-append (suc i) (c ∷ s) t h = rw (take-append i s t (omega arith))

pub times_prefix-eq : (pre t : Text) → times_prefix (pre ++ t) (length pre) ≡ multiplicity pre
unfolding times_prefix multiplicity
times_prefix-eq pre t = elim (Option-cases (find b'x' pre)) [
  | inl e ↦ elim (find-append_right b'x' pre t e) [
    | inl miss ↦ rw (e, multiplicity, miss, times_prefix) refl
    | inr (i, hit, le) ↦
        rw (e, multiplicity, hit, times_prefix) (rw (ltb-false_of_le i (length pre) le) refl)
  ]
  | inr (i, e) ↦
      let (hit, lt) = find-append_left b'x' i pre t e in
      rw (e, multiplicity, hit, times_prefix)
        (rw (ltb_of_lt i (length pre) lt, take-append i pre t (omega arith)) refl)
]
