-- ===== src/Schema/Pattern/Match.antt =====
-- What a pattern matches.
use ndn_multi_party_signatur.Prelude.{
  ℕ, zero, suc, ◌+◌, ◌<◌, ◌≡◌, refl, ◌↔◌, ◌⊎◌, true, text_eq_refl, eq_of_text_eq, arith, ◌≤◌,
}
use native.Mathlib.Decide.{ℕ_discrete}
use ndn_multi_party_signatur.Ndn.{NdnName}
use ndn_multi_party_signatur.Schema.Pattern.{WildCardName, match, match_from, wildcard_name_type}

module _ {Name : Type 0} ⦃N : NdnName Name⦄ where
  -- A component of a pattern accepts one of a name: as the wildcard, or with the same text.
  abbrev pub Accepts : Name → Name → ℕ → Type 0
  Accepts m n i = (N.type_at m i ≡ wildcard_name_type N) ⊎ (N.text_at m i ≡ N.text_at n i)

  abbrev pub Matches : WildCardName Name → Name → Type 0
  Matches w n = (N.size w.name ≡ N.size n) × ((i : ℕ) → i < N.size w.name → Accepts w.name n i)

  match_from_sound :
      (m n : Name) (i left : ℕ)
      → match_from m n i left ≡ true
      → (k : ℕ) → i ≤ k
      → k < i + left
      → Accepts m n k
  unfolding match_from
  match_from_sound m n i zero h k a b = absurd (omega arith)
  match_from_sound m n i (suc left) h k a b = elim (ℕ_discrete i k) [
    | yes e ↦ ground (arith, eq_of_text_eq (N.text_at m k) (N.text_at n k), e)
    | no ne ↦ match_from_sound m n (i + 1) left (ground arith) k (omega arith) (omega arith)
  ]

  match_from_complete :
      (m n : Name) (i left : ℕ)
      → ((k : ℕ) → i ≤ k → k < i + left → Accepts m n k)
      → match_from m n i left ≡ true
  unfolding match_from
  match_from_complete m n i zero h = refl
  match_from_complete m n i (suc left) h = ground (
    arith,
    h i (omega arith) (omega arith),
    text_eq_refl (N.text_at m i),
    match_from_complete m n (i + 1) left (λ k a b. h k (omega arith) (omega arith)),
  )

  -- A pattern matches a name exactly when they have as many components, and each component of the
  -- pattern is the wildcard or has the text of the name's component at its position.
  pub match_iff : (w : WildCardName Name) (n : Name) → (match w n ≡ true) ↔ Matches w n
  unfolding match
  match_iff w n = (
    λ h. (
      ground arith,
      λ i b.
          match_from_sound w.name n 0 (N.size w.name) (ground arith) i (omega arith) (omega arith),
    ),
    λ m.
        ground (
          arith,
          m.0,
          match_from_complete w.name n 0 (N.size w.name) (λ k a b. m.1 k (omega arith)),
        ),
  )
