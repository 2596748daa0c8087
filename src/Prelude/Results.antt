-- ===== src/Prelude/Results.antt =====
-- What a call that may throw returns. `out_of_bounds` is no exception of the program: it marks a
-- read past the end of a container, which C++ leaves undefined. `out_of_fuel` marks a loop of the
-- model that ran out of rounds.
use mathlib.Core.Path.{◌≡◌, refl}
use mathlib.Core.Logic.{◌⊎◌, inl, inr}

pub data Error : Type 0 where
  missing_keys missing_optional_keys missing_key : Error
  bad_wildcard_name bad_schema bad_tlv bad_signature_type : Error
  crypto_failure rejected_by_signer : Error
  out_of_bounds out_of_fuel : Error

pub data Result {ℓ} (A : Type ℓ) : Type ℓ where
  ok : A → Result A
  throws : Error → Result A

infixl 5 ◌>>=◌
abbrev pub ◌>>=◌ {ℓ ℓ'} : {S : Type ℓ} {T : Type ℓ'} → Result S → (S → Result T) → Result T
throws e >>= next = throws e
ok value >>= next = next value

pub Result-cases {ℓ} :
    {A : Type ℓ} (r : Result A) → ((a : A) × (r ≡ ok a)) ⊎ ((e : Error) × (r ≡ throws e))
Result-cases (ok a) = inl (a, refl)
Result-cases (throws e) = inr (e, refl)
