-- ===== src/Prelude/Texts.antt =====
-- `std::string` as the list of its characters' codes, with the members that the code calls.
use Prim.Native.Nat.{ℕ, suc, ◌+◌, ◌*◌, ◌-◌, ◌%◌, ◌^◌}
use Prim.Native.Char.{code}
use Prim.Native.String.{String}
use mathlib.Core.Path.{◌≡◌, refl}
use mathlib.Core.Bool.{Bool, true, false, ◌&&◌, ◌||◌}
use mathlib.Core.Option.{Option, none, some}
use mathlib.Core.List.{List, [], ◌∷◌}
use native.Mathlib.Omega.{arith}
use ndn_multi_party_signatur.Prelude.Tests.{◌==◌, leb, if◌then◌else◌}

abbrev pub Text : Type 0
Text = List ℕ

-- A literal's characters.
abbrev pub codes : String → Text
codes String.[] = []
codes (String.◌∷◌ c s) = code c ∷ codes s

-- operator==
unfoldable pub text_eq : Text → Text → Bool
text_eq [] [] = true
text_eq (a ∷ s) (b ∷ t) = a == b && text_eq s t
text_eq _ _ = false

pub text_eq_refl : (s : Text) → text_eq s s ≡ true
unfolding text_eq
text_eq_refl [] = refl
text_eq_refl (a ∷ s) = ground (arith, text_eq_refl s)

pub eq_of_text_eq : (s t : Text) → text_eq s t ≡ true → s ≡ t
unfolding text_eq
eq_of_text_eq [] [] h = refl
eq_of_text_eq [] (b ∷ t) h = cc
eq_of_text_eq (a ∷ s) [] h = cc
eq_of_text_eq (a ∷ s) (b ∷ t) h = ground (arith, eq_of_text_eq s t)

-- find(c): the first position of a character, `none` for npos.
unfoldable pub find : ℕ → Text → Option ℕ
find c [] = none
find c (a ∷ s) = if a == c then some 0 else elim (find c s) [ none ↦ none | some i ↦ some (suc i) ]

is_space : ℕ → Bool
is_space c = c == 32 || (leb 9 c && leb c 13)

is_digit : ℕ → Bool
is_digit c = leb b'0' c && leb c b'9'

skip_spaces : Text → Text
unfolding is_space
skip_spaces [] = []
skip_spaces (c ∷ s) = let rest = skip_spaces s in if is_space c then rest else c ∷ s

-- The number that the leading digits spell, after those already read.
digits_value : ℕ → Text → ℕ
unfolding is_digit
digits_value n [] = n
digits_value n (c ∷ s) =
    let rest = digits_value (n * 10 + (c - b'0')) s in if is_digit c then rest else n

-- Digits are wanted at once, and a value within the range of `int`, whose bound is the argument.
magnitude : ℕ → Text → Option ℕ
unfolding digits_value
magnitude bound [] = none
magnitude bound (c ∷ s) =
    let n = digits_value 0 (c ∷ s) in
    if is_digit c then (if leb n bound then some n else none) else none

signed : Text → Option ℕ
unfolding magnitude
signed [] = none
signed (c ∷ s) =
    if c == b'-'
    then elim (magnitude 2147483648 s) [ none ↦ none | some n ↦ some ((2 ^ 64 - n) % 2 ^ 64) ]
    else if c == b'+'
    then magnitude 2147483647 s
    else magnitude 2147483647 (c ∷ s)

-- std::stoi, its `int` converted to `size_t`; `none` for the exceptions that it throws.
unfoldable pub stoi : Text → Option ℕ
unfolding signed skip_spaces
stoi s = signed (skip_spaces s)
