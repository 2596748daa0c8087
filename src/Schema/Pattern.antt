-- ===== src/Schema/Pattern.antt =====
-- WildCardName of include/ndnmps/schema.hpp and src/schema.cpp: name patterns with a multiplicity.
pub mod Match
pub mod Parse
pub mod Reads
use ndn_multi_party_signatur.Prelude.{
  ℕ, zero, suc, ◌+◌, ◌-◌, ◌≡◌, Bool, true, false, not, ◌&&◌, Option, none, some, List, [], ◌∷◌,
  length, take, drop, Text, codes, text_eq, find, stoi, ◌==◌, ltb, if◌then◌else◌, Result, ok,
  throws, bad_wildcard_name, out_of_fuel,
}
use ndn_multi_party_signatur.Ndn.{NdnName}

pub record WildCardName (Name : Type 0) : Type 0 where
  pub name : Name
  pub times : ℕ

-- WILDCARD_NAME_TYPE
abbrev pub wildcard_name_type : {Name : Type 0} → NdnName Name → ℕ
wildcard_name_type N = N.name_component_max - 1

-- The number before an `x` that comes before the first slash, and 1 where `stoi` throws.
unfoldable pub times_prefix : Text → ℕ → ℕ
times_prefix str slash = elim (find b'x' str) [
  | none ↦ 1
  | some x ↦ if ltb x slash then elim (stoi (take x str)) [ none ↦ 1 | some n ↦ n ] else 1
]

module _ {Name : Type 0} ⦃N : NdnName Name⦄ where
  -- The loop of `match` from position i on, with the positions that are left.
  match_from : Name → Name → ℕ → ℕ → Bool
  match_from m n i zero = true
  match_from m n i (suc left) =
      let rest = match_from m n (i + 1) left in
      if not (N.type_at m i == wildcard_name_type N)
        && not (text_eq (N.text_at m i) (N.text_at n i))
      then false
      else rest

  unfoldable pub match : WildCardName Name → Name → Bool
  unfolding match_from
  match w n =
      if not (N.size w.name == N.size n) then false else match_from w.name n 0 (N.size w.name)

  -- WildCardName(const Name&)
  unfoldable pub of_name : Name → WildCardName Name
  of_name n = record { name = n; times = 1 }

  -- One component of the text, `*` for the wildcard.
  unfoldable pub append_component : Name → Text → Name
  append_component m comp =
      if text_eq comp (codes "*")
      then N.append_type m (wildcard_name_type N)
      else N.append_text m comp

  -- The loop over the slashes, on fuel; `none` if the fuel runs out.
  unfoldable pub append_components : ℕ → Name → Text → Option Name
  append_components zero m temp = none
  append_components (suc fuel) m temp = elim (find b'/' temp) [
    | none ↦ some (append_component m temp)
    | some slash ↦
        append_components fuel (append_component m (take slash temp)) (drop (slash + 1) temp)
  ]

  -- WildCardName(const std::string&). Each round takes a character off, so the fuel is enough.
  unfoldable pub of_string : Text → Result (WildCardName Name)
  of_string str = elim (find b'/' str) [
    | none ↦ throws bad_wildcard_name
    | some slash ↦ elim (append_components (suc (length str)) N.empty_name (drop (slash + 1) str)) [
      | none ↦ throws out_of_fuel
      | some m ↦ ok (record { name = m; times = times_prefix str slash })
    ]
  ]
