-- ===== src/Ndn.antt =====
-- What the code uses of ndn-cxx's names. ndn-cxx is not part of the repository: names, their
-- operations and the laws below, which its documentation gives, are parameters of the model.
use ndn_multi_party_signatur.Prelude.{ℕ, ◌+◌, ◌-◌, ◌<◌, ◌≡◌, ◌≢◌, Bool, Text, ◌==◌}

pub record NdnName (Name : Type 0) : Type 0 where
  -- size(), empty(), Name()
  pub size : Name → ℕ
  pub empty : Name → Bool
  pub empty_name : Name
  -- get(i).type() and readString(get(i)), for i below the size
  pub type_at : Name → ℕ → ℕ
  pub text_at : Name → ℕ → Text
  -- append(Component(text)) and append(Component(type)), a component with no value
  pub append_text : Name → Text → Name
  pub append_type : Name → ℕ → Name
  -- tlv::GenericNameComponent, tlv::NameComponentMax
  pub generic_type : ℕ
  pub name_component_max : ℕ
  pub generic-ne-wildcard : generic_type ≢ name_component_max - 1
  pub empty_size : (n : Name) → empty n ≡ (size n == 0)
  pub size_empty_name : size empty_name ≡ 0
  pub size-append_text : (n : Name) (t : Text) → size (append_text n t) ≡ size n + 1
  pub size-append_type : (n : Name) (y : ℕ) → size (append_type n y) ≡ size n + 1
  pub type_at-append_text :
      (n : Name) (t : Text) → type_at (append_text n t) (size n) ≡ generic_type
  pub text_at-append_text : (n : Name) (t : Text) → text_at (append_text n t) (size n) ≡ t
  pub type_at-append_type : (n : Name) (y : ℕ) → type_at (append_type n y) (size n) ≡ y
  pub type_at-append_text_lt :
      (n : Name) (t : Text) (i : ℕ) → i < size n → type_at (append_text n t) i ≡ type_at n i
  pub text_at-append_text_lt :
      (n : Name) (t : Text) (i : ℕ) → i < size n → text_at (append_text n t) i ≡ text_at n i
  pub type_at-append_type_lt :
      (n : Name) (y i : ℕ) → i < size n → type_at (append_type n y) i ≡ type_at n i
  pub text_at-append_type_lt :
      (n : Name) (y i : ℕ) → i < size n → text_at (append_type n y) i ≡ text_at n i
