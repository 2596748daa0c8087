-- ===== src/Examples/Names.antt =====
-- Names as lists of typed components, in the order of their types and characters: an instance of
-- what `Ndn` and `Ordered` ask for.
use ndn_multi_party_signatur.Prelude.{
  ℕ, zero, suc, ◌+◌, ◌<◌, ◌≡◌, ◌≢◌, refl, ap, Bool, true, false, List, [], ◌∷◌, ◌++◌, Option, none,
  some, length, get_elem?, Text, ltb, if◌then◌else◌, arith, ◌==◌, length-append,
}
use ndn_multi_party_signatur.Ndn.{NdnName}
use ndn_multi_party_signatur.Ordered.{Ord}

pub ltb_irrefl : (a : ℕ) → ltb a a ≡ false
ltb_irrefl a = ground arith

pub ltb_trans : (a b c : ℕ) → ltb a b ≡ true → ltb b c ≡ true → ltb a c ≡ true
ltb_trans a b c h k = ground arith

pub ltb_connected : (a b : ℕ) → ltb a b ≡ false → ltb b a ≡ false → a ≡ b
ltb_connected a b h k = ground arith

instance abbrev pub nat_ord : Ord ℕ
nat_ord = record {
  lt = ltb;
  lt_irrefl = ltb_irrefl;
  lt_trans = ltb_trans;
  lt_connected = ltb_connected;
}

module _ {A : Type 0} ⦃o : Ord A⦄ where
  abbrev pub list_lt : List A → List A → Bool
  list_lt [] [] = false
  list_lt [] (y ∷ ys) = true
  list_lt (x ∷ xs) [] = false
  list_lt (x ∷ xs) (y ∷ ys) =
      let rest = list_lt xs ys in if o.lt x y then true else if o.lt y x then false else rest

  pub list_lt_irrefl : (xs : List A) → list_lt xs xs ≡ false
  list_lt_irrefl [] = refl
  list_lt_irrefl (x ∷ xs) = ground (arith, o.lt_irrefl x, list_lt_irrefl xs)

  pub list_lt_trans :
      (xs ys zs : List A) → list_lt xs ys ≡ true → list_lt ys zs ≡ true → list_lt xs zs ≡ true
  list_lt_trans [] [] zs h k = cc
  list_lt_trans [] (y ∷ ys) [] h k = cc
  list_lt_trans [] (y ∷ ys) (z ∷ zs) h k = refl
  list_lt_trans (x ∷ xs) [] zs h k = cc
  list_lt_trans (x ∷ xs) (y ∷ ys) [] h k = cc
  list_lt_trans (x ∷ xs) (y ∷ ys) (z ∷ zs) h k = ground (
    arith,
    list_lt_trans xs ys zs,
    o.lt_connected x y,
    o.lt_connected y z,
    o.lt_trans x y z,
    o.lt_trans z x y,
    o.lt_trans y z x,
    o.lt_irrefl z,
  )

  pub list_lt_connected : (xs ys : List A) → list_lt xs ys ≡ false → list_lt ys xs ≡ false → xs ≡ ys
  list_lt_connected [] [] h k = refl
  list_lt_connected [] (y ∷ ys) h k = cc
  list_lt_connected (x ∷ xs) [] h k = cc
  list_lt_connected (x ∷ xs) (y ∷ ys) h k =
      ground (arith, list_lt_connected xs ys, o.lt_connected x y)

  instance abbrev pub list_ord : Ord (List A)
  list_ord = record {
    lt = list_lt;
    lt_irrefl = list_lt_irrefl;
    lt_trans = list_lt_trans;
    lt_connected = list_lt_connected;
  }

pub record Component : Type 0 where
  pub kind : ℕ
  pub text : Text

abbrev pub component_lt : Component → Component → Bool
component_lt a b =
    if ltb a.kind b.kind then true else if ltb b.kind a.kind then false else list_lt a.text b.text

pub component_lt_irrefl : (a : Component) → component_lt a a ≡ false
component_lt_irrefl a = ground (arith, list_lt_irrefl a.text)

pub component_lt_trans :
    (a b c : Component)
    → component_lt a b ≡ true
    → component_lt b c ≡ true
    → component_lt a c ≡ true
component_lt_trans a b c h k = ground (arith, list_lt_trans a.text b.text c.text)

pub component_lt_connected :
    (a b : Component) → component_lt a b ≡ false → component_lt b a ≡ false → a ≡ b
component_lt_connected a b h k = ground (arith, list_lt_connected a.text b.text)

instance abbrev pub component_ord : Ord Component
component_ord = record {
  lt = component_lt;
  lt_irrefl = component_lt_irrefl;
  lt_trans = component_lt_trans;
  lt_connected = component_lt_connected;
}

abbrev pub PlainName : Type 0
PlainName = List Component

abbrev pub kind_of : Option Component → ℕ
kind_of none = 0
kind_of (some c) = c.kind

abbrev pub text_of : Option Component → Text
text_of none = []
text_of (some c) = c.text

abbrev pub kind_at : PlainName → ℕ → ℕ
kind_at n i = kind_of (get_elem? n i)

abbrev pub text_at : PlainName → ℕ → Text
text_at n i = text_of (get_elem? n i)

abbrev pub plain : ℕ → Text → Component
plain k t = record { kind = k; text = t }

pub get_elem?-append_last :
    (n : PlainName) (c : Component) → get_elem? (n ++ c ∷ []) (length n) ≡ some c
get_elem?-append_last [] c = refl
get_elem?-append_last (x ∷ n) c = get_elem?-append_last n c

pub get_elem?-append_lt :
    (n : PlainName) (c : Component) (i : ℕ)
    → i < length n
    → get_elem? (n ++ c ∷ []) i ≡ get_elem? n i
get_elem?-append_lt [] c i h = absurd (omega arith)
get_elem?-append_lt (x ∷ n) c zero h = refl
get_elem?-append_lt (x ∷ n) c (suc i) h = get_elem?-append_lt n c i (omega arith)

pub length-append_one : (n : PlainName) (c : Component) → length (n ++ c ∷ []) ≡ length n + 1
length-append_one n c = omega (arith, length-append n (c ∷ []))

pub eight_ne : ◌≢◌ {A = ℕ} 8 65534
eight_ne e = omega arith

instance abbrev pub plain_names : NdnName PlainName
plain_names = record {
  size = length;
  empty = λ n. length n == 0;
  empty_name = [];
  type_at = kind_at;
  text_at = text_at;
  append_text = λ n t. n ++ plain 8 t ∷ [];
  append_type = λ n y. n ++ plain y [] ∷ [];
  generic_type = 8;
  name_component_max = 65535;
  generic-ne-wildcard = eight_ne;
  empty_size = λ n. refl;
  size_empty_name = refl;
  size-append_text = λ n t. length-append_one n (plain 8 t);
  size-append_type = λ n y. length-append_one n (plain y []);
  type_at-append_text = λ n t. ap kind_of (get_elem?-append_last n (plain 8 t));
  text_at-append_text = λ n t. ap text_of (get_elem?-append_last n (plain 8 t));
  type_at-append_type = λ n y. ap kind_of (get_elem?-append_last n (plain y []));
  type_at-append_text_lt = λ n t i h. ap kind_of (get_elem?-append_lt n (plain 8 t) i h);
  text_at-append_text_lt = λ n t i h. ap text_of (get_elem?-append_lt n (plain 8 t) i h);
  type_at-append_type_lt = λ n y i h. ap kind_of (get_elem?-append_lt n (plain y []) i h);
  text_at-append_type_lt = λ n y i h. ap text_of (get_elem?-append_lt n (plain y []) i h);
}
