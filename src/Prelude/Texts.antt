-- ===== src/Prelude/Texts.antt =====
-- `<` on strings as in Rust, by code points: the order of the keys of a `BTreeMap<String, _>`.
use Prim.Native.Nat.{compare as compare_ℕ, Ordering}
use Prim.Native.Char.{Char, code}
use Prim.Native.String.compare
use Prim.Native.String.{compare, then}
use text.Mathlib.TextEquality.{eq_iff, path_by_compare}
use text.Mathlib.TextPositions.{compare_refl}
use Prim.Native.String.{String}
use mathlib.Core.Path.{◌≡◌, sym, ap, ◌∙◌}
use mathlib.Core.Logic.{◌⊎◌, inl, inr}
use mathlib.Core.Bool.{Bool, true, false}
use native.Mathlib.Omega.{arith}
use text.Mathlib.Text.{◌==◌}

abbrev is_lt : Ordering → Bool
is_lt Ordering.lt = true
is_lt Ordering.eq = false
is_lt Ordering.gt = false

abbrev pub text_lt : String → String → Bool
text_lt a b = is_lt (compare a b)

pub text_irrefl : (a : String) → text_lt a a ≡ false
text_irrefl a = ap is_lt (compare_refl a)

text_lt-cons :
    (x y : Char) (a b : String)
    → text_lt (String.◌∷◌ x a) (String.◌∷◌ y b)
      ≡ is_lt (then (compare_ℕ (code x) (code y)) (compare a b))
text_lt-cons x y a b = ap is_lt (compare.cons-cons x y a b)

false_not_true : false ≡ true → ⊥
false_not_true h = ground arith

pub text_trans : (a b c : String) → text_lt a b ≡ true → text_lt b c ≡ true → text_lt a c ≡ true
text_trans String.[] String.[] c h g = absurd (false_not_true (sym (text_irrefl String.[]) ∙ h))
text_trans String.[] (String.◌∷◌ y b) String.[] h g =
    absurd (false_not_true (sym (ap is_lt (compare.cons-nil y b)) ∙ g))
text_trans String.[] (String.◌∷◌ y b) (String.◌∷◌ z c) h g = ap is_lt (compare.nil-cons z c)
text_trans (String.◌∷◌ x a) String.[] c h g =
    absurd (false_not_true (sym (ap is_lt (compare.cons-nil x a)) ∙ h))
text_trans (String.◌∷◌ x a) (String.◌∷◌ y b) String.[] h g =
    absurd (false_not_true (sym (ap is_lt (compare.cons-nil y b)) ∙ g))
text_trans (String.◌∷◌ x a) (String.◌∷◌ y b) (String.◌∷◌ z c) h g =
    let h' = sym (text_lt-cons x y a b) ∙ h in
    let g' = sym (text_lt-cons y z b c) ∙ g in
    text_lt-cons x z a c ∙ ground (arith, text_trans a b c, h', g')

compare_total :
    (a b : String) → text_lt a b ≡ false → (compare a b ≡ Ordering.eq) ⊎ (text_lt b a ≡ true)
compare_total String.[] String.[] h = inl compare.nil-nil
compare_total String.[] (String.◌∷◌ y b) h =
    absurd (false_not_true (sym h ∙ ap is_lt (compare.nil-cons y b)))
compare_total (String.◌∷◌ x a) String.[] h = inr (ap is_lt (compare.nil-cons x a))
compare_total (String.◌∷◌ x a) (String.◌∷◌ y b) h =
    let h' = sym (text_lt-cons x y a b) ∙ h in
    ground (arith, compare_total a b, h', compare.cons-cons x y a b, text_lt-cons y x b a)

pub text_total : (a b : String) → text_lt a b ≡ false → (a == b) ≡ false → text_lt b a ≡ true
text_total a b h ne = elim (compare_total a b h) [
  | inl same ↦ ground (arith, (eq_iff a b).1 (path_by_compare a b same))
  | inr above ↦ above
]
