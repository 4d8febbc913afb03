-- ===== src/Prelude/Keyed.antt =====
-- Dictionaries in which each value stands under its own key, and once.
use lmao.Prelude.Tests.{Bool-cases}
use lmao.Prelude.Sorting.{Member}
use lmao.Prelude.Dict.{Dict, lookup, insert, remove, lookup-insert, lookup-remove}
use Prim.Native.String.{String}
use mathlib.Core.Path.{◌≡◌, refl, sym, ap, ◌∙◌, subst}
use mathlib.Core.Logic.{◌↔◌, inl, inr}
use mathlib.Core.Option.{Option, none, some}
use mathlib.Core.List.{List, [], ◌∷◌}
use native.Mathlib.Omega.{arith}
use text.Mathlib.Text.{◌==◌}
use text.Mathlib.TextEquality.{eq_iff}

pub some_inj : {A : Type 0} (a b : A) → ◌≡◌ {A = Option A} (some a) (some b) → a ≡ b
some_inj a b e = cc e

pub none_not_some : {A : Type 0} (a : A) → ◌≡◌ {A = Option A} none (some a) → ⊥
none_not_some a e = cc e

module _ {V : Type 0} where
  abbrev pub values : Dict V → List V
  values [] = []
  values ((j, v) ∷ d) = v ∷ values d

module _ {V : Type 0} (key : V → String) where
  abbrev pub IsKeyed : Dict V → Type 0
  IsKeyed [] = Unit
  IsKeyed ((j, v) ∷ d) = (key v ≡ j) × (lookup j d ≡ none) × IsKeyed d

  pub insert-IsKeyed : (v : V) (d : Dict V) → IsKeyed d → IsKeyed (insert (key v) v d)
  unfolding insert lookup
  insert-IsKeyed v [] h = (refl, refl, tt)
  insert-IsKeyed v ((j, w) ∷ d) h = elim (Bool-cases (j == key v)) [
    | inl same ↦ rw same (refl, subst (λ x. lookup x d ≡ none) ((eq_iff j (key v)).0 same) h.1, h.2)
    | inr other ↦ rw other (
      h.0,
      ground (arith, lookup-insert (key v) j v d, eq_iff j (key v), eq_iff (key v) j, h.1),
      insert-IsKeyed v d h.2,
    )
  ]

  pub remove-IsKeyed : (k : String) (d : Dict V) → IsKeyed d → IsKeyed (remove k d)
  unfolding remove
  remove-IsKeyed k [] h = tt
  remove-IsKeyed k ((j, w) ∷ d) h = elim (Bool-cases (j == k)) [
    | inl same ↦ rw same (remove-IsKeyed k d h.2)
    | inr other ↦ rw other (h.0, ground (arith, lookup-remove k j d, h.1), remove-IsKeyed k d h.2)
  ]

  Member-lookup : (v : V) (d : Dict V) → IsKeyed d → Member v (values d) → lookup (key v) d ≡ some v
  unfolding lookup
  Member-lookup v [] h m = absurd m
  Member-lookup v ((j, w) ∷ d) h (inl e) =
      rw ((eq_iff j (key v)).1 (sym (ap key e ∙ h.0))) (ap some (sym e))
  Member-lookup v ((j, w) ∷ d) h (inr m) = elim (Bool-cases (j == key v)) [
    | inl same ↦
        let found = Member-lookup v d h.2 m in
        let absent = subst (λ x. lookup x d ≡ none) ((eq_iff j (key v)).0 same) h.1 in
        absurd (none_not_some v (sym absent ∙ found))
    | inr other ↦ rw other (Member-lookup v d h.2 m)
  ]

  lookup-Member :
      (k : String) (v : V) (d : Dict V)
      → IsKeyed d
      → lookup k d ≡ some v
      → Member v (values d) × (key v ≡ k)
  unfolding lookup
  lookup-Member k v [] h e = absurd (none_not_some v e)
  lookup-Member k v ((j, w) ∷ d) h e = elim (Bool-cases (j == k)) [
    | inl same ↦
        let here = some_inj w v (rw same at e) in
        (inl (sym here), ap key (sym here) ∙ h.0 ∙ (eq_iff j k).0 same)
    | inr other ↦ let rest = lookup-Member k v d h.2 (rw other at e) in (inr rest.0, rest.1)
  ]

  pub Member-values :
      (v : V) (d : Dict V) → IsKeyed d → Member v (values d) ↔ (lookup (key v) d ≡ some v)
  Member-values v d h = (Member-lookup v d h, λ e. (lookup-Member (key v) v d h e).0)

  pub lookup-key : (k : String) (v : V) (d : Dict V) → IsKeyed d → lookup k d ≡ some v → key v ≡ k
  lookup-key k v d h e = (lookup-Member k v d h e).1
