-- ===== src/Trust/Order.antt =====
-- The entries of core/src/trust.rs stay sorted by key, with no key twice and each entry under its own.
use lmao.Prelude.{
  ◌≡◌, refl, subst, String, true, none, [], ◌∷◌, arith, ◌==◌, eq_iff, Bool-cases, inl, inr, text_lt,
  text_irrefl, text_trans, text_total, if◌then◌else◌,
}
use lmao.Trust.{TrustEntry, Entries, get, delete, put}

abbrev pub Above : String → Entries → Type 0
Above k [] = Unit
Above k ((j, e) ∷ es) = (text_lt k j ≡ true) × Above k es

abbrev pub IsSorted : Entries → Type 0
IsSorted [] = Unit
IsSorted ((k, e) ∷ es) = Above k es × IsSorted es

-- Each entry stands under its own public key.
abbrev pub IsKeyed : Entries → Type 0
IsKeyed [] = Unit
IsKeyed ((k, e) ∷ es) = (e.pubkey ≡ k) × IsKeyed es

pub Above-trans : (i k : String) (es : Entries) → text_lt i k ≡ true → Above k es → Above i es
Above-trans i k [] h a = tt
Above-trans i k ((j, e) ∷ es) h a = (text_trans i k j h a.0, Above-trans i k es h a.1)

Above-put :
    (i k : String) (e : TrustEntry) (es : Entries)
    → text_lt i k ≡ true
    → Above i es
    → Above i (put k e es)
unfolding put
Above-put i k e [] h a = (h, tt)
Above-put i k e ((j, d) ∷ es) h a = ground (arith, Above-put i k e es h a.1)

pub put-IsSorted :
    (k : String) (e : TrustEntry) (es : Entries) → IsSorted es → IsSorted (put k e es)
unfolding put
put-IsSorted k e [] s = (tt, tt)
put-IsSorted k e ((j, d) ∷ es) s = elim (Bool-cases (j == k)) [
  | inl same ↦ rw same (subst (λ i. Above i es) ((eq_iff j k).0 same) s.0, s.1)
  | inr other ↦ elim (Bool-cases (text_lt k j)) [
    | inl below ↦ rw (other, below) ((below, Above-trans k j es below s.0), s)
    | inr above ↦
        let j_below = text_total k j above (ground (arith, other, eq_iff j k, eq_iff k j)) in
        rw (other, above) (Above-put j k e es j_below s.0, put-IsSorted k e es s.1)
  ]
]

pub get-Above : (k : String) (es : Entries) → Above k es → get k es ≡ none
unfolding get
get-Above k [] a = refl
get-Above k ((j, e) ∷ es) a = elim (Bool-cases (j == k)) [
  | inl same ↦
      let bad = subst (λ i. text_lt k i ≡ true) ((eq_iff j k).0 same) a.0 in cc (bad, text_irrefl k)
  | inr other ↦ rw other (get-Above k es a.1)
]

-- After a removal the key is gone and every other key finds what it found.
pub get-delete :
    (k j : String) (es : Entries)
    → IsSorted es
    → get j (delete k es) ≡ (if k == j then none else get j es)
unfolding get delete
get-delete k j [] s = ground arith
get-delete k j ((i, d) ∷ es) s = elim (Bool-cases (i == k)) [
  | inl same ↦
      let gone = get-Above k es (subst (λ x. Above x es) ((eq_iff i k).0 same) s.0) in
      rw same (ground (arith, same, gone, eq_iff i k, eq_iff k j, eq_iff i j))
  | inr other ↦ rw other (ground (arith, get-delete k j es s.1, eq_iff i k, eq_iff i j, eq_iff k j))
]

pub put-IsKeyed : (e : TrustEntry) (es : Entries) → IsKeyed es → IsKeyed (put e.pubkey e es)
unfolding put
put-IsKeyed e [] h = (refl, tt)
put-IsKeyed e ((j, d) ∷ es) h = ground (arith, put-IsKeyed e es h.1)
