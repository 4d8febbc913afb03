-- ===== src/Trust/Lookup.antt =====
-- The map operations of core/src/trust.rs by what `get` finds afterwards.
use lmao.Prelude.{
  ℕ, ◌+◌, ◌≡◌, refl, sym, ap, subst, ◌∙◌, ◌⊎◌, String, true, false, Option, none, some, List, [],
  ◌∷◌, map, arith, ◌==◌, eq_iff, any, length, inl, inr, Bool-cases, if◌then◌else◌, find,
}
use lmao.Prelude.Result.{ok, err}
use lmao.Trust.{
  TrustEntry, Entries, TrustList, duplicate_pubkey, get, contains_key, put, is_trusted,
  is_trusted_for, remove, remove_by_nickname, add_unique, merge_loop, merge,
}
use lmao.Trust.Order.{IsKeyed, IsSorted, get-Above, get-delete}

none_not_some : (e : TrustEntry) → none ≡ some e → ⊥
none_not_some e h = cc

-- Whatever the order, an entry that is put is found under its key and no other key changes.
pub get-put :
    (k j : String) (e : TrustEntry) (es : Entries)
    → get j (put k e es) ≡ (if k == j then some e else get j es)
unfolding get put
get-put k j e [] = refl
get-put k j e ((i, d) ∷ es) = ground (arith, get-put k j e es, eq_iff i k, eq_iff i j, eq_iff k j)

-- Trust for a capability implies trust.
pub is_trusted_for-is_trusted :
    (pubkey capability : String) (l : TrustList)
    → is_trusted_for pubkey capability l ≡ true
    → is_trusted pubkey l ≡ true
unfolding is_trusted_for is_trusted
is_trusted_for-is_trusted pubkey capability l h = ground arith

-- A refused entry changes nothing; an accepted one is found, and no other key changes. It is
-- refused exactly when its key is taken.
add_unique-get :
    (e : TrustEntry) (l : TrustList) (j : String)
    → let (r, l') = add_unique e l in
      ((r ≡ ok tt)
        × (contains_key e.pubkey l.entries ≡ false)
        × (get j l'.entries ≡ (if e.pubkey == j then some e else get j l.entries))
        × (l'.mode ≡ l.mode))
      ⊎ ((r ≡ err (duplicate_pubkey e.pubkey))
          × (contains_key e.pubkey l.entries ≡ true)
          × (l' ≡ l))
unfolding add_unique
add_unique-get e l j = elim (Bool-cases (contains_key e.pubkey l.entries)) [
  | inl taken ↦ rw (taken, add_unique) (inr (refl, refl, refl))
  | inr free ↦ rw (free, add_unique) (inl (refl, refl, get-put e.pubkey j e l.entries, refl))
]

length-put :
    (k : String) (e : TrustEntry) (es : Entries)
    → contains_key k es ≡ false
    → length (put k e es) ≡ length es + 1
unfolding put get
length-put k e [] h = omega arith
length-put k e ((j, d) ∷ es) h = ground (arith, length-put k e es)

abbrev first : String → List TrustEntry → Option TrustEntry
first j = find (λ e. e.pubkey == j)

abbrev pub or_else {ℓ} : {A : Type ℓ} → Option A → Option A → Option A
or_else none b = b
or_else (some a) b = some a

merge_loop_known :
    (e : TrustEntry) (vs : List TrustEntry) (n : ℕ) (es : Entries)
    → contains_key e.pubkey es ≡ true
    → merge_loop (e ∷ vs) n es ≡ merge_loop vs n es
unfolding merge_loop
merge_loop_known e vs n es known = rw (known, merge_loop)

merge_loop_new :
    (e : TrustEntry) (vs : List TrustEntry) (n : ℕ) (es : Entries)
    → contains_key e.pubkey es ≡ false
    → merge_loop (e ∷ vs) n es ≡ merge_loop vs (n + 1) (put e.pubkey e es)
unfolding merge_loop
merge_loop_new e vs n es new = rw (new, merge_loop)

get-merge_loop :
    (j : String) (vs : List TrustEntry) (n : ℕ) (es : Entries)
    → get j (merge_loop vs n es).1 ≡ or_else (get j es) (first j vs)
unfolding merge_loop
get-merge_loop j [] n es = ground arith
get-merge_loop j (e ∷ vs) n es = elim (Bool-cases (contains_key e.pubkey es)) [
  | inl known ↦
      ap (λ r. get j r.1) (merge_loop_known e vs n es known)
      ∙ (get-merge_loop j vs n es ∙ ground (arith, known, eq_iff e.pubkey j))
  | inr new ↦
      ap (λ r. get j r.1) (merge_loop_new e vs n es new)
      ∙ (get-merge_loop j vs (n + 1) (put e.pubkey e es)
          ∙ ground (arith, new, get-put e.pubkey j e es, eq_iff e.pubkey j))
]

length-merge_loop :
    (vs : List TrustEntry) (n : ℕ) (es : Entries)
    → (merge_loop vs n es).0 + length es ≡ n + length (merge_loop vs n es).1
unfolding merge_loop
length-merge_loop [] n es = omega arith
length-merge_loop (e ∷ vs) n es = elim (Bool-cases (contains_key e.pubkey es)) [
  | inl known ↦
      subst (λ r. r.0 + length es ≡ n + length r.1) (sym (merge_loop_known e vs n es known))
        (length-merge_loop vs n es)
  | inr new ↦
      subst (λ r. r.0 + length es ≡ n + length r.1) (sym (merge_loop_new e vs n es new))
        (omega
          (arith, length-merge_loop vs (n + 1) (put e.pubkey e es), length-put e.pubkey e es new))
]

first-values : (j : String) (es : Entries) → IsKeyed es → first j (map (λ (k, e). e) es) ≡ get j es
unfolding get
first-values j [] h = refl
first-values j ((k, e) ∷ es) h = ground (arith, first-values j es h.1, h.0)

-- Merging keeps the mode and every entry that is there, takes from the other list exactly the
-- keys that are missing, and counts them. The other list's entries stand under their own keys.
merge-get :
    (other l : TrustList) (j : String)
    → IsKeyed other.entries
    → let (added, l') = merge other l in
      (get j l'.entries ≡ or_else (get j l.entries) (get j other.entries))
      × (length l'.entries ≡ length l.entries + added)
      × (l'.mode ≡ l.mode)
unfolding merge
merge-get other l j keyed = (
  get-merge_loop j (map (λ (k, e). e) other.entries) 0 l.entries
      ∙ ap (or_else (get j l.entries)) (first-values j other.entries keyed),
  omega (arith, length-merge_loop (map (λ (k, e). e) other.entries) 0 l.entries),
  refl,
)

abbrev pub NicknameRemoved : String → TrustList → Option TrustEntry × TrustList → Type 0
NicknameRemoved nickname l (r, l') =
    ((r ≡ none) × (l' ≡ l) × (any (λ x. x.1.nickname == nickname) l.entries ≡ false))
    ⊎ ((k : String) × (e : TrustEntry) × (r ≡ some e)
        × (e.nickname ≡ nickname)
        × ((j : String) → get j l'.entries ≡ (if k == j then none else get j l.entries)))

find-nickname :
    (nickname : String) (es : Entries)
    → IsSorted es
    → ((find (λ (k, e). e.nickname == nickname) es ≡ none)
        × (any (λ x. x.1.nickname == nickname) es ≡ false))
      ⊎ ((k : String) × (e : TrustEntry) × (find (λ (k, e). e.nickname == nickname) es
            ≡ some (k, e))
          × (e.nickname ≡ nickname)
          × (get k es ≡ some e))
unfolding get
find-nickname nickname [] s = inl (refl, refl)
find-nickname nickname ((k, e) ∷ es) s = elim (Bool-cases (e.nickname == nickname)) [
  | inl hit ↦ inr (k, e, rw hit, (eq_iff e.nickname nickname).0 hit, rw ((eq_iff k k).1 refl))
  | inr miss ↦ elim (find-nickname nickname es s.1) [
    | inl (found, none_has) ↦ inl (rw miss found, rw miss none_has)
    | inr (i, d, found, same, got) ↦ elim (Bool-cases (k == i)) [
      | inl clash ↦
          let gone = subst (λ x. get x es ≡ none) ((eq_iff k i).0 clash) (get-Above k es s.0) in
          absurd (none_not_some d (sym gone ∙ got))
      | inr other ↦ inr (i, d, rw miss found, same, rw other got)
    ]
  ]
]

-- Removing by nickname from sorted entries takes one entry that has the nickname, and its key
-- alone is gone; it takes none exactly when no entry has it.
remove_by_nickname-get :
    (nickname : String) (l : TrustList)
    → IsSorted l.entries
    → NicknameRemoved nickname l (remove_by_nickname nickname l)
unfolding remove_by_nickname remove
remove_by_nickname-get nickname l s = elim (find-nickname nickname l.entries s) [
  | inl (e, none_has) ↦ rw (e, remove_by_nickname) (inl (refl, refl, none_has))
  | inr (k, e, found, same, got) ↦
      rw (found, remove_by_nickname) (inr (k, e, got, same, λ j. get-delete k j l.entries s))
]
