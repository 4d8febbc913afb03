-- ===== src/Prelude/Sorting.antt =====
-- `sort_by_key` as a stable insertion sort, and the first element of a sorted list that passes a test.
use Prim.Native.Nat.{ℕ, ◌≤◌}
use mathlib.Core.Path.{◌≡◌, refl, ap, subst}
use mathlib.Core.Logic.{◌⊎◌, inl, inr}
use mathlib.Core.Bool.{Bool, true, false}
use mathlib.Core.Option.{Option, none, some}
use mathlib.Core.List.{List, [], ◌∷◌}
use native.Mathlib.Omega.{arith}
use lmao.Prelude.Tests.{leb, if◌then◌else◌, Bool-cases}
use lmao.Prelude.Lists.{find, All}

module _ {A : Type 0} where
  abbrev pub Member : A → List A → Type 0
  Member x [] = ⊥
  Member x (y ∷ ys) = (x ≡ y) ⊎ Member x ys

  unfoldable pub insert_by_key : (A → ℕ) → A → List A → List A
  insert_by_key key x [] = x ∷ []
  insert_by_key key x (y ∷ ys) =
      let rest = insert_by_key key x ys in if leb (key x) (key y) then x ∷ (y ∷ ys) else y ∷ rest

  unfoldable pub sort_by_key : (A → ℕ) → List A → List A
  sort_by_key key [] = []
  sort_by_key key (x ∷ xs) = insert_by_key key x (sort_by_key key xs)

  -- No key is below an earlier one.
  abbrev pub Rising : (A → ℕ) → List A → Type 0
  Rising key [] = Unit
  Rising key (x ∷ xs) = All (λ y. key x ≤ key y) xs × Rising key xs

  pub All-mono : {P Q : A → Type 0} → ((x : A) → P x → Q x) → (xs : List A) → All P xs → All Q xs
  All-mono f [] h = tt
  All-mono f (x ∷ xs) h = (f x h.0, All-mono f xs h.1)

  pub All-insert_by_key :
      (P : A → Type 0) (key : A → ℕ) (x : A) (xs : List A)
      → P x
      → All P xs
      → All P (insert_by_key key x xs)
  unfolding insert_by_key
  All-insert_by_key P key x [] h hs = (h, tt)
  All-insert_by_key P key x (y ∷ ys) h hs = elim (Bool-cases (leb (key x) (key y))) [
    | inl before ↦ rw before (h, hs)
    | inr after ↦ rw after (hs.0, All-insert_by_key P key x ys h hs.1)
  ]

  All-insert_by_key_inv :
      (P : A → Type 0) (key : A → ℕ) (x : A) (xs : List A)
      → All P (insert_by_key key x xs)
      → P x × All P xs
  unfolding insert_by_key
  All-insert_by_key_inv P key x [] h = h
  All-insert_by_key_inv P key x (y ∷ ys) h = elim (Bool-cases (leb (key x) (key y))) [
    | inl before ↦
        subst (All P) (ap (λ b. if b then x ∷ (y ∷ ys) else y ∷ insert_by_key key x ys) before) h
    | inr after ↦
        let h' =
          subst (All P) (ap (λ b. if b then x ∷ (y ∷ ys) else y ∷ insert_by_key key x ys) after)
            h in
        let (hx, hs) = All-insert_by_key_inv P key x ys h'.1 in (hx, (h'.0, hs))
  ]

  pub All-sort_by_key_inv :
      (P : A → Type 0) (key : A → ℕ) (xs : List A) → All P (sort_by_key key xs) → All P xs
  unfolding sort_by_key
  All-sort_by_key_inv P key [] h = tt
  All-sort_by_key_inv P key (x ∷ xs) h =
      let (hx, hs) = All-insert_by_key_inv P key x (sort_by_key key xs) h in
      (hx, All-sort_by_key_inv P key xs hs)

  Rising-insert_by_key :
      (key : A → ℕ) (x : A) (xs : List A) → Rising key xs → Rising key (insert_by_key key x xs)
  unfolding insert_by_key
  Rising-insert_by_key key x [] r = (tt, tt)
  Rising-insert_by_key key x (y ∷ ys) r = elim (Bool-cases (leb (key x) (key y))) [
    | inl before ↦
        let below : key x ≤ key y = ground (arith, before) in
        rw before ((below, All-mono (λ z h. omega (arith, below, h)) ys r.0), r)
    | inr after ↦ rw after (
      All-insert_by_key _ key x ys (ground (arith, after)) r.0,
      Rising-insert_by_key key x ys r.1,
    )
  ]

  pub Rising-sort_by_key : (key : A → ℕ) (xs : List A) → Rising key (sort_by_key key xs)
  unfolding sort_by_key
  Rising-sort_by_key key [] = tt
  Rising-sort_by_key key (x ∷ xs) =
      Rising-insert_by_key key x (sort_by_key key xs) (Rising-sort_by_key key xs)

  Member-insert_by_key :
      (key : A → ℕ) (x z : A) (xs : List A)
      → Member z (insert_by_key key x xs)
      → (z ≡ x) ⊎ Member z xs
  unfolding insert_by_key
  Member-insert_by_key key x z [] m = m
  Member-insert_by_key key x z (y ∷ ys) m = elim (Bool-cases (leb (key x) (key y))) [
    | inl before ↦
        subst (Member z) (ap (λ b. if b then x ∷ (y ∷ ys) else y ∷ insert_by_key key x ys) before) m
    | inr after ↦
        elim (subst (Member z)
          (ap (λ b. if b then x ∷ (y ∷ ys) else y ∷ insert_by_key key x ys) after) m) [
            | inl here ↦ inr (inl here)
            | inr there ↦ elim (Member-insert_by_key key x z ys there) [
              | inl new ↦ inl new
              | inr old ↦ inr (inr old)
            ]
          ]
  ]

  pub Member-sort_by_key :
      (key : A → ℕ) (z : A) (xs : List A) → Member z (sort_by_key key xs) → Member z xs
  unfolding sort_by_key
  Member-sort_by_key key z [] m = m
  Member-sort_by_key key z (x ∷ xs) m = elim (Member-insert_by_key key x z (sort_by_key key xs) m) [
    | inl here ↦ inl here
    | inr there ↦ inr (Member-sort_by_key key z xs there)
  ]

  -- What `find` gives on a sorted list: nothing if no element passes, else one that passes with
  -- the least key.
  abbrev pub IsBest : (A → ℕ) → (A → Bool) → List A → Option A → Type 0
  IsBest key p xs none = All (λ x. p x ≡ false) xs
  IsBest key p xs (some x) = Member x xs × (p x ≡ true) × All (λ y. p y ≡ true → key x ≤ key y) xs

  find-IsBest-Rising :
      (key : A → ℕ) (p : A → Bool) (xs : List A) → Rising key xs → IsBest key p xs (find p xs)
  find-IsBest-Rising key p [] r = tt
  find-IsBest-Rising key p (x ∷ xs) r = elim (Bool-cases (p x)) [
    | inl passes ↦
        rw passes (inl refl, passes, (λ _. omega arith, All-mono (λ y below _. below) xs r.0))
    | inr fails ↦ rw fails (step key p x xs (find p xs) (find-IsBest-Rising key p xs r.1) fails)
  ]
    where
      step :
          (key : A → ℕ) (p : A → Bool) (x : A) (xs : List A) (o : Option A)
          → IsBest key p xs o
          → p x ≡ false
          → IsBest key p (x ∷ xs) o
      step key p x xs none h fails = (fails, h)
      step key p x xs (some y) (m, passes, least) fails = (inr m, passes, (λ t. cc, least))

  pub find-IsBest :
      (key : A → ℕ) (p : A → Bool) (xs : List A) → IsBest key p xs (find p (sort_by_key key xs))
  find-IsBest key p xs =
      unsorted key p xs (find p (sort_by_key key xs))
        (find-IsBest-Rising key p (sort_by_key key xs) (Rising-sort_by_key key xs))
    where
      unsorted :
          (key : A → ℕ) (p : A → Bool) (xs : List A) (o : Option A)
          → IsBest key p (sort_by_key key xs) o
          → IsBest key p xs o
      unsorted key p xs none h = All-sort_by_key_inv _ key xs h
      unsorted key p xs (some y) (m, passes, least) =
          (Member-sort_by_key key y xs m, passes, All-sort_by_key_inv _ key xs least)
