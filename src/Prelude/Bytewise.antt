-- ===== src/Prelude/Bytewise.antt =====
-- The order of byte strings in Rust, and `sort_by` on it: stable, and blind to the order of entries
-- with different keys.
use Prim.Native.Nat.{ℕ}
use mathlib.Core.Path.{◌≡◌, refl, ap, ◌∙◌}
use mathlib.Core.Logic.{◌≢◌, inl, inr}
use mathlib.Core.Bool.{Bool, true, false}
use mathlib.Core.List.{List, [], ◌∷◌}
use native.Mathlib.Omega.{arith}
use native.Mathlib.Decide.{ℕ_discrete}
use lmao.Prelude.Tests.{ltb, eqb, if◌then◌else◌}
use lmao.Prelude.Sorting.{Member}

-- `cmp` is not `Greater`.
unfoldable pub bytes_le : List ℕ → List ℕ → Bool
bytes_le [] ys = true
bytes_le (x ∷ xs) [] = false
bytes_le (x ∷ xs) (y ∷ ys) =
    let rest = bytes_le xs ys in if ltb x y then true else if eqb x y then rest else false

bytes_le_total : (a b : List ℕ) → bytes_le a b ≡ false → bytes_le b a ≡ true
unfolding bytes_le
bytes_le_total [] b h = cc
bytes_le_total (x ∷ xs) [] h = refl
bytes_le_total (x ∷ xs) (y ∷ ys) h = ground (arith, bytes_le_total xs ys)

bytes_le_trans : (a b c : List ℕ) → bytes_le a b ≡ true → bytes_le b c ≡ true → bytes_le a c ≡ true
unfolding bytes_le
bytes_le_trans [] b c h g = refl
bytes_le_trans (x ∷ xs) [] c h g = cc
bytes_le_trans (x ∷ xs) (y ∷ ys) [] h g = cc
bytes_le_trans (x ∷ xs) (y ∷ ys) (z ∷ zs) h g = ground (arith, bytes_le_trans xs ys zs)

bytes_le_antisym : (a b : List ℕ) → bytes_le a b ≡ true → bytes_le b a ≡ true → a ≡ b
unfolding bytes_le
bytes_le_antisym [] [] h g = refl
bytes_le_antisym [] (y ∷ ys) h g = cc
bytes_le_antisym (x ∷ xs) [] h g = cc
bytes_le_antisym (x ∷ xs) (y ∷ ys) h g = ground (arith, bytes_le_antisym xs ys)

List-discrete : Discrete (List ℕ)
List-discrete = hlevel (ℕ_discrete)

module _ {A : Type 0} (key : A → List ℕ) where
  unfoldable pub insert_by_bytes : A → List A → List A
  insert_by_bytes x [] = x ∷ []
  insert_by_bytes x (y ∷ ys) =
      let rest = insert_by_bytes x ys in if bytes_le (key x) (key y) then x ∷ (y ∷ ys) else y ∷ rest

  unfoldable pub sort_by_bytes : List A → List A
  sort_by_bytes [] = []
  sort_by_bytes (x ∷ xs) = insert_by_bytes x (sort_by_bytes xs)

  insert_by_bytes_comm :
      (x y : A) (l : List A)
      → key x ≢ key y
      → insert_by_bytes x (insert_by_bytes y l) ≡ insert_by_bytes y (insert_by_bytes x l)
  unfolding insert_by_bytes
  insert_by_bytes_comm x y [] ne =
      ground (arith, ne, bytes_le_total (key x) (key y), bytes_le_antisym (key x) (key y))
  insert_by_bytes_comm x y (z ∷ zs) ne = ground (
    arith,
    ne,
    insert_by_bytes_comm x y zs ne,
    bytes_le_total (key x) (key y),
    bytes_le_antisym (key x) (key y),
    bytes_le_trans (key x) (key y) (key z),
    bytes_le_trans (key y) (key x) (key z),
  )

-- One list has the entries of the other in another order.
pub data Reordered {A : Type 0} : List A → List A → Type 0 where
  nil : Reordered [] []
  cons : (x : A) {xs ys : List A} → Reordered xs ys → Reordered (x ∷ xs) (x ∷ ys)
  swap : (x y : A) (xs : List A) → Reordered (x ∷ y ∷ xs) (y ∷ x ∷ xs)
  trans : {xs ys zs : List A} → Reordered xs ys → Reordered ys zs → Reordered xs zs

Member-Reordered :
    {A : Type 0} {xs ys : List A} (z : A) → Reordered xs ys → Member z ys → Member z xs
Member-Reordered z nil m = m
Member-Reordered z (cons x r) (inl e) = inl e
Member-Reordered z (cons x r) (inr m) = inr (Member-Reordered z r m)
Member-Reordered z (swap x y xs) (inl e) = inr (inl e)
Member-Reordered z (swap x y xs) (inr (inl e)) = inl e
Member-Reordered z (swap x y xs) (inr (inr m)) = inr (inr m)
Member-Reordered z (trans r s) m = Member-Reordered z r (Member-Reordered z s m)

module _ {A : Type 0} (key : A → List ℕ) where
  -- Entries with equal keys are equal.
  abbrev pub KeysApart : List A → Type 0
  KeysApart xs = (u v : A) → Member u xs → Member v xs → key u ≡ key v → u ≡ v

  insert_by_bytes_swap :
      (x y : A) (l : List A)
      → (key x ≡ key y → x ≡ y)
      → insert_by_bytes key x (insert_by_bytes key y l)
        ≡ insert_by_bytes key y (insert_by_bytes key x l)
  insert_by_bytes_swap x y l apart = elim (List-discrete (key x) (key y)) [
    | yes e ↦ rw (apart e) refl
    | no ne ↦ insert_by_bytes_comm key x y l ne
  ]

  pub sort_by_bytes-Reordered :
      {xs ys : List A}
      → Reordered xs ys
      → KeysApart xs
      → sort_by_bytes key xs ≡ sort_by_bytes key ys
  unfolding sort_by_bytes
  sort_by_bytes-Reordered nil apart = refl
  sort_by_bytes-Reordered (cons x r) apart =
      ap (insert_by_bytes key x) (sort_by_bytes-Reordered r (λ u v m n. apart u v (inr m) (inr n)))
  sort_by_bytes-Reordered (swap x y xs) apart =
      insert_by_bytes_swap x y (sort_by_bytes key xs) (apart x y (inl refl) (inr (inl refl)))
  sort_by_bytes-Reordered (trans r s) apart =
      sort_by_bytes-Reordered r apart
      ∙ sort_by_bytes-Reordered s
          (λ u v m n. apart u v (Member-Reordered u r m) (Member-Reordered v r n))
