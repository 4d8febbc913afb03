-- ===== src/Node/Streaming/Order.antt =====
-- The chunk buffer of node/src/streaming.rs: strictly rising numbers, and which chunk is kept of a
-- number that comes twice.
use mathlib.Core.List.{append-nil, append_assoc}
use lmao.Prelude.{
  ℕ, ◌<◌, ◌≡◌, ◌≢◌, refl, ap, sym, ◌∙◌, Bool, true, false, some, [], ◌∷◌, ◌++◌, any, find, All,
  arith, inl, inr, Bool-cases, eqb, leb, if◌then◌else◌, sort_by_key, insert_by_key,
  All-insert_by_key, All-mono,
}
use lmao.Task.{TaskStreamChunk}
use lmao.Node.Streaming.{Chunks, absorb, merge_chunks}

abbrev pub at : ℕ → TaskStreamChunk → Bool
at i c = eqb c.chunk_index i

abbrev pub number : TaskStreamChunk → ℕ
number c = c.chunk_index

abbrev pub StrictlyRising : Chunks → Type 0
StrictlyRising [] = Unit
StrictlyRising (c ∷ cs) = All (λ d. c.chunk_index < d.chunk_index) cs × StrictlyRising cs

abbrev pub Distinct : Chunks → Type 0
Distinct [] = Unit
Distinct (c ∷ cs) = All (λ d. c.chunk_index ≢ d.chunk_index) cs × Distinct cs

find-append_taken :
    (i : ℕ) (c : TaskStreamChunk) (entry rest : Chunks)
    → any (at c.chunk_index) entry ≡ true
    → find (at i) (entry ++ c ∷ rest) ≡ find (at i) (entry ++ rest)
find-append_taken i c [] rest h = ground (arith, h)
find-append_taken i c (d ∷ ds) rest h = elim (Bool-cases (at i d)) [
  | inl hit ↦ rw hit refl
  | inr miss ↦ elim (Bool-cases (at c.chunk_index d)) [
    | inl same ↦
        let other : at i c ≡ false = ground (arith, same, miss) in
        rw miss (find-append_other i c ds rest other)
    | inr differs ↦ rw miss (find-append_taken i c ds rest (ground (arith, h, differs)))
  ]
]
  where
    find-append_other :
        (i : ℕ) (c : TaskStreamChunk) (entry rest : Chunks)
        → at i c ≡ false
        → find (at i) (entry ++ c ∷ rest) ≡ find (at i) (entry ++ rest)
    find-append_other i c [] rest h = rw h refl
    find-append_other i c (d ∷ ds) rest h = elim (Bool-cases (at i d)) [
      | inl hit ↦ rw hit refl
      | inr miss ↦ rw miss (find-append_other i c ds rest h)
    ]

-- Of each number the first chunk is kept.
find-absorb :
    (i : ℕ) (entry new : Chunks) → find (at i) (absorb entry new) ≡ find (at i) (entry ++ new)
unfolding absorb
find-absorb i entry [] = ap (find (at i)) (sym (append-nil entry))
find-absorb i entry (c ∷ new) = elim (Bool-cases (any (at c.chunk_index) entry)) [
  | inl taken ↦ rw taken (find-absorb i entry new ∙ sym (find-append_taken i c entry new taken))
  | inr new_number ↦
      rw new_number
        (find-absorb i (entry ++ c ∷ []) new ∙ ap (find (at i)) (append_assoc entry (c ∷ []) new))
]

find-insert_by_key :
    (i : ℕ) (c : TaskStreamChunk) (cs : Chunks)
    → find (at i) (insert_by_key number c cs) ≡ (if at i c then some c else find (at i) cs)
unfolding insert_by_key
find-insert_by_key i c [] = refl
find-insert_by_key i c (d ∷ ds) = ground (arith, find-insert_by_key i c ds)

find-sort_by_key : (i : ℕ) (cs : Chunks) → find (at i) (sort_by_key number cs) ≡ find (at i) cs
unfolding sort_by_key
find-sort_by_key i [] = refl
find-sort_by_key i (c ∷ cs) =
    find-insert_by_key i c (sort_by_key number cs)
    ∙ ap (λ o. if at i c then some c else o) (find-sort_by_key i cs)

-- What a poll finds under a number is what the buffer held, or else the first new chunk with it.
pub find-merge_chunks :
    (i : ℕ) (entry new : Chunks) → find (at i) (merge_chunks entry new) ≡ find (at i) (entry ++ new)
unfolding merge_chunks
find-merge_chunks i entry new = find-sort_by_key i (absorb entry new) ∙ find-absorb i entry new

All-append_one :
    (P : TaskStreamChunk → Type 0) (cs : Chunks) (c : TaskStreamChunk)
    → All P cs
    → P c
    → All P (cs ++ c ∷ [])
All-append_one P [] c hs h = (h, tt)
All-append_one P (d ∷ ds) c hs h = (hs.0, All-append_one P ds c hs.1 h)

Distinct-append_one :
    (cs : Chunks) (c : TaskStreamChunk)
    → any (at c.chunk_index) cs ≡ false
    → Distinct cs
    → Distinct (cs ++ c ∷ [])
Distinct-append_one [] c h d = (tt, tt)
Distinct-append_one (x ∷ xs) c h (d, ds) =
    let here : x.chunk_index ≢ c.chunk_index = ground (arith, h) in
    (All-append_one _ xs c d here, Distinct-append_one xs c (ground (arith, h)) ds)

Distinct-absorb : (entry new : Chunks) → Distinct entry → Distinct (absorb entry new)
unfolding absorb
Distinct-absorb entry [] d = d
Distinct-absorb entry (c ∷ new) d = elim (Bool-cases (any (at c.chunk_index) entry)) [
  | inl taken ↦ rw taken (Distinct-absorb entry new d)
  | inr new_number ↦
      rw new_number
        (Distinct-absorb (entry ++ c ∷ []) new (Distinct-append_one entry c new_number d))
]

All-sort_by_key :
    (P : TaskStreamChunk → Type 0) (cs : Chunks) → All P cs → All P (sort_by_key number cs)
unfolding sort_by_key
All-sort_by_key P [] h = tt
All-sort_by_key P (c ∷ cs) (h, hs) =
    All-insert_by_key P number c (sort_by_key number cs) h (All-sort_by_key P cs hs)

StrictlyRising-insert :
    (c : TaskStreamChunk) (cs : Chunks)
    → All (λ d. c.chunk_index ≢ d.chunk_index) cs
    → StrictlyRising cs
    → StrictlyRising (insert_by_key number c cs)
unfolding insert_by_key
StrictlyRising-insert c [] h r = (tt, tt)
StrictlyRising-insert c (d ∷ ds) (h, hs) (r, rs) =
    elim (Bool-cases (leb c.chunk_index d.chunk_index)) [
      | inl before ↦
          let below : c.chunk_index < d.chunk_index = ground (arith, before, h) in
          rw before ((below, All-mono (λ e g. omega (arith, below, g)) ds r), (r, rs))
      | inr after ↦ rw after (
        All-insert_by_key _ number c ds (ground (arith, after)) r,
        StrictlyRising-insert c ds hs rs,
      )
    ]

StrictlyRising-sort : (cs : Chunks) → Distinct cs → StrictlyRising (sort_by_key number cs)
unfolding sort_by_key
StrictlyRising-sort [] d = tt
StrictlyRising-sort (c ∷ cs) (d, ds) =
    StrictlyRising-insert c (sort_by_key number cs) (All-sort_by_key _ cs d)
      (StrictlyRising-sort cs ds)

pub StrictlyRising-Distinct : (cs : Chunks) → StrictlyRising cs → Distinct cs
StrictlyRising-Distinct [] r = tt
StrictlyRising-Distinct (c ∷ cs) (r, rs) =
    (All-mono (λ d h. λ e. omega (arith, h, e)) cs r, StrictlyRising-Distinct cs rs)

-- A poll keeps a buffer whose numbers strictly rise in that order, so no number stands in it
-- twice.
pub merge_chunks-StrictlyRising :
    (entry new : Chunks) → StrictlyRising entry → StrictlyRising (merge_chunks entry new)
unfolding merge_chunks
merge_chunks-StrictlyRising entry new r =
    StrictlyRising-sort (absorb entry new)
      (Distinct-absorb entry new (StrictlyRising-Distinct entry r))
