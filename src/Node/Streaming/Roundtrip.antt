-- ===== src/Node/Streaming/Roundtrip.antt =====
-- A stream of node/src/streaming.rs that has arrived whole, in any order and with repetitions, is
-- put together as it was sent.
use lmao.Prelude.{
  ℕ, ◌+◌, ◌%◌, ◌^◌, ◌<◌, ◌≤◌, ◌≡◌, refl, ap, sym, subst, ◌∙◌, String, true, false, none, some, List,
  [], ◌∷◌, ◌++◌, map, any, find, length, All, arith, inl, inr, Bool-cases, if◌then◌else◌,
}
use lmao.Task.{TaskStreamChunk}
use lmao.Node.Streaming.{Chunks, chunks_from, chunks_of, merge_chunks, join, reassemble}
use lmao.Node.Streaming.Order.{at, StrictlyRising, find-merge_chunks, merge_chunks-StrictlyRising}

find_above :
    (k i : ℕ) (c : TaskStreamChunk) (cs : Chunks)
    → All (λ d. k < d.chunk_index) cs
    → find (at i) cs ≡ some c
    → k < i
find_above k i c [] h e = ground (arith, e)
find_above k i c (d ∷ ds) (h, hs) e = elim (Bool-cases (at i d)) [
  | inl hit ↦ ground (arith, h, hit)
  | inr miss ↦
      find_above k i c ds hs (subst (λ b. (if b then some d else find (at i) ds) ≡ some c) miss e)
]

find-at_or_below :
    (k i : ℕ) (cs : Chunks) → i ≤ k → All (λ d. k < d.chunk_index) cs → find (at i) cs ≡ none
find-at_or_below k i [] le h = refl
find-at_or_below k i (d ∷ ds) le (h, hs) =
    let miss : at i d ≡ false = ground (arith, h, le) in rw miss (find-at_or_below k i ds le hs)

at_self : (c : TaskStreamChunk) → at c.chunk_index c ≡ true
at_self c = ground arith

some_inj : {c d : TaskStreamChunk} → some c ≡ some d → c ≡ d
some_inj e = cc e

none_not_some : {c : TaskStreamChunk} → none ≡ some c → ⊥
none_not_some e = cc e

find_head : (c : TaskStreamChunk) (cs : Chunks) → find (at c.chunk_index) (c ∷ cs) ≡ some c
find_head c cs = rw (at_self c) refl

same_head :
    (c d : TaskStreamChunk) (cs ds : Chunks)
    → StrictlyRising (c ∷ cs)
    → StrictlyRising (d ∷ ds)
    → ((i : ℕ) → find (at i) (c ∷ cs) ≡ find (at i) (d ∷ ds))
    → c ≡ d
same_head c d cs ds (c_below, _) (d_below, _) same =
    let c_found = sym (same c.chunk_index) ∙ find_head c cs in
    let d_found = same d.chunk_index ∙ find_head d ds in
    elim (Bool-cases (at c.chunk_index d)) [
      | inl hit ↦ some_inj (
          sym
            (subst (λ b. (if b then some d else find (at c.chunk_index) ds) ≡ some c) hit c_found))
      | inr miss ↦
          let miss' : at d.chunk_index c ≡ false = ground (arith, miss) in
          let c_above = find_above d.chunk_index c.chunk_index c ds d_below (
            subst (λ b. (if b then some d else find (at c.chunk_index) ds) ≡ some c) miss
              c_found) in
          let d_above = find_above c.chunk_index d.chunk_index d cs c_below (
            subst (λ b. (if b then some c else find (at d.chunk_index) cs) ≡ some d) miss'
              d_found) in
          absurd (omega (arith, c_above, d_above))
    ]

same_tail :
    (c : TaskStreamChunk) (cs ds : Chunks)
    → All (λ e. c.chunk_index < e.chunk_index) cs
    → All (λ e. c.chunk_index < e.chunk_index) ds
    → (i : ℕ) → find (at i) (c ∷ cs) ≡ find (at i) (c ∷ ds)
    → find (at i) cs ≡ find (at i) ds
same_tail c cs ds c_below d_below i same = elim (Bool-cases (at i c)) [
  | inl hit ↦
      let le : i ≤ c.chunk_index = ground (arith, hit) in
      find-at_or_below c.chunk_index i cs le c_below
      ∙ sym (find-at_or_below c.chunk_index i ds le d_below)
  | inr miss ↦
      subst (λ b. (if b then some c else find (at i) cs) ≡ (if b then some c else find (at i) ds))
        miss same
]

-- Two buffers that find the same chunk under every number are equal.
rising_ext :
    (cs ds : Chunks)
    → StrictlyRising cs
    → StrictlyRising ds
    → ((i : ℕ) → find (at i) cs ≡ find (at i) ds)
    → cs ≡ ds
rising_ext [] [] r s same = refl
rising_ext [] (d ∷ ds) r s same = absurd (none_not_some (same d.chunk_index ∙ find_head d ds))
rising_ext (c ∷ cs) [] r s same = absurd (none_not_some (sym (same c.chunk_index) ∙ find_head c cs))
rising_ext (c ∷ cs) (d ∷ ds) r s same =
    let head = same_head c d cs ds r s same in
    let s' = subst (λ x. StrictlyRising (x ∷ ds)) (sym head) s in
    let same' : (i : ℕ) → find (at i) (c ∷ cs) ≡ find (at i) (c ∷ ds) =
      subst (λ x. (i : ℕ) → find (at i) (c ∷ cs) ≡ find (at i) (x ∷ ds)) (sym head) same in
    cc (head, rising_ext cs ds r.1 s'.1 (λ i. same_tail c cs ds r.0 s'.0 i (same' i)))

numbers_from :
    (task_id : String) (k i total : ℕ) (texts : List String)
    → k < i
    → i + length texts < 2 ^ 32
    → All (λ d. k < d.chunk_index) (chunks_from task_id i total texts)
unfolding chunks_from
numbers_from task_id k i total [] h fits = tt
numbers_from task_id k i total (text ∷ texts) h fits = (
  omega (arith, h, fits),
  numbers_from task_id k (i + 1) total texts (omega (arith, h)) (omega (arith, fits)),
)

chunks_from-StrictlyRising :
    (task_id : String) (i total : ℕ) (texts : List String)
    → i + length texts < 2 ^ 32
    → StrictlyRising (chunks_from task_id i total texts)
unfolding chunks_from
chunks_from-StrictlyRising task_id i total [] fits = tt
chunks_from-StrictlyRising task_id i total (text ∷ texts) fits = (
  numbers_from task_id (i % 2 ^ 32) (i + 1) total texts (omega (arith, fits)) (omega (arith, fits)),
  chunks_from-StrictlyRising task_id (i + 1) total texts (omega (arith, fits)),
)

texts-chunks_from :
    (task_id : String) (i total : ℕ) (texts : List String)
    → map (λ c. c.text) (chunks_from task_id i total texts) ≡ texts
unfolding chunks_from
texts-chunks_from task_id i total [] = refl
texts-chunks_from task_id i total (text ∷ texts) =
    ap (λ rest. text ∷ rest) (texts-chunks_from task_id (i + 1) total texts)

last_is_final :
    (task_id : String) (i total : ℕ) (texts : List String)
    → 0 < length texts
    → i + length texts ≡ total
    → any (λ c. c.is_final) (chunks_from task_id i total texts) ≡ true
unfolding chunks_from
last_is_final task_id i total [] pos sum = absurd (omega arith)
last_is_final task_id i total (text ∷ []) pos sum = ground (arith, sum)
last_is_final task_id i total (text ∷ (t ∷ texts)) pos sum =
    ground
      (arith, last_is_final task_id (i + 1) total (t ∷ texts) (omega arith) (omega (arith, sum)))

reassemble-chunks_of :
    (task_id : String) (texts : List String)
    → 0 < length texts
    → reassemble (chunks_of task_id texts) ≡ some (join texts)
unfolding reassemble chunks_from
reassemble-chunks_of task_id [] pos = absurd (omega arith)
reassemble-chunks_of task_id (text ∷ texts) pos =
    let final = last_is_final task_id 0 (length (text ∷ texts)) (text ∷ texts) pos (omega arith) in
    rw (final, reassemble)
      (ap (λ ts. some (join ts))
        (texts-chunks_from task_id 0 (length (text ∷ texts)) (text ∷ texts)))

-- If a buffer in rising order and what a poll brings contain, under each number, first the chunk
-- that was sent and no other number, then the buffer becomes the stream as it was sent and reads
-- as its text. The stream has a chunk, and fewer than 2^32.
pub stream_roundtrip :
    (task_id : String) (texts : List String) (entry new : Chunks)
    → 0 < length texts
    → length texts < 2 ^ 32
    → StrictlyRising entry
    → ((i : ℕ) → find (at i) (entry ++ new) ≡ find (at i) (chunks_of task_id texts))
    → (merge_chunks entry new ≡ chunks_of task_id texts)
      × (reassemble (merge_chunks entry new) ≡ some (join texts))
stream_roundtrip task_id texts entry new pos fits rising same =
    let whole =
      rising_ext (merge_chunks entry new) (chunks_of task_id texts)
        (merge_chunks-StrictlyRising entry new rising)
        (chunks_from-StrictlyRising task_id 0 (length texts) texts (omega (arith, fits)))
        (λ i. find-merge_chunks i entry new ∙ same i) in
    (whole, ap reassemble whole ∙ reassemble-chunks_of task_id texts pos)
