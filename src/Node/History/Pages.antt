-- ===== src/Node/History/Pages.antt =====
-- `list` of node/src/history.rs.
use lmao.Prelude.{
  ℕ, zero, suc, ◌+◌, ◌≤◌, ◌≡◌, ◌↔◌, refl, sym, subst, ap, ◌∙◌, true, false, none, some, List, [],
  ◌∷◌, ◌++◌, take, drop, length, All, All-mono, Member, leb, ◌⊎◌, inl, inr, Bool-cases, arith,
}
use lmao.Prelude.Keyed.{some_inj, none_not_some}
use lmao.Node.History.{
  HistoryEntry, HistoryFilter, Lines, passes, read_entries, insert_newest, newest_first, list,
}

true_not_false : true ≡ false → ⊥
true_not_false h = cc h

abbrev nothing : List HistoryEntry
nothing = []

-- No entry is newer than one before it.
abbrev pub NewestFirst : List HistoryEntry → Type 0
NewestFirst [] = Unit
NewestFirst (e ∷ es) = All (λ x. x.created_at_ms ≤ e.created_at_ms) es × NewestFirst es

All-insert_newest :
    (P : HistoryEntry → Type 0) (e : HistoryEntry) (es : List HistoryEntry)
    → P e
    → All P es
    → All P (insert_newest e es)
unfolding insert_newest
All-insert_newest P e [] h hs = (h, tt)
All-insert_newest P e (x ∷ xs) h hs = elim (Bool-cases (leb x.created_at_ms e.created_at_ms)) [
  | inl before ↦ rw before (h, hs)
  | inr after ↦ rw after (hs.0, All-insert_newest P e xs h hs.1)
]

insert_newest-NewestFirst :
    (e : HistoryEntry) (es : List HistoryEntry) → NewestFirst es → NewestFirst (insert_newest e es)
unfolding insert_newest
insert_newest-NewestFirst e [] r = (tt, tt)
insert_newest-NewestFirst e (x ∷ xs) r = elim (Bool-cases (leb x.created_at_ms e.created_at_ms)) [
  | inl before ↦
      let above : x.created_at_ms ≤ e.created_at_ms = ground (arith, before) in
      rw before ((above, All-mono (λ z h. omega (arith, above, h)) xs r.0), r)
  | inr after ↦
      rw after
        (All-insert_newest _ e xs (ground (arith, after)) r.0, insert_newest-NewestFirst e xs r.1)
]

newest_first-NewestFirst : (es : List HistoryEntry) → NewestFirst (newest_first es)
unfolding newest_first
newest_first-NewestFirst [] = tt
newest_first-NewestFirst (e ∷ es) =
    insert_newest-NewestFirst e (newest_first es) (newest_first-NewestFirst es)

Member-insert_newest :
    (z e : HistoryEntry) (es : List HistoryEntry)
    → Member z (insert_newest e es) ↔ ((z ≡ e) ⊎ Member z es)
unfolding insert_newest
Member-insert_newest z e [] = (λ m. m, λ m. m)
Member-insert_newest z e (x ∷ xs) = elim (Bool-cases (leb x.created_at_ms e.created_at_ms)) [
  | inl before ↦ rw before (λ m. m, λ m. m)
  | inr after ↦
      let (a, b) = Member-insert_newest z e xs in
      rw after (
        λ m. elim m [
          | inl h ↦ inr (inl h)
          | inr m' ↦ elim (a m') [ inl h ↦ inl h | inr h ↦ inr (inr h) ]
        ],
        λ m. elim m [
          | inl h ↦ inr (b (inl h))
          | inr m' ↦ elim m' [ inl h ↦ inl h | inr h ↦ inr (b (inr h)) ]
        ],
      )
]

Member-newest_first :
    (z : HistoryEntry) (es : List HistoryEntry) → Member z (newest_first es) ↔ Member z es
unfolding newest_first
Member-newest_first z [] = (λ m. m, λ m. m)
Member-newest_first z (e ∷ es) =
    let (a, b) = Member-insert_newest z e (newest_first es) in
    let (c, d) = Member-newest_first z es in
    (
      λ m. elim (a m) [ inl h ↦ inl h | inr h ↦ inr (c h) ],
      λ m. elim m [ inl h ↦ b (inl h) | inr h ↦ b (inr (d h)) ],
    )

Member-read_entries :
    (z : HistoryEntry) (f : HistoryFilter) (log : Lines)
    → Member z (read_entries f log) ↔ (Member (some z) log × (passes f z ≡ true))
unfolding read_entries
Member-read_entries z f [] = (λ m. absurd m, λ m. absurd m.0)
Member-read_entries z f (none ∷ lines) =
    let (a, b) = Member-read_entries z f lines in
    (
      λ m. let (x, y) = a m in (inr x, y),
      λ m. elim m.0 [ inl h ↦ absurd (none_not_some z (sym h)) | inr x ↦ b (x, m.1) ],
    )
Member-read_entries z f (some e ∷ lines) =
    let (a, b) = Member-read_entries z f lines in
    elim (Bool-cases (passes f e)) [
      | inl shown ↦ rw shown (
        λ m. elim m [
          | inl h ↦ (inl (ap some h), ap (passes f) h ∙ shown)
          | inr m' ↦ let (x, y) = a m' in (inr x, y)
        ],
        λ m. elim m.0 [ inl h ↦ inl (some_inj z e h) | inr x ↦ inr (b (x, m.1)) ],
      )
      | inr hidden ↦ rw hidden (
        λ m. let (x, y) = a m in (inr x, y),
        λ m. elim m.0 [
          | inl h ↦ absurd (true_not_false (sym m.1 ∙ ap (passes f) (some_inj z e h) ∙ hidden))
          | inr x ↦ b (x, m.1)
        ],
      )
    ]

All-take :
    (P : HistoryEntry → Type 0) (n : ℕ) (es : List HistoryEntry) → All P es → All P (take n es)
All-take P zero es h = tt
All-take P (suc n) [] h = tt
All-take P (suc n) (e ∷ es) h = (h.0, All-take P n es h.1)

take-NewestFirst : (n : ℕ) (es : List HistoryEntry) → NewestFirst es → NewestFirst (take n es)
take-NewestFirst zero es h = tt
take-NewestFirst (suc n) [] h = tt
take-NewestFirst (suc n) (e ∷ es) h = (All-take _ n es h.0, take-NewestFirst n es h.1)

drop-NewestFirst : (n : ℕ) (es : List HistoryEntry) → NewestFirst es → NewestFirst (drop n es)
drop-NewestFirst zero es h = h
drop-NewestFirst (suc n) [] h = tt
drop-NewestFirst (suc n) (e ∷ es) h = drop-NewestFirst n es h.1

Member-take :
    (z : HistoryEntry) (n : ℕ) (es : List HistoryEntry) → Member z (take n es) → Member z es
Member-take z zero es m = absurd m
Member-take z (suc n) [] m = absurd m
Member-take z (suc n) (e ∷ es) (inl h) = inl h
Member-take z (suc n) (e ∷ es) (inr m) = inr (Member-take z n es m)

Member-drop :
    (z : HistoryEntry) (n : ℕ) (es : List HistoryEntry) → Member z (drop n es) → Member z es
Member-drop z zero es m = m
Member-drop z (suc n) [] m = absurd m
Member-drop z (suc n) (e ∷ es) m = inr (Member-drop z n es m)

take_nil : (n : ℕ) → take n nothing ≡ nothing
take_nil zero = refl
take_nil (suc n) = refl

drop_nil : (n : ℕ) → drop n nothing ≡ nothing
drop_nil zero = refl
drop_nil (suc n) = refl

take_all : (n : ℕ) (es : List HistoryEntry) → length es ≤ n → take n es ≡ es
take_all zero [] h = refl
take_all zero (e ∷ es) h = absurd (omega arith)
take_all (suc n) [] h = refl
take_all (suc n) (e ∷ es) h = ap (◌∷◌ e) (take_all n es (omega arith))

length-insert_newest :
    (e : HistoryEntry) (es : List HistoryEntry) → length (insert_newest e es) ≡ suc (length es)
unfolding insert_newest
length-insert_newest e [] = refl
length-insert_newest e (x ∷ xs) = ground (arith, length-insert_newest e xs)

length-newest_first : (es : List HistoryEntry) → length (newest_first es) ≡ length es
unfolding newest_first
length-newest_first [] = refl
length-newest_first (e ∷ es) =
    length-insert_newest e (newest_first es) ∙ ap suc (length-newest_first es)

length-read_entries-le :
    (f : HistoryFilter) (log : Lines) → length (read_entries f log) ≤ length log
unfolding read_entries
length-read_entries-le f [] = omega arith
length-read_entries-le f (none ∷ lines) = omega (arith, length-read_entries-le f lines)
length-read_entries-le f (some e ∷ lines) = ground (arith, length-read_entries-le f lines)

take-add : (n m : ℕ) (es : List HistoryEntry) → take n es ++ take m (drop n es) ≡ take (n + m) es
take-add zero m es = let e : zero + m ≡ m = omega arith in rw e refl
take-add (suc n) m [] = take_nil m ∙ sym (take_nil (suc n + m))
take-add (suc n) m (e ∷ es) =
    let h : suc n + m ≡ suc (n + m) = omega arith in rw h (ap (◌∷◌ e) (take-add n m es))

drop-add : (n m : ℕ) (es : List HistoryEntry) → drop m (drop n es) ≡ drop (n + m) es
drop-add zero m es = let e : zero + m ≡ m = omega arith in rw e refl
drop-add (suc n) m [] = drop_nil m ∙ sym (drop_nil (suc n + m))
drop-add (suc n) m (e ∷ es) =
    let h : suc n + m ≡ suc (n + m) = omega arith in rw h (drop-add n m es)

-- A page of the log is newest first, of entries that were logged and pass the filter; the page after
-- it continues it, so that both are what a page of their joint length would be; and a page from the
-- start that is as long as the log has every entry that passes.
pub list_pages :
    (limit more offset : ℕ) (f : HistoryFilter) (log : Lines)
    → NewestFirst (list limit offset f log)
      × ((z : HistoryEntry)
          → Member z (list limit offset f log)
          → Member (some z) log × (passes f z ≡ true))
      × (list limit offset f log ++ list more (offset + limit) f log
          ≡ list (limit + more) offset f log)
      × ((z : HistoryEntry)
          → Member z (list (length log) 0 f log) ↔ (Member (some z) log × (passes f z ≡ true)))
unfolding list
list_pages limit more offset f log =
    let es = newest_first (read_entries f log) in
    (
      take-NewestFirst limit (drop offset es)
          (drop-NewestFirst offset es (newest_first-NewestFirst (read_entries f log))),
      λ z m. (Member-read_entries z f log).0 (
          (Member-newest_first z (read_entries f log)).0
            (Member-drop z offset es (Member-take z limit (drop offset es) m))),
      ap (λ (x : List HistoryEntry). take limit (drop offset es) ++ take more x)
            (sym (drop-add offset limit es))
          ∙ take-add limit more (drop offset es),
      λ z.
          let all : list (length log) 0 f log ≡ es = take_all (length log) es (
            omega
              (arith, length-newest_first (read_entries f log), length-read_entries-le f log)) in
          let (a, b) = Member-newest_first z (read_entries f log) in
          let (c, d) = Member-read_entries z f log in
          (λ m. c (a (subst (Member z) all m)), λ m. subst (Member z) (sym all) (b (d m))),
    )
