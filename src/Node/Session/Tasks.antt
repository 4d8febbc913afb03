-- ===== src/Node/Session/Tasks.antt =====
-- The task ids of a session in node/src/session.rs: bounded, distinct, and the newest kept.
use lmao.Prelude.{
  ℕ, zero, suc, ◌+◌, ◌-◌, ◌≤◌, ◌≡◌, refl, String, true, false, ◌||◌, none, some, List, [], ◌∷◌,
  ◌++◌, any, drop, length, length-append, length-drop, arith, inl, inr, Bool-cases, ltb, ◌==◌,
  eq_iff,
}
use lmao.Prelude.Dict
use lmao.Prelude.Dict.{lookup-insert}
use lmao.Node.Session.{Session, Sessions, push_task, max_task_ids, track_task, note_sent, new}

abbrev pub Distinct : List String → Type 0
Distinct [] = Unit
Distinct (x ∷ xs) = (any (λ i. i == x) xs ≡ false) × Distinct xs

abbrev pub IsValid : Session → Type 0
IsValid s = (length s.task_ids ≤ max_task_ids) × Distinct s.task_ids

any-append_one :
    (x y : String) (xs : List String)
    → any (λ i. i == x) (xs ++ y ∷ []) ≡ (any (λ i. i == x) xs || (y == x))
any-append_one x y [] = ground arith
any-append_one x y (z ∷ zs) = ground (arith, any-append_one x y zs)

Distinct-append_one :
    (y : String) (xs : List String)
    → any (λ i. i == y) xs ≡ false
    → Distinct xs
    → Distinct (xs ++ y ∷ [])
Distinct-append_one y [] h d = (refl, tt)
Distinct-append_one y (x ∷ xs) h (d, ds) = (
  ground (arith, any-append_one x y xs, d, h, eq_iff x y, eq_iff y x),
  Distinct-append_one y xs (ground (arith, h)) ds,
)

Distinct-drop : (n : ℕ) (xs : List String) → Distinct xs → Distinct (drop n xs)
Distinct-drop zero xs d = d
Distinct-drop (suc n) [] d = d
Distinct-drop (suc n) (x ∷ xs) d = Distinct-drop n xs d.1

last_kept :
    (n : ℕ) (x : String) (xs : List String)
    → n ≤ length xs
    → any (λ i. i == x) (drop n (xs ++ x ∷ [])) ≡ true
last_kept zero x xs h = ground (arith, any-append_one x x xs, eq_iff x x)
last_kept (suc n) x [] h = absurd (omega arith)
last_kept (suc n) x (y ∷ ys) h = last_kept n x ys (omega arith)

-- Noting a task keeps a session's ids distinct and at most 64, with the task among them, and
-- refreshes the time it was seen; a task that is noted already moves nothing else.
push_task-IsValid :
    (now : ℕ) (task_id : String) (s : Session)
    → IsValid s
    → let s' = push_task now task_id s in
      IsValid s'
      × (any (λ i. i == task_id) s'.task_ids ≡ true)
      × (s'.last_seen ≡ now)
      × (any (λ i. i == task_id) s.task_ids ≡ true → s'.task_ids ≡ s.task_ids)
unfolding push_task
push_task-IsValid now task_id s (bound, distinct) =
    elim (Bool-cases (any (λ i. i == task_id) s.task_ids)) [
      | inl known ↦ rw known ((bound, distinct), known, refl, λ _. refl)
      | inr new_id ↦
          let longer = s.task_ids ++ task_id ∷ [] in
          let len : length longer ≡ length s.task_ids + 1 =
            omega (arith, length-append s.task_ids (task_id ∷ [])) in
          let d = Distinct-append_one task_id s.task_ids new_id distinct in
          elim (Bool-cases (ltb max_task_ids (length longer))) [
            | inl over ↦
                rw (new_id, over)
                  (
                    (
                      omega (arith, length-drop (length longer - max_task_ids) longer),
                      Distinct-drop (length longer - max_task_ids) longer d,
                    ),
                    last_kept (length longer - max_task_ids) task_id s.task_ids
                        (omega (arith, len, bound)),
                    refl,
                    λ h. cc,
                  )
            | inr room ↦
                rw (new_id, room)
                  (
                    (ground (arith, room), d),
                    last_kept 0 task_id s.task_ids (omega arith),
                    refl,
                    λ h. cc,
                  )
          ]
    ]

-- A task in an unknown session begins one whose own id is the fresh UUID and not the key that it
-- is kept under: asked for by its own id, it is not found. The UUID is no key, old or new.
track_task_lost :
    (uuid session_id from task_id : String) (now : ℕ) (s : Sessions)
    → Dict.lookup session_id s.sessions ≡ none
    → Dict.lookup uuid s.sessions ≡ none
    → (session_id == uuid) ≡ false
    → let s' = track_task uuid now session_id from task_id s in
      (session : Session) × (Dict.lookup session_id s'.sessions ≡ some session)
      × (session.id ≡ uuid)
      × (Dict.lookup session.id s'.sessions ≡ none)
unfolding track_task push_task
track_task_lost uuid session_id from task_id now s unknown fresh differs =
    let session = push_task now task_id (new uuid now from) in
    rw (unknown, track_task)
      (
        session,
        ground (
          arith,
          lookup-insert session_id session_id session s.sessions,
          eq_iff session_id session_id,
        ),
        refl,
        ground (arith, lookup-insert session_id uuid session s.sessions, differs, fresh),
      )

abbrev pub sent_all : List String → Session → Session
sent_all [] s = s
sent_all (id ∷ ids) s = sent_all ids (note_sent id s)

-- Tasks that are sent in a session are noted without the ceiling: `k` of them make it `k` longer,
-- and leave the time it was seen.
pub note_sent-length :
    (ids : List String) (s : Session)
    → (length (sent_all ids s).task_ids ≡ length s.task_ids + length ids)
      × ((sent_all ids s).last_seen ≡ s.last_seen)
note_sent-length [] s = (omega arith, refl)
note_sent-length (id ∷ ids) s =
    let ih = note_sent-length ids (note_sent id s) in
    (omega (arith, ih.0, length-append s.task_ids (id ∷ [])), ih.1)
