-- ===== src/Transport/Memory/Publish.antt =====
-- One publish on the transport in memory of transport/src/memory.rs: what it does to a mailbox, to
-- the subscribers of each topic and to its history.
use lmao.Prelude.{
  ℕ, ◌+◌, ◌≡◌, ◌≢◌, refl, sym, ap, ◌∙◌, String, Bool, true, false, none, List, [], ◌∷◌, ◌++◌, eqb,
  ◌==◌, eq_iff, if◌then◌else◌, arith, Bool-cases, inl, inr, Option-cases,
}
use lmao.Prelude.Dict
use lmao.Prelude.Dict.{Dict, lookup-insert}
use lmao.Transport.Memory.{
  Bytes, Mailbox, TransportState, or_default, subscribers_of, history_of, can_take, try_send,
  set_mailbox, deliver, publish,
}

pub false_not_true : false ≡ true → ⊥
false_not_true h = cc h

-- How often a mailbox stands among subscribers.
abbrev pub times : ℕ → List ℕ → ℕ
times rx [] = 0
times rx (i ∷ is) = (if eqb i rx then 1 else 0) + times rx is

times-kept :
    (i rx : ℕ) (took : Bool) (is : List ℕ)
    → eqb i rx ≡ false
    → times rx (if took then i ∷ is else is) ≡ times rx is
times-kept i rx true is other = rw other (omega arith)
times-kept i rx false is other = refl

times-refused :
    (i rx : ℕ) (took : Bool) (is : List ℕ)
    → took ≡ false
    → times rx (if took then i ∷ is else is) ≡ times rx is
times-refused i rx true is c = absurd (false_not_true (sym c))
times-refused i rx false is c = refl

times-found :
    (i rx : ℕ) (took : Bool) (is : List ℕ)
    → eqb i rx ≡ true
    → took ≡ true
    → times rx is ≡ 0
    → times rx (if took then i ∷ is else is) ≡ 1
times-found i rx true is here c none_left = rw here (omega arith)
times-found i rx false is here c none_left = absurd (false_not_true c)

pub times-append_one :
    (i rx : ℕ) (is : List ℕ) → times rx (is ++ i ∷ []) ≡ times rx is + times rx (i ∷ [])
times-append_one i rx [] = omega arith
times-append_one i rx (j ∷ is) = omega (arith, times-append_one i rx is)

-- Who is not among the subscribers gets nothing.
pub deliver-others :
    (rx : ℕ) (subs : List ℕ) (msg : Bytes) (boxes : ℕ → Mailbox)
    → times rx subs ≡ 0
    → ((deliver subs msg boxes).1 rx ≡ boxes rx) × (times rx (deliver subs msg boxes).0 ≡ 0)
unfolding deliver
deliver-others rx [] msg boxes h = (refl, refl)
deliver-others rx (i ∷ is) msg boxes h =
    let other : eqb i rx ≡ false = ground (arith, h) in
    let boxes' = set_mailbox i (try_send msg (boxes i)) boxes in
    let (got, left) = deliver-others rx is msg boxes' (ground (arith, h, other)) in
    (
      got ∙ rw other refl,
      times-kept i rx (can_take (boxes i)) (deliver is msg boxes').0 other ∙ left,
    )

pub deliver-once :
    (rx : ℕ) (subs : List ℕ) (msg : Bytes) (boxes : ℕ → Mailbox)
    → times rx subs ≡ 1
    → can_take (boxes rx) ≡ true
    → ((deliver subs msg boxes).1 rx ≡ try_send msg (boxes rx))
      × (times rx (deliver subs msg boxes).0 ≡ 1)
unfolding deliver
deliver-once rx [] msg boxes h c = absurd (omega arith)
deliver-once rx (i ∷ is) msg boxes h c = elim (Bool-cases (eqb i rx)) [
  | inl here ↦
      let same : i ≡ rx = ground (arith, here) in
      let boxes' = set_mailbox i (try_send msg (boxes i)) boxes in
      let (got, left) = deliver-others rx is msg boxes' (ground (arith, h, here)) in
      (
        got ∙ rw here (ap (λ j. try_send msg (boxes j)) same),
        times-found i rx (can_take (boxes i)) (deliver is msg boxes').0 here
            (ap (λ j. can_take (boxes j)) same ∙ c) left,
      )
  | inr other ↦
      let boxes' = set_mailbox i (try_send msg (boxes i)) boxes in
      let unchanged : boxes' rx ≡ boxes rx = rw other refl in
      let (got, left) =
        deliver-once rx is msg boxes' (ground (arith, h, other)) (ap can_take unchanged ∙ c) in
      (
        got ∙ ap (try_send msg) unchanged,
        times-kept i rx (can_take (boxes i)) (deliver is msg boxes').0 other ∙ left,
      )
]

-- Who cannot take the message is among the subscribers no more.
pub deliver-refused :
    (rx : ℕ) (subs : List ℕ) (msg : Bytes) (boxes : ℕ → Mailbox)
    → can_take (boxes rx) ≡ false
    → ((deliver subs msg boxes).1 rx ≡ boxes rx) × (times rx (deliver subs msg boxes).0 ≡ 0)
unfolding deliver
deliver-refused rx [] msg boxes c = (refl, refl)
deliver-refused rx (i ∷ is) msg boxes c =
    let boxes' = set_mailbox i (try_send msg (boxes i)) boxes in
    elim (Bool-cases (eqb i rx)) [
      | inl here ↦
          let same : i ≡ rx = ground (arith, here) in
          let refused : can_take (boxes i) ≡ false = ap (λ j. can_take (boxes j)) same ∙ c in
          let unchanged : boxes' rx ≡ boxes rx = rw (here, refused) (ap boxes same) in
          let (got, left) = deliver-refused rx is msg boxes' (ap can_take unchanged ∙ c) in
          (
            got ∙ unchanged,
            times-refused i rx (can_take (boxes i)) (deliver is msg boxes').0 refused ∙ left,
          )
      | inr other ↦
          let unchanged : boxes' rx ≡ boxes rx = rw other refl in
          let (got, left) = deliver-refused rx is msg boxes' (ap can_take unchanged ∙ c) in
          (
            got ∙ unchanged,
            times-kept i rx (can_take (boxes i)) (deliver is msg boxes').0 other ∙ left,
          )
    ]

pub eq_self : (t : String) → t == t ≡ true
eq_self t = (eq_iff t t).1 refl

pub ne_apart : (a b : String) → a ≢ b → a == b ≡ false
ne_apart a b ne = elim (Bool-cases (a == b)) [
  | inl same ↦ absurd (ne ((eq_iff a b).0 same))
  | inr apart ↦ apart
]

pub entry-insert :
    {A : Type 0} (topic other : String) (xs : List A) (d : Dict (List A))
    → or_default (Dict.lookup other (Dict.insert topic xs d))
      ≡ (if topic == other then xs else or_default (Dict.lookup other d))
entry-insert topic other xs d = elim (Bool-cases (topic == other)) [
  | inl same ↦ rw (lookup-insert topic other xs d, same) refl
  | inr apart ↦ rw (lookup-insert topic other xs d, apart) refl
]

entry-same :
    {A : Type 0} (topic other : String) (d : Dict (List A))
    → Dict.lookup topic d ≡ none
    → or_default (Dict.lookup other d)
      ≡ (if topic == other then [] else or_default (Dict.lookup other d))
entry-same topic other d e = elim (Bool-cases (topic == other)) [
  | inl same ↦
      rw same (
        ap (λ t. or_default (Dict.lookup t d)) (sym ((eq_iff topic other).0 same))
        ∙ ap or_default e)
  | inr apart ↦ rw apart refl
]

module _ (topic other : String) (payload : Bytes) (s : TransportState) where
  -- What a publish leaves of each topic, whether it has subscribers or not.
  pub history-publish :
      history_of other (publish topic payload s).1
      ≡ (if topic == other then history_of topic s ++ payload ∷ [] else history_of other s)
  unfolding publish
  history-publish = elim (Option-cases (Dict.lookup topic s.subscribers)) [
    | inl e ↦
        rw (e, publish) (entry-insert topic other (history_of topic s ++ payload ∷ []) s.history)
    | inr (subs, e) ↦
        rw (e, publish) (entry-insert topic other (history_of topic s ++ payload ∷ []) s.history)
  ]

  pub subscribers-publish : subscribers_of other (publish topic payload s).1 ≡ (
      if topic == other
      then (deliver (subscribers_of topic s) payload s.mailboxes).0
      else subscribers_of other s)
  unfolding publish deliver
  subscribers-publish = elim (Option-cases (Dict.lookup topic s.subscribers)) [
    | inl e ↦ rw (e, publish) (entry-same topic other s.subscribers e)
    | inr (subs, e) ↦
        rw (e, publish)
          (entry-insert topic other (deliver subs payload s.mailboxes).0 s.subscribers)
  ]

  pub mailboxes-publish :
      (publish topic payload s).1.mailboxes
      ≡ (deliver (subscribers_of topic s) payload s.mailboxes).1
  unfolding publish deliver
  mailboxes-publish = elim (Option-cases (Dict.lookup topic s.subscribers)) [
    | inl e ↦ rw (e, publish) refl
    | inr (subs, e) ↦ rw (e, publish) refl
  ]
