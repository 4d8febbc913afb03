-- ===== src/Transport/Memory/Delivery.antt =====
-- What a subscriber of the transport in memory of transport/src/memory.rs receives.
use lmao.Prelude.{
  ℕ, ◌+◌, ◌≤◌, ◌≡◌, refl, sym, subst, ap, ◌∙◌, String, true, false, List, [], ◌∷◌, ◌++◌, length,
  length-append, eqb, ltb, ◌==◌, eq_iff, if◌then◌else◌, arith, Bool-cases, inl, inr,
}
use mathlib.Core.List.{append-nil, append_assoc}
use lmao.Transport.Memory.Publish.{
  times, times-append_one, deliver-refused, eq_self, ne_apart, entry-insert, history-publish,
  subscribers-publish, mailboxes-publish,
}
use lmao.Transport.Memory.Calls.{IsFresh, Call, run_all, run_all-IsFresh, empty-IsFresh}
use lmao.Transport.Memory.{
  empty, Bytes, Mailbox, TransportState, capacity, subscribers_of, history_of, can_take,
  set_mailbox, publish, replay, subscribe,
}
use lmao.Transport.Memory.Received.{
  SeesAll, replay-unread, publish_here-SeesAll, publish_elsewhere-SeesAll,
}

-- The payloads of one topic.
abbrev pub payloads : String → List (String × Bytes) → List Bytes
payloads topic [] = []
payloads topic ((t, payload) ∷ ops) =
    if t == topic then payload ∷ payloads topic ops else payloads topic ops

unfoldable pub publish_all : List (String × Bytes) → TransportState → TransportState
publish_all [] s = s
publish_all ((t, payload) ∷ ops) s = publish_all ops (publish t payload s).1

once_more :
    (s : TransportState) (topic : String)
    → IsFresh s
    → times s.next (subscribers_of topic s ++ s.next ∷ []) ≡ 1
once_more s topic fresh =
    let self : eqb s.next s.next ≡ true = ground arith in
    let one : times s.next (s.next ∷ []) ≡ 1 = rw self (omega arith) in
    omega (
      arith,
      times-append_one s.next s.next (subscribers_of topic s),
      one,
      fresh topic s.next (omega arith),
    )

subscribe-SeesAll :
    (topic : String) (s : TransportState)
    → IsFresh s
    → length (history_of topic s) ≤ capacity
    → SeesAll s.next topic (subscribe topic s).1
unfolding subscribe
subscribe-SeesAll topic s fresh room =
    let rx = s.next in
    let self : eqb rx rx ≡ true = ground arith in
    let made : Mailbox = replay (history_of topic s) (record { unread = []; is_open = true }) in
    let (a, b) =
      replay-unread (history_of topic s) (record { unread = []; is_open = true }) refl
        (omega arith) in
    let box : set_mailbox rx made s.mailboxes rx ≡ made = rw self refl in
    let subs = subscribers_of topic s ++ rx ∷ [] in
    record {
      subscribed = record {
        once =
            ap (times rx) (entry-insert topic topic subs s.subscribers ∙ rw (eq_self topic) refl)
            ∙ once_more s topic fresh;
        nowhere_else = λ other ne.
            ap (times rx)
              (entry-insert topic other subs s.subscribers ∙ rw (ne_apart topic other ne) refl)
            ∙ fresh other rx (omega arith);
        is_open = ap (λ (m : Mailbox). m.is_open) box ∙ b;
      };
      unread = ap (λ (m : Mailbox). m.unread) box ∙ a;
    }

history-publish_cons :
    (topic t : String) (payload : Bytes) (ops : List (String × Bytes)) (s : TransportState)
    → history_of topic (publish t payload s).1 ++ payloads topic ops
      ≡ history_of topic s ++ payloads topic ((t, payload) ∷ ops)
history-publish_cons topic t payload ops s = elim (Bool-cases (t == topic)) [
  | inl same ↦
      let step : history_of topic (publish t payload s).1 ≡ history_of topic s ++ payload ∷ [] =
        history-publish t topic payload s
        ∙ rw same (ap (λ x. history_of x s ++ payload ∷ []) ((eq_iff t topic).0 same)) in
      rw (step, same) (append_assoc (history_of topic s) (payload ∷ []) (payloads topic ops))
  | inr apart ↦
      let step : history_of topic (publish t payload s).1 ≡ history_of topic s =
        history-publish t topic payload s ∙ rw apart refl in
      rw (step, apart) refl
]

history-publish_all :
    (topic : String) (ops : List (String × Bytes)) (s : TransportState)
    → history_of topic (publish_all ops s) ≡ history_of topic s ++ payloads topic ops
unfolding publish_all
history-publish_all topic [] s = sym (append-nil (history_of topic s))
history-publish_all topic ((t, payload) ∷ ops) s =
    history-publish_all topic ops (publish t payload s).1
    ∙ history-publish_cons topic t payload ops s

publish_all-SeesAll :
    (rx : ℕ) (topic : String) (ops : List (String × Bytes)) (s : TransportState)
    → SeesAll rx topic s
    → length (history_of topic s) + length (payloads topic ops) ≤ capacity
    → SeesAll rx topic (publish_all ops s)
unfolding publish_all
publish_all-SeesAll rx topic [] s sees room = sees
publish_all-SeesAll rx topic ((t, payload) ∷ ops) s sees room =
    let s' = (publish t payload s).1 in
    let sum : length (history_of topic s') + length (payloads topic ops)
        ≡ length (history_of topic s) + length (payloads topic ((t, payload) ∷ ops)) =
      sym (length-append (history_of topic s') (payloads topic ops))
      ∙ ap length (history-publish_cons topic t payload ops s)
      ∙ length-append (history_of topic s) (payloads topic ((t, payload) ∷ ops)) in
    let sees' : SeesAll rx topic s' = elim (Bool-cases (t == topic)) [
      | inl same ↦
          let e = (eq_iff t topic).0 same in
          subst (λ (x : String). SeesAll rx topic (publish x payload s).1) (sym e)
            (publish_here-SeesAll rx topic payload s sees (
              subst (λ (x : String). length (history_of topic (publish x payload s).1) ≤ capacity) e
                (omega (arith, sum))))
      | inr apart ↦ publish_elsewhere-SeesAll rx topic t payload s sees apart
    ] in
    publish_all-SeesAll rx topic ops s' sees' (omega (arith, sum))

-- Whatever was done with the transport before: who subscribes to a topic then and reads later finds
-- all the topic's messages unread, those published before it subscribed and those after, in their
-- order and each once, whatever is published to other topics meanwhile; as long as they are 1024 at
-- most.
pub subscriber_sees_all :
    (before : List Call) (topic : String) (ops : List (String × Bytes))
    → let s = run_all before empty in
      length (history_of topic s) + length (payloads topic ops) ≤ capacity
      → ((publish_all ops (subscribe topic s).1).mailboxes s.next).unread
        ≡ history_of topic s ++ payloads topic ops
unfolding subscribe
subscriber_sees_all before topic ops room =
    let s = run_all before empty in
    let fresh = run_all-IsFresh before empty empty-IsFresh in
    let started = subscribe-SeesAll topic s fresh (omega (arith, room)) in
    (publish_all-SeesAll s.next topic ops (subscribe topic s).1 started room).unread
    ∙ history-publish_all topic ops (subscribe topic s).1

-- A receiver that is open and has 1024 messages unread is taken for dead: one more publish to a topic
-- leaves it no subscriber of that topic, and leaves its mailbox as it was, without that message, which
-- the topic's history has.
pub publish_full :
    (rx : ℕ) (topic : String) (payload : Bytes) (s : TransportState)
    → (s.mailboxes rx).is_open ≡ true
    → length (s.mailboxes rx).unread ≡ capacity
    → let s' = (publish topic payload s).1 in
      (times rx (subscribers_of topic s') ≡ 0)
      × (s'.mailboxes rx ≡ s.mailboxes rx)
      × (history_of topic s' ≡ history_of topic s ++ payload ∷ [])
publish_full rx topic payload s is_open full =
    let self = eq_self topic in
    let no_room : ltb (length (s.mailboxes rx).unread) capacity ≡ false = rw full refl in
    let refused : can_take (s.mailboxes rx) ≡ false = rw (is_open, no_room) refl in
    let (got, left) = deliver-refused rx (subscribers_of topic s) payload s.mailboxes refused in
    (
      ap (times rx) (subscribers-publish topic topic payload s ∙ rw self refl) ∙ left,
      ap (λ (f : ℕ → Mailbox). f rx) (mailboxes-publish topic topic payload s) ∙ got,
      history-publish topic topic payload s ∙ rw self refl,
    )
