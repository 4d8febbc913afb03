-- ===== src/Examples/Subscribing.antt =====
-- The transport in memory at concrete inputs.
use lmao.Prelude.{
  ℕ, zero, suc, ◌+◌, ◌≤◌, ◌≡◌, refl, String, true, List, [], ◌∷◌, ◌++◌, length, arith,
}
use lmao.Prelude.Dict
use lmao.Transport.Memory.{
  Bytes, TransportState, capacity, empty, subscribers_of, history_of, deliver, publish, replay,
  subscribe,
}
use lmao.Transport.Memory.Publish.{times}
use lmao.Transport.Memory.Calls.{Call, publishes, subscribes, run_all}
use lmao.Transport.Memory.Delivery.{payloads, publish_all, subscriber_sees_all, publish_full}

abbrev before : List Call
before = subscribes "b" ∷ publishes "a" (1 ∷ []) ∷ []

abbrev later : List (String × Bytes)
later = ("a", 2 ∷ []) ∷ ("b", 3 ∷ []) ∷ ("a", 4 ∷ []) ∷ []

few : length (history_of "a" (run_all before empty)) + length (payloads "a" later) ≤ capacity
unfolding run_all publish subscribe replay Dict.lookup Dict.insert
few = omega arith

subscriber_sees_all_example :
    let s = run_all before empty in
    ((publish_all later (subscribe "a" s).1).mailboxes s.next).unread
    ≡ history_of "a" s ++ payloads "a" later
subscriber_sees_all_example = subscriber_sees_all before "a" later few

-- In numbers: what the subscriber to "a" and the one to "b" have unread.
unread_of_both :
    let s = run_all before empty in
    let boxes = (publish_all later (subscribe "a" s).1).mailboxes in
    ((boxes 1).unread ≡ (1 ∷ []) ∷ (2 ∷ []) ∷ (4 ∷ []) ∷ []) × ((boxes 0).unread ≡ (3 ∷ []) ∷ [])
unfolding run_all publish_all publish subscribe replay deliver Dict.lookup Dict.insert
unread_of_both = (refl, refl)

abbrev copies : ℕ → List Bytes
copies zero = []
copies (suc n) = (7 ∷ []) ∷ copies n

-- Mailbox 0 has 1024 messages that nobody has read.
abbrev full : TransportState
full = record {
  subscribers = ("a", 0 ∷ []) ∷ [];
  history = ("a", copies 1024) ∷ [];
  mailboxes = λ i. record { unread = copies 1024; is_open = true };
  next = 1;
}

publish_full_example :
    let s' = (publish "a" (8 ∷ []) full).1 in
    (times 0 (subscribers_of "a" s') ≡ 0)
    × (s'.mailboxes 0 ≡ full.mailboxes 0)
    × (history_of "a" s' ≡ history_of "a" full ++ (8 ∷ []) ∷ [])
publish_full_example = publish_full 0 "a" (8 ∷ []) full refl refl
