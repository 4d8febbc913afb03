-- ===== src/Transport/Memory/Calls.antt =====
-- Sequences of calls on the transport in memory of transport/src/memory.rs: the number of the next
-- mailbox stands for no subscriber yet.
use lmao.Prelude.{
  ℕ, ◌≤◌, ◌≡◌, refl, ap, ◌∙◌, String, false, none, List, [], ◌∷◌, ◌++◌, eqb, ◌==◌, arith,
  Bool-cases, inl, inr, Option-cases,
}
use lmao.Prelude.Dict
use lmao.Prelude.Dict.{lookup-remove}
use lmao.Transport.Memory.Publish.{
  times, times-append_one, deliver-others, entry-insert, subscribers-publish,
}
use lmao.Transport.Memory.{
  Bytes, TransportState, empty, subscribers_of, publish, subscribe, unsubscribe, receive,
  drop_receiver,
}

-- Mailboxes that are not made yet stand nowhere.
abbrev pub IsFresh : TransportState → Type 0
IsFresh s = (topic : String) (rx : ℕ) → s.next ≤ rx → times rx (subscribers_of topic s) ≡ 0

-- A call of the transport or of a receiver.
pub data Call : Type 0 where
  publishes : String → Bytes → Call
  subscribes : String → Call
  unsubscribes : String → Call
  reads : ℕ → Call
  drops : ℕ → Call

abbrev pub run : Call → TransportState → TransportState
run (publishes t payload) s = (publish t payload s).1
run (subscribes t) s = (subscribe t s).1
run (unsubscribes t) s = (unsubscribe t s).1
run (reads rx) s = (receive rx s).1
run (drops rx) s = drop_receiver rx s

unfoldable pub run_all : List Call → TransportState → TransportState
run_all [] s = s
run_all (c ∷ cs) s = run_all cs (run c s)

next-publish :
    (t : String) (payload : Bytes) (s : TransportState) → (publish t payload s).1.next ≡ s.next
unfolding publish
next-publish t payload s = elim (Option-cases (Dict.lookup t s.subscribers)) [
  | inl e ↦ rw (e, publish) refl
  | inr (subs, e) ↦ rw (e, publish) refl
]

run-IsFresh : (c : Call) (s : TransportState) → IsFresh s → IsFresh (run c s)
unfolding subscribe unsubscribe receive
run-IsFresh (publishes t payload) s fresh = λ topic rx after.
    let absent = λ (x : String). fresh x rx (omega (arith, next-publish t payload s)) in
    elim (Bool-cases (t == topic)) [
      | inl same ↦
          ap (times rx) (subscribers-publish t topic payload s ∙ rw same refl)
          ∙ (deliver-others rx (subscribers_of t s) payload s.mailboxes (absent t)).1
      | inr apart ↦
          ap (times rx) (subscribers-publish t topic payload s ∙ rw apart refl) ∙ absent topic
    ]
run-IsFresh (subscribes t) s fresh = λ topic rx after.
    let e = entry-insert t topic (subscribers_of t s ++ s.next ∷ []) s.subscribers in
    elim (Bool-cases (t == topic)) [
      | inl same ↦
          let other : eqb s.next rx ≡ false = ground (arith, after) in
          let none_more : times rx (s.next ∷ []) ≡ 0 = rw other (omega arith) in
          let absent : times rx (subscribers_of t s ++ s.next ∷ []) ≡ 0 = omega (
            arith,
            times-append_one s.next rx (subscribers_of t s),
            none_more,
            fresh t rx (omega arith),
          ) in
          ap (times rx) (e ∙ rw same refl) ∙ absent
      | inr apart ↦
          let absent : times rx (subscribers_of topic s) ≡ 0 = fresh topic rx (omega arith) in
          ap (times rx) (e ∙ rw apart refl) ∙ absent
    ]
run-IsFresh (unsubscribes t) s fresh = λ topic rx after.
    let left = Dict.remove t s.subscribers in
    elim (Bool-cases (t == topic)) [
      | inl same ↦
          let e : Dict.lookup topic left ≡ none =
            lookup-remove t topic s.subscribers ∙ rw same refl in
          rw e refl
      | inr apart ↦
          let e : Dict.lookup topic left ≡ Dict.lookup topic s.subscribers =
            lookup-remove t topic s.subscribers ∙ rw apart refl in
          rw e (fresh topic rx after)
    ]
run-IsFresh (reads rx) s fresh = fresh
run-IsFresh (drops rx) s fresh = fresh

pub run_all-IsFresh : (cs : List Call) (s : TransportState) → IsFresh s → IsFresh (run_all cs s)
unfolding run_all
run_all-IsFresh [] s fresh = fresh
run_all-IsFresh (c ∷ cs) s fresh = run_all-IsFresh cs (run c s) (run-IsFresh c s fresh)

pub empty-IsFresh : IsFresh empty
unfolding Dict.lookup
empty-IsFresh topic rx h = refl
