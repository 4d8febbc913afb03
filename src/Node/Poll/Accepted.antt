-- ===== src/Node/Poll/Accepted.antt =====
-- What `poll_tasks` of node/src/tasks/poll.rs gives its caller: tasks of senders that the trust list
-- lets pass, each paid for by a transaction of its own; a raw message counts once.
use lmao.Prelude.{
  ℕ, ◌+◌, ◌<◌, ◌≡◌, ◌≢◌, refl, ap, sym, subst, ◌∙◌, ◌⊎◌, String, true, Option, none, some, List, [],
  ◌∷◌, ◌++◌, All, inl, inr, Bool-cases, Option-cases, length,
}
use lmao.Prelude.Result.{Result, ok, err}
use lmao.Transport.{Transport}
use lmao.Sds.Message.{Bytes, ContentMessage}
use lmao.Sds.Bloom.{BloomLaws}
use lmao.Sds.Bloom.Laws.{check-set_room}
use lmao.Sds.Channel
use lmao.Sds.State.{Env}
use lmao.Sds.Channel.{receive, is_duplicate}
use lmao.Trust.{TrustMode, TrustList, off, enforce, log, is_trusted}
use lmao.Task.{Task}
use lmao.Node.Payment.{Chain, PaymentConfig, PaymentState, verify_payment, verify_all}
use lmao.Node.Payment.Replay.{PaidOnce, verify_all-PaidOnce}
use lmao.Node.Poll.{
  PollApi, PollState, Envelope, tolerated, collect, extract_task, extract_task_from_envelope,
  take_delivered, take_raw, take_message, take_outcome, take_messages, settle, poll_tasks,
  acknowledge, received,
}

abbrev pub IsAccepted : TrustList → Task → Type 0
IsAccepted trust t = (is_trusted t.from trust ≡ true) ⊎ (trust.mode ≢ enforce)

tolerated-lenient : (mode : TrustMode) → tolerated mode ≡ true → mode ≢ enforce
tolerated-lenient off h e = cc
tolerated-lenient log h e = cc
tolerated-lenient enforce h e = cc

All-append_one :
    (P : Task → Type 0) (ts : List Task) (t : Task) → All P ts → P t → All P (ts ++ t ∷ [])
All-append_one P [] t hs h = (h, tt)
All-append_one P (x ∷ xs) t hs h = (hs.0, All-append_one P xs t hs.1 h)

module _ {F T C : Type 0} (trust : TrustList) where
  -- The trust list is as before, and the tasks of a result have passed it.
  abbrev Safe : Result String (List Task) × PollState F T C → Type 0
  Safe (err e, s) = s.trust ≡ trust
  Safe (ok ts, s) = (s.trust ≡ trust) × All (IsAccepted trust) ts

  collect-Safe :
      (r : Result String (Option Task)) (ts : List Task) (s : PollState F T C)
      → Safe (ok ts, s)
      → Safe (collect r ts s)
  unfolding collect
  collect-Safe (err e) ts s h = h.0
  collect-Safe (ok none) ts s h = h
  collect-Safe (ok (some t)) ts s (same, h) = elim (Bool-cases (is_trusted t.from s.trust)) [
    | inl trusted ↦ rw trusted (
      same,
      All-append_one (IsAccepted trust) ts t h
          (inl (subst (λ l. is_trusted t.from l ≡ true) same trusted)),
    )
    | inr stranger ↦ elim (Bool-cases (tolerated s.trust.mode)) [
      | inl lenient ↦
          rw (stranger, lenient)
            (
              same,
              All-append_one (IsAccepted trust) ts t h (
                  inr (
                    subst (λ (l : TrustList). l.mode ≢ enforce) same
                      (tolerated-lenient s.trust.mode lenient))),
            )
      | inr strict ↦ rw (stranger, strict) (same, h)
    ]
  ]

  bind-Safe :
      (p : Result String (List Task) × PollState F T C)
      (k : List Task → PollState F T C → Result String (List Task) × PollState F T C)
      → Safe p
      → ((ts : List Task) (s : PollState F T C) → Safe (ok ts, s) → Safe (k ts s))
      → Safe (elim p.0 [ err e ↦ (err e, p.1) | ok ts ↦ k ts p.1 ])
  bind-Safe (err e, s) k h next = h
  bind-Safe (ok ts, s) k h next = next ts s h

verify_all-All :
    {C E : Type 0} (P : Task → Type 0) (chain : Chain C E) (lower : String → String)
    (payment : Option PaymentConfig) (ts : List Task) (s : PaymentState C)
    → All P ts
    → All P (verify_all chain lower payment ts s).0
unfolding verify_all
verify_all-All P chain lower payment [] s h = tt
verify_all-All P chain lower payment (t ∷ ts) s (h, hs) =
    let rest =
      verify_all-All P chain lower payment ts (verify_payment chain lower payment t s).1 hs in
    elim (Bool-cases (verify_payment chain lower payment t s).0) [
      | inl paid ↦ rw paid (h, rest)
      | inr unpaid ↦ rw unpaid rest
    ]

module _ {F T R C E : Type 0} (env : Env F) (tr : Transport T R) (api : PollApi) (chain : Chain C E)
    (lower : String → String) (payment : Option PaymentConfig) where
  take_delivered-Safe :
      (trust : TrustList) (contents : List ContentMessage) (ts : List Task) (s : PollState F T C)
      → Safe trust (ok ts, s)
      → Safe trust (take_delivered env tr api chain lower payment contents ts s)
  unfolding take_delivered
  take_delivered-Safe trust [] ts s h = h
  take_delivered-Safe trust (content ∷ rest) ts s h =
      bind-Safe trust
        (collect (extract_task api content.content) ts
          (acknowledge env tr api chain lower payment content.message_id s))
        (take_delivered env tr api chain lower payment rest)
        (collect-Safe trust (extract_task api content.content) ts
          (acknowledge env tr api chain lower payment content.message_id s) h)
        (λ ts' s' h'. take_delivered-Safe trust rest ts' s' h')

  take_raw-Safe :
      (trust : TrustList) (msg : Bytes) (ts : List Task) (s : PollState F T C)
      → Safe trust (ok ts, s)
      → Safe trust (take_raw env tr api chain lower payment msg ts s)
  unfolding take_raw
  take_raw-Safe trust msg ts s h = elim (Option-cases (api.decode_envelope msg)) [
    | inl e ↦ rw (e, take_raw, Safe) h
    | inr (envelope, e) ↦ elim (Bool-cases (is_duplicate env (env.digest msg) s.world.channel)) [
      | inl known ↦ rw (e, known, take_raw) h
      | inr fresh ↦
          rw (e, fresh, take_raw)
            (collect-Safe trust (extract_task_from_envelope api envelope) ts _ h)
    ]
  ]

  take_outcome-Safe :
      (trust : TrustList) (delivered : List ContentMessage) (msg : Bytes) (ts : List Task)
      (s : PollState F T C)
      → Safe trust (ok ts, s)
      → Safe trust (take_outcome env tr api chain lower payment delivered msg ts s)
  take_outcome-Safe trust [] msg ts s h = take_raw-Safe trust msg ts s h
  take_outcome-Safe trust (content ∷ rest) msg ts s h =
      take_delivered-Safe trust (content ∷ rest) ts s h

  take_messages-Safe :
      (trust : TrustList) (msgs : List Bytes) (ts : List Task) (s : PollState F T C)
      → Safe trust (ok ts, s)
      → Safe trust (take_messages env tr api chain lower payment msgs ts s)
  unfolding take_messages
  take_messages-Safe trust [] ts s h = h
  take_messages-Safe trust (msg ∷ msgs) ts s h =
      let (delivered, ch) = receive env msg s.world.channel in
      bind-Safe trust (take_message env tr api chain lower payment msg ts s)
        (take_messages env tr api chain lower payment msgs)
        (take_outcome-Safe trust delivered msg ts (received env tr api chain lower payment ch s) h)
        (λ ts' s' h'. take_messages-Safe trust msgs ts' s' h')

  abbrev pub PollSafe : PollState F T C → Result String (List Task) × PollState F T C → Type 0
  PollSafe s (err e, s') = s'.trust ≡ s.trust
  PollSafe s (ok ts, s') =
      (s'.trust ≡ s.trust)
      × All (IsAccepted s.trust) ts
      × ((cfg : PaymentConfig)
          → payment ≡ some cfg
          → 0 < cfg.required_amount
          → PaidOnce chain lower cfg ts)

  settle-PollSafe :
      (now : ℕ) (s : PollState F T C) (p : Result String (List Task) × PollState F T C)
      → Safe s.trust p
      → PollSafe s (settle env tr api chain lower payment now p)
  settle-PollSafe now s (err e, s') h = h
  settle-PollSafe now s (ok ts, s') (same, h) = (
    same,
    verify_all-All (IsAccepted s.trust) chain lower payment ts s'.payments h,
    λ cfg e required.
        subst (λ p. PaidOnce chain lower cfg (verify_all chain lower p ts s'.payments).0) (sym e)
          (verify_all-PaidOnce chain lower cfg ts s'.payments required),
  )

  -- Every task that a poll returns comes of a sender on the trust list, unless the list's mode is
  -- not `enforce`; and where a payment is required, the returned tasks claim transactions, no two
  -- the same. The trust list stays.
  pub poll_tasks_safe :
      (now : ℕ) (raw_messages : List Bytes) (s : PollState F T C)
      → PollSafe s (poll_tasks env tr api chain lower payment now raw_messages s)
  unfolding poll_tasks
  poll_tasks_safe now raw_messages s =
      let s0 : PollState F T C = record s {
        messages_received = s.messages_received + length raw_messages;
      } in
      settle-PollSafe now s (take_messages env tr api chain lower payment raw_messages [] s0)
        (take_messages-Safe s.trust raw_messages [] s0 (refl, tt))

  take_raw_known :
      (msg : Bytes) (envelope : Envelope) (ts : List Task) (s : PollState F T C)
      → api.decode_envelope msg ≡ some envelope
      → is_duplicate env (env.digest msg) s.world.channel ≡ true
      → take_raw env tr api chain lower payment msg ts s ≡ (ok ts, s)
  unfolding take_raw
  take_raw_known msg envelope ts s e known = rw (e, known, take_raw) refl

  world-collect :
      (r : Result String (Option Task)) (ts : List Task) (s : PollState F T C)
      → (collect r ts s).1.world ≡ s.world
  unfolding collect
  world-collect (err e) ts s = refl
  world-collect (ok none) ts s = refl
  world-collect (ok (some t)) ts s = elim (Bool-cases (is_trusted t.from s.trust)) [
    | inl trusted ↦ rw trusted refl
    | inr stranger ↦ rw stranger refl
  ]

  take_raw_marks :
      BloomLaws env.bloom
      → (msg : Bytes) (envelope : Envelope) (ts : List Task) (s : PollState F T C)
      → api.decode_envelope msg ≡ some envelope
      → s.world.channel.bloom.item_count + 1 < s.world.channel.bloom.capacity
      → is_duplicate env
          (env.digest msg)
          (take_raw env tr api chain lower payment msg ts s).1.world.channel
        ≡ true
  unfolding take_raw
  take_raw_marks laws msg envelope ts s e room =
      let id = env.digest msg in
      let w = s.world in
      elim (Bool-cases (is_duplicate env id w.channel)) [
        | inl known ↦
            ap (λ p. is_duplicate env id p.1.world.channel)
              (take_raw_known msg envelope ts s e known)
            ∙ known
        | inr fresh ↦
            let marked : PollState F T C = record s {
              world = record w { channel = Channel.mark_seen env id w.channel };
            } in
            let found = (check-set_room env.bloom laws w.channel.bloom id id room).0 in
            rw (e, fresh, take_raw)
              (ap (λ x. is_duplicate env id x.channel)
                  (world-collect (extract_task_from_envelope api envelope) ts marked)
                ∙ found)
      ]

  -- A raw envelope that is taken while the filter has room, and keeps its laws, is known
  -- afterwards: taken again, it adds no task and changes nothing, whatever the first time gave.
  take_raw_twice :
      BloomLaws env.bloom
      → (msg : Bytes) (envelope : Envelope) (ts ts' : List Task) (s : PollState F T C)
      → api.decode_envelope msg ≡ some envelope
      → s.world.channel.bloom.item_count + 1 < s.world.channel.bloom.capacity
      → let s' = (take_raw env tr api chain lower payment msg ts s).1 in
        take_raw env tr api chain lower payment msg ts' s' ≡ (ok ts', s')
  take_raw_twice laws msg envelope ts ts' s e room =
      take_raw_known msg envelope ts' (take_raw env tr api chain lower payment msg ts s).1 e
        (take_raw_marks laws msg envelope ts s e room)
