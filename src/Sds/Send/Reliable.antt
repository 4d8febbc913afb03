-- ===== src/Sds/Send/Reliable.antt =====
-- `send_reliable` of channel.rs: what it publishes where, what its flag says, and its subscription.
use lmao.Prelude.{
  ℕ, zero, suc, ◌+◌, ◌≤◌, ◌<◌, ◌≡◌, refl, ap, ◌∙◌, String, Bool, false, List, ◌∷◌, arith, inl, inr,
  Option-cases, Bool-cases,
}
use lmao.Prelude.Result.{Result, ok, err, Result-cases}
use lmao.Transport.{Transport, TransportError}
use lmao.Sds.Message.{Bytes, ContentMessage, content_message}
use lmao.Sds.State.{Env, next_timestamp}
use lmao.Sds.Send.{World, new_content, attempt, send_reliable, is_ack_for, ack_topic}

-- The topics of a transport's calls, the latest first.
pub record Calls : Type 0 where
  pub publishes : List String
  pub subscribes : List String
  pub unsubscribes : List String

-- A topic so many times more.
unfoldable pub again : ℕ → String → List String → List String
again zero topic topics = topics
again (suc n) topic topics = again n topic (topic ∷ topics)

pub again-again :
    (m n : ℕ) (topic : String) (topics : List String)
    → (k : ℕ) × (again m topic (again n topic topics) ≡ again k topic topics) × (m ≤ k)
unfolding again
again-again m zero topic topics = (m, refl, omega arith)
again-again m (suc n) topic topics =
    let (k, e, le) = again-again m n topic (topic ∷ topics) in (suc k, e, omega (arith, le))

-- The same transport with a list of its calls.
abbrev pub counted : {T R : Type 0} → Transport T R → Transport (Calls × T) R
counted tr = record {
  publish = λ topic bytes s.
      let (r, t) = tr.publish topic bytes s.1 in
      (r, (record (s.0) { publishes = topic ∷ s.0.publishes }, t));
  subscribe = λ topic s.
      let (r, t) = tr.subscribe topic s.1 in
      (r, (record (s.0) { subscribes = topic ∷ s.0.subscribes }, t));
  unsubscribe = λ topic s.
      let (r, t) = tr.unsubscribe topic s.1 in
      (r, (record (s.0) { unsubscribes = topic ∷ s.0.unsubscribes }, t));
  recv_timeout = λ limit rx s.
      let (ack_data, rx', t) = tr.recv_timeout limit rx s.1 in (ack_data, rx', (s.0, t));
}

acked_of_ok :
    {m n : ContentMessage} {a b : Bool}
    → ◌≡◌ {A = Result TransportError (ContentMessage × Bool)} (ok (m, a)) (ok (n, b))
    → a ≡ b
acked_of_ok e = ground arith

id_of_ok :
    {m n : ContentMessage} {a b : Bool}
    → ◌≡◌ {A = Result TransportError (ContentMessage × Bool)} (ok (m, a)) (ok (n, b))
    → m.message_id ≡ n.message_id
id_of_ok e =
    ap
      (λ (x : Result TransportError (ContentMessage × Bool)). elim x as (λ _. String) [
        | ok y ↦ y.0.message_id
        | err _ ↦ ""
      ])
      e

module _ {F T R : Type 0} (env : Env F) (tr : Transport T R) where
  abbrev CountedWorld : Type 0
  CountedWorld = World F (Calls × T)

  abbrev calls : CountedWorld → Calls
  calls w = w.transport.0

  abbrev Attempts : ℕ → String → CountedWorld → Result TransportError Bool × CountedWorld → Type 0
  Attempts left topic w (r, w') =
      (n : ℕ) × (n ≤ left)
      × (r ≡ ok false → n ≡ left)
      × (0 < left → 0 < n)
      × ((calls w').publishes ≡ again n topic (calls w).publishes)
      × ((calls w').subscribes ≡ (calls w).subscribes)
      × ((calls w').unsubscribes ≡ (calls w).unsubscribes)
      × (w'.channel ≡ w.channel)

  attempt-Attempts :
      (left : ℕ) (rx : R) (topic : String) (encoded : Bytes) (id : String) (w : CountedWorld)
      → Attempts left topic w (attempt env (counted tr) left rx topic encoded id w)
  unfolding attempt again
  attempt-Attempts zero rx topic encoded id w =
      (0, omega arith, λ _. refl, λ h. h, refl, refl, refl, refl)
  attempt-Attempts (suc left) rx topic encoded id w =
      let (sent, t) = tr.publish topic encoded w.transport.1 in
      let (ack_data, rx', t') = tr.recv_timeout w.channel.config.ack_timeout rx t in
      let next : CountedWorld = record {
        channel = w.channel;
        transport = (record (calls w) { publishes = topic ∷ (calls w).publishes }, t');
      } in
      let ih = attempt-Attempts left rx' topic encoded id next in
      elim (Result-cases sent) [
        | inr (e, failed) ↦
            rw (failed, attempt) (1, omega arith, λ r. cc, λ _. omega arith, refl, refl, refl, refl)
        | inl (u, done) ↦ elim (Bool-cases (is_ack_for env (counted tr) id ack_data)) [
          | inl acked ↦
              rw (done, acked, attempt)
                (1, omega arith, λ r. cc, λ _. omega arith, refl, refl, refl, refl)
          | inr silent ↦
              rw (done, silent, attempt)
                (
                  suc ih.0,
                  omega (arith, ih.1),
                  λ r. ap suc (ih.2 r),
                  λ _. omega arith,
                  ih.4,
                  ih.5,
                  ih.6,
                  ih.7,
                )
        ]
      ]

  abbrev pub ReliableSend :
      String → CountedWorld → Result TransportError (ContentMessage × Bool) × CountedWorld → Type 0
  ReliableSend topic w (r, w') =
      let most = w.channel.config.max_retries + 1 in
      (n : ℕ) × (n ≤ most)
      × ((calls w').publishes ≡ again n topic (calls w).publishes)
      × ((msg : ContentMessage) → r ≡ ok (msg, false) → n ≡ most)
      × ((result : ContentMessage × Bool) → r ≡ ok result → 0 < n)
      × ((msg : ContentMessage) (acked : Bool)
          → r ≡ ok (msg, acked)
          → let acks = ack_topic env (counted tr) msg.message_id in
            ((calls w').subscribes ≡ acks ∷ (calls w).subscribes)
            × ((calls w').unsubscribes ≡ acks ∷ (calls w).unsubscribes))
      × ((e : TransportError) → r ≡ err e → (calls w').unsubscribes ≡ (calls w).unsubscribes)

  -- All that `send_reliable` publishes goes to its topic, `max_retries + 1` times at most, exactly so
  -- often when it gives up without an acknowledgement, and once at least when it gives a result. A result, acknowledged or not, has begun
  -- one subscription, to the topic of the acknowledgements of the message that it returns, and has ended
  -- that one and no other; an error has ended none.
  pub send_reliable_calls :
      (topic : String) (payload : Bytes) (w : CountedWorld)
      → ReliableSend topic w (send_reliable env (counted tr) topic payload w)
  unfolding send_reliable next_timestamp again
  send_reliable_calls topic payload w =
      let (ts, ch) = next_timestamp w.channel in
      let msg = new_content env (counted tr) payload ts ch in
      let acks = ack_topic env (counted tr) msg.message_id in
      elim (Option-cases (env.encode (content_message msg))) [
        | inl e ↦
            rw (e, send_reliable)
              (0, omega arith, refl, λ m r. cc, λ x r. cc, λ m a r. cc, λ _ _. refl)
        | inr (encoded, e) ↦ elim (Result-cases (tr.subscribe acks w.transport.1).0) [
          | inr (_, e') ↦
              rw (e, e', send_reliable)
                (0, omega arith, refl, λ m r. cc, λ x r. cc, λ m a r. cc, λ _ _. refl)
          | inl (rx, e') ↦
              let w1 : CountedWorld = record {
                channel = ch;
                transport = (
                  record (calls w) { subscribes = acks ∷ (calls w).subscribes },
                  (tr.subscribe acks w.transport.1).1,
                );
              } in
              let left = suc w.channel.config.max_retries in
              let att = attempt-Attempts left rx topic encoded msg.message_id w1 in
              let (r, w2) = attempt env (counted tr) left rx topic encoded msg.message_id w1 in
              elim (Result-cases r) [
                | inr (err', e2) ↦
                    rw (e, e', e2, send_reliable)
                      (
                        att.0,
                        omega (arith, att.1),
                        att.4,
                        λ m q. cc,
                        λ m q. cc,
                        λ m a q. cc,
                        λ _ _. att.6,
                      )
                | inl (acked, e2) ↦
                    rw (e, e', e2, send_reliable)
                      (
                        att.0,
                        omega (arith, att.1),
                        att.4,
                        λ m q. omega (arith, att.2 (e2 ∙ ap ok (acked_of_ok q))),
                        λ m q. att.3 (omega arith),
                        λ m a q.
                            let same = ap (ack_topic env (counted tr)) (id_of_ok q) in
                            (
                              att.5 ∙ ap (λ (x : String). x ∷ (calls w).subscribes) same,
                              ap (λ (xs : List String). acks ∷ xs) att.6
                                  ∙ ap (λ (x : String). x ∷ (calls w).unsubscribes) same,
                            ),
                        λ _ q. cc,
                      )
              ]
        ]
      ]
