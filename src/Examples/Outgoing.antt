-- ===== src/Examples/Outgoing.antt =====
-- Sending a task in a session at concrete inputs.
use lmao.Prelude.{◌≡◌, refl, String, true, false, none, some, List, [], ◌∷◌, ℕ}
use lmao.Prelude.Dict
use lmao.Sds.State
use lmao.Sds.Send
use lmao.Retry
use lmao.Node.Payment
use lmao.Node.Payload
use lmao.Node.Outgoing
use lmao.Prelude.Result.{ok, err}
use lmao.Transport.{Transport, transport_error}
use lmao.Sds.Send.{World}
use lmao.Retry.{RetryConfig}
use lmao.Task
use lmao.Task.{Task}
use lmao.Node.Payment.{Chain, PaymentConfig}
use lmao.Node.Session.{Session}
use lmao.Node.Outgoing.{Outbox, send_task_to, send_in_session}
use lmao.Sds.Send.Reliable.{Calls}
use lmao.Examples.Setup.{toy_env, fresh}
use lmao.Examples.Posting.{plain_post}

-- A transport that takes every message and returns nothing, and one that takes none.
abbrev pub silent : Transport Unit Unit
silent = record {
  publish = λ topic bytes t. (ok tt, t);
  subscribe = λ topic t. (ok tt, t);
  unsubscribe = λ topic t. (ok tt, t);
  recv_timeout = λ limit rx t. (none, rx, t);
}

abbrev broken : Transport Unit Unit
broken = record silent { publish = λ topic bytes t. (err (transport_error "down"), t) }

abbrev bank : Chain Unit String
bank = record {
  pay = λ to amount c. (ok "tx", c);
  verify_transfer = λ tx c. (err "no such transaction", c);
}

abbrev payer : PaymentConfig
payer = record {
  required_amount = 0;
  auto_pay = true;
  auto_pay_amount = 5;
  verify_on_chain = false;
  receiving_account = "";
}

abbrev twice : RetryConfig
twice = record { max_attempts = 2; base_delay_ms = 1; max_delay_ms = 9; jitter = false }

abbrev talk : Session
talk = record { id = "s1"; peer = "02me"; task_ids = "t1" ∷ []; created_at = 3; last_seen = 4 }

abbrev outbox : Outbox (List ℕ) Unit Unit Unit
outbox = record {
  payments = record { chain = tt; seen_tx_hashes = [] };
  storage = tt;
  retry = record {
    world = record { channel = fresh; transport = tt };
    retry_attempts = 0;
    retries_exhausted = 0;
    slept = [];
  };
  sessions = record { sessions = ("s1", talk) ∷ []; sessions_created = 1 };
  messages_published = 7;
  tasks_sent = 2;
  tasks_failed = 1;
}

-- The same outbox on a transport that lists its calls.
abbrev logged_outbox : Outbox (List ℕ) (Calls × Unit) Unit Unit
logged_outbox = record {
  payments = outbox.payments;
  storage = tt;
  retry = record {
    world = record {
      channel = fresh;
      transport = (record { publishes = "old" ∷ []; subscribes = []; unsubscribes = [] }, tt);
    };
    retry_attempts = 0;
    retries_exhausted = 0;
    slept = [];
  };
  sessions = outbox.sessions;
  messages_published = 7;
  tasks_sent = 2;
  tasks_failed = 1;
}

-- The messages published, the tasks sent and failed after the task above meets either transport.
abbrev counts : Transport Unit Unit → List ℕ
counts tr =
    let o =
      (send_task_to toy_env tr bank (λ s. s) (some payer) plain_post (some twice) (λ n. n)
        (Task.new "t2" "02aa" "02me" "hello") none outbox).1 in
    o.messages_published ∷ o.tasks_sent ∷ o.tasks_failed ∷ o.retry.retry_attempts ∷ []

abbrev ids_after : List String
ids_after =
    let o =
      (send_in_session toy_env silent bank (λ s. s) (some payer) plain_post none (λ n. n) "t2"
        "02aa" "s1" "hello" outbox).1 in
    elim (Dict.lookup "s1" o.sessions.sessions) [ none ↦ [] | some s ↦ s.task_ids ]

counts_sent : counts silent ≡ 8 ∷ 3 ∷ 1 ∷ 0 ∷ []
unfolding send_task_to Payment.maybe_auto_pay Outgoing.send_prepared Payload.prepare_payload
    Payload.wire_form Payload.maybe_encrypt_task Payload.offload Outgoing.send_payload
    Outgoing.count_send Outgoing.dispatch Retry.send_reliable Retry.retry_loop Send.send_reliable
    Send.attempt State.next_timestamp
counts_sent = refl

counts_failed : counts broken ≡ 8 ∷ 2 ∷ 2 ∷ 2 ∷ []
unfolding send_task_to Payment.maybe_auto_pay Outgoing.send_prepared Payload.prepare_payload
    Payload.wire_form Payload.maybe_encrypt_task Payload.offload Outgoing.send_payload
    Outgoing.count_send Outgoing.dispatch Retry.send_reliable Retry.retry_loop Send.send_reliable
    Send.attempt
counts_failed = refl

ids_are_noted : ids_after ≡ "t1" ∷ "t2" ∷ []
unfolding Dict.lookup send_in_session send_task_to Payment.maybe_auto_pay Outgoing.send_prepared
    Payload.prepare_payload Payload.wire_form Payload.maybe_encrypt_task Payload.offload
    Outgoing.send_payload Outgoing.dispatch Send.send_reliable Send.attempt State.next_timestamp
    Outgoing.count_send Dict.insert
ids_are_noted = refl
