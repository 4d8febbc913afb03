-- ===== src/Examples/Polling.antt =====
-- The theorems on payments and polling at concrete inputs.
use lmao.Prelude.{
  ℕ, ◌≡◌, refl, String, true, false, none, some, List, [], ◌∷◌, arith, eqb, if◌then◌else◌,
}
use lmao.Prelude.Result.{ok}
use lmao.Sds.Send.Repair.{Log, logging}
use lmao.Trust.{enforce}
use lmao.Task
use lmao.Task.{Task}
use lmao.Node.Payment.{Chain, PaymentConfig, PaymentState, verify_payment}
use lmao.Node.Payment.Interleaving.{begin, finish, overlap_replays}
use lmao.Node.Poll.{PollApi, PollState, task, poll_tasks}
use lmao.Node.Poll.Accepted.{PollSafe, poll_tasks_safe}
use lmao.Examples.Setup.{toy_env, fresh}

-- A chain on which every transaction moved 10 to the same account.
abbrev ledger : Chain Unit String
ledger = record {
  pay = λ to amount c. (ok "tx", c);
  verify_transfer =
      λ tx c. (ok (record { from = "0x1"; to = "0x2"; amount = 10; block_number = 7 }), c);
}

abbrev same_text : String → String
same_text s = s

abbrev price : PaymentConfig
price = record {
  required_amount = 5;
  auto_pay = false;
  auto_pay_amount = 0;
  verify_on_chain = true;
  receiving_account = "0x2";
}

abbrev paid : String → String → Task
paid id tx = record (Task.new id "02aa" "02me" "hello") { payment_tx = some tx }

abbrev nothing_seen : PaymentState Unit
nothing_seen = record { chain = tt; seen_tx_hashes = [] }

-- Raw messages that start with 9 are tasks.
abbrev toy_api : PollApi
toy_api = record {
  decode_envelope = λ bytes. elim bytes [
    | [] ↦ none
    | n ∷ rest ↦ if eqb n 9 then some (task (paid "t1" "0xa")) else none
  ];
  decrypt = none;
  download = none;
  uuid = λ n. "session";
}

abbrev node : PollState (List ℕ) Log Unit
node = record {
  world = record { channel = fresh; transport = [] };
  trust = record { mode = enforce; entries = [] };
  payments = nothing_seen;
  sessions = record { sessions = []; sessions_created = 0 };
  messages_received = 0;
  tasks_received = 0;
  tasks_dropped_untrusted = 0;
}

poll_tasks_safe_example : PollSafe toy_env logging toy_api ledger same_text (some price) node (
    poll_tasks toy_env logging toy_api ledger same_text
      (some price)
      120
      ((9 ∷ []) ∷ (2 ∷ []) ∷ [])
      node)
poll_tasks_safe_example =
    poll_tasks_safe toy_env logging toy_api ledger same_text (some price) 120
      ((9 ∷ []) ∷ (2 ∷ []) ∷ []) node

overlap_replays_example :
    let t = paid "t1" "0xa" in
    let u = paid "t2" "0xa" in
    ((verify_payment ledger same_text (some price) t nothing_seen).0 ≡ true)
    × ((verify_payment ledger same_text
          (some price)
          u
          (verify_payment ledger same_text (some price) t nothing_seen).1).0
        ≡ false)
    × ((finish ledger same_text price
          (begin ledger same_text price t nothing_seen)
          t
          nothing_seen).0
        ≡ true)
    × ((finish ledger same_text price
          (begin ledger same_text price u nothing_seen)
          u
          (finish ledger same_text price
            (begin ledger same_text price t nothing_seen)
            t
            nothing_seen).1).0
        ≡ true)
overlap_replays_example =
    overlap_replays ledger same_text price "0xa"
      (record { from = "0x1"; to = "0x2"; amount = 10; block_number = 7 }) (λ c. refl) refl refl
      (paid "t1" "0xa") (paid "t2" "0xa") nothing_seen (omega arith) refl refl refl
