-- ===== src/Transport/Memory.antt =====
-- crates/logos-messaging-a2a-transport/src/memory.rs: the transport in memory that tests share between
-- nodes. A channel of `tokio::sync::mpsc` is a mailbox with its unread messages; the number of a
-- mailbox stands for its sender and its receiver.
pub mod Publish
pub mod Calls
pub mod Received
pub mod Delivery
use lmao.Prelude.{
  ℕ, suc, ◌+◌, String, Bool, true, false, ◌&&◌, Option, none, some, List, [], ◌∷◌, ◌++◌, length,
  ltb, eqb, if◌then◌else◌,
}
use lmao.Prelude.Dict
use lmao.Prelude.Dict.{Dict}
use lmao.Prelude.Result.{Result, ok, err}
use lmao.Transport.{Transport, TransportError}

abbrev pub Bytes : Type 0
Bytes = List ℕ

-- `is_open` until the receiver is dropped.
pub record Mailbox : Type 0 where
  pub unread : List Bytes
  pub is_open : Bool

pub record TransportState : Type 0 where
  pub subscribers : Dict (List ℕ)
  pub history : Dict (List Bytes)
  pub mailboxes : ℕ → Mailbox
  pub next : ℕ

abbrev pub capacity : ℕ
capacity = 1024

abbrev pub empty : TransportState
empty = record {
  subscribers = [];
  history = [];
  mailboxes = λ i. record { unread = []; is_open = false };
  next = 0;
}

-- `entry(..).or_default()` without the insertion
abbrev pub or_default : {A : Type 0} → Option (List A) → List A
or_default none = []
or_default (some xs) = xs

abbrev pub subscribers_of : String → TransportState → List ℕ
subscribers_of topic s = or_default (Dict.lookup topic s.subscribers)

abbrev pub history_of : String → TransportState → List Bytes
history_of topic s = or_default (Dict.lookup topic s.history)

-- Whether `try_send` succeeds, and the mailbox after it.
abbrev pub can_take : Mailbox → Bool
can_take m = m.is_open && ltb (length m.unread) capacity

abbrev pub try_send : Bytes → Mailbox → Mailbox
try_send msg m = if can_take m then record m { unread = m.unread ++ msg ∷ [] } else m

abbrev pub set_mailbox : ℕ → Mailbox → (ℕ → Mailbox) → ℕ → Mailbox
set_mailbox i m boxes j = if eqb i j then m else boxes j

-- `retain` over the subscribers: those that took the message, and the mailboxes after it.
unfoldable pub deliver : List ℕ → Bytes → (ℕ → Mailbox) → List ℕ × (ℕ → Mailbox)
deliver [] msg boxes = ([], boxes)
deliver (i ∷ is) msg boxes =
    let (kept, boxes') = deliver is msg (set_mailbox i (try_send msg (boxes i)) boxes) in
    (if can_take (boxes i) then i ∷ kept else kept, boxes')

unfoldable pub publish :
    String → Bytes → TransportState → Result TransportError Unit × TransportState
publish topic payload s =
    let logged : TransportState = record s {
      history = Dict.insert topic (history_of topic s ++ payload ∷ []) s.history;
    } in
    elim (Dict.lookup topic s.subscribers) [
      | none ↦ (ok tt, logged)
      | some subs ↦
          let (kept, boxes) = deliver subs payload s.mailboxes in
          (
            ok tt,
            record logged { subscribers = Dict.insert topic kept s.subscribers; mailboxes = boxes },
          )
    ]

-- The replay to a new subscriber; a send that fails is ignored.
unfoldable pub replay : List Bytes → Mailbox → Mailbox
replay [] m = m
replay (msg ∷ msgs) m = replay msgs (try_send msg m)

unfoldable pub subscribe : String → TransportState → Result TransportError ℕ × TransportState
subscribe topic s =
    let fresh : Mailbox = record { unread = []; is_open = true } in
    (
      ok s.next,
      record s {
        subscribers = Dict.insert topic (subscribers_of topic s ++ s.next ∷ []) s.subscribers;
        mailboxes = set_mailbox s.next (replay (history_of topic s) fresh) s.mailboxes;
        next = suc s.next;
      },
    )

unfoldable pub unsubscribe : String → TransportState → Result TransportError Unit × TransportState
unsubscribe topic s = (ok tt, record s { subscribers = Dict.remove topic s.subscribers })

-- The receiver's `recv`, and its drop.
abbrev oldest : List Bytes → Option Bytes × List Bytes
oldest [] = (none, [])
oldest (msg ∷ msgs) = (some msg, msgs)

unfoldable pub receive : ℕ → TransportState → Option Bytes × TransportState
receive rx s =
    let (msg, rest) = oldest (s.mailboxes rx).unread in
    (
      msg,
      record s {
        mailboxes = set_mailbox rx (record (s.mailboxes rx) { unread = rest }) s.mailboxes;
      },
    )

abbrev pub drop_receiver : ℕ → TransportState → TransportState
drop_receiver rx s = record s {
  mailboxes = set_mailbox rx (record (s.mailboxes rx) { is_open = false }) s.mailboxes;
}

-- The trait's implementation. Nothing arrives while a receiver waits, since nothing else runs.
abbrev pub in_memory : Transport TransportState ℕ
in_memory = record {
  publish = publish;
  subscribe = subscribe;
  unsubscribe = unsubscribe;
  recv_timeout = λ limit rx s. let (msg, s') = receive rx s in (msg, rx, s');
}
