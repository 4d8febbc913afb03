-- ===== src/Transport/Memory/Received.antt =====
-- When a subscriber of the transport in memory of transport/src/memory.rs has all of its topic unread, and
-- one publish that keeps this.
use lmao.Prelude.{
  ℕ, ◌+◌, ◌≤◌, ◌<◌, ◌≡◌, ◌≢◌, refl, sym, ap, ◌∙◌, String, true, false, List, [], ◌∷◌, ◌++◌, length,
  length-append, ◌==◌, eq_iff, arith, Bool-cases, inl, inr, lt→ltb,
}
use mathlib.Core.List.{append-nil, append_assoc}
use lmao.Transport.Memory.Publish.{
  false_not_true, times, deliver-others, deliver-once, eq_self, ne_apart, history-publish,
  subscribers-publish, mailboxes-publish,
}
use lmao.Transport.Memory.{
  Bytes, Mailbox, TransportState, capacity, subscribers_of, history_of, can_take, try_send, publish,
  replay,
}

-- The receiver `rx` is subscribed to the topic and to no other.
pub record IsSubscribed (rx : ℕ) (topic : String) (s : TransportState) : Type 0 where
  pub once : times rx (subscribers_of topic s) ≡ 1
  pub nowhere_else : (other : String) → topic ≢ other → times rx (subscribers_of other s) ≡ 0
  pub is_open : (s.mailboxes rx).is_open ≡ true

-- Every message of the topic's history is unread, in its order.
pub record SeesAll (rx : ℕ) (topic : String) (s : TransportState) : Type 0 where
  pub subscribed : IsSubscribed rx topic s
  pub unread : (s.mailboxes rx).unread ≡ history_of topic s

pub replay-unread :
    (msgs : List Bytes) (m : Mailbox)
    → m.is_open ≡ true
    → length m.unread + length msgs ≤ capacity
    → ((replay msgs m).unread ≡ m.unread ++ msgs) × ((replay msgs m).is_open ≡ true)
unfolding replay
replay-unread [] m o h = (sym (append-nil m.unread), o)
replay-unread (msg ∷ msgs) m o h =
    let room : can_take m ≡ true = rw (o, lt→ltb (length m.unread) capacity (omega arith)) refl in
    let sent : try_send msg m ≡ record m { unread = m.unread ++ msg ∷ [] } = rw room refl in
    let (a, b) =
      replay-unread msgs (record m { unread = m.unread ++ msg ∷ [] }) o
        (omega (arith, length-append m.unread (msg ∷ []))) in
    rw (sent, replay) (a ∙ append_assoc m.unread (msg ∷ []) msgs, b)

pub publish_here-SeesAll :
    (rx : ℕ) (topic : String) (payload : Bytes) (s : TransportState)
    → SeesAll rx topic s
    → length (history_of topic (publish topic payload s).1) ≤ capacity
    → SeesAll rx topic (publish topic payload s).1
publish_here-SeesAll rx topic payload s sees room =
    let self = eq_self topic in
    let hist : history_of topic (publish topic payload s).1 ≡ history_of topic s ++ payload ∷ [] =
      history-publish topic topic payload s ∙ rw self refl in
    let len : length (s.mailboxes rx).unread < capacity = omega (
      arith,
      ap length sees.unread,
      ap length hist,
      length-append (history_of topic s) (payload ∷ []),
    ) in
    let can : can_take (s.mailboxes rx) ≡ true =
      rw (sees.subscribed.is_open, lt→ltb (length (s.mailboxes rx).unread) capacity len) refl in
    let (got, left) =
      deliver-once rx (subscribers_of topic s) payload s.mailboxes sees.subscribed.once can in
    let taken : (publish topic payload s).1.mailboxes rx
        ≡ record (s.mailboxes rx) { unread = (s.mailboxes rx).unread ++ payload ∷ [] } =
      ap (λ (f : ℕ → Mailbox). f rx) (mailboxes-publish topic topic payload s)
      ∙ got
      ∙ rw can refl in
    record {
      subscribed = record {
        once = ap (times rx) (subscribers-publish topic topic payload s ∙ rw self refl) ∙ left;
        nowhere_else = λ other ne.
            ap (times rx)
              (subscribers-publish topic other payload s ∙ rw (ne_apart topic other ne) refl)
            ∙ sees.subscribed.nowhere_else other ne;
        is_open = ap (λ (m : Mailbox). m.is_open) taken ∙ sees.subscribed.is_open;
      };
      unread =
          ap (λ (m : Mailbox). m.unread) taken
          ∙ ap (λ (u : List Bytes). u ++ payload ∷ []) sees.unread
          ∙ sym hist;
    }

pub publish_elsewhere-SeesAll :
    (rx : ℕ) (topic t : String) (payload : Bytes) (s : TransportState)
    → SeesAll rx topic s
    → t == topic ≡ false
    → SeesAll rx topic (publish t payload s).1
publish_elsewhere-SeesAll rx topic t payload s sees apart =
    let absent =
      sees.subscribed.nowhere_else t
        (λ e. false_not_true (sym apart ∙ (eq_iff t topic).1 (sym e))) in
    let (got, left) = deliver-others rx (subscribers_of t s) payload s.mailboxes absent in
    let kept : (publish t payload s).1.mailboxes rx ≡ s.mailboxes rx =
      ap (λ (f : ℕ → Mailbox). f rx) (mailboxes-publish t topic payload s) ∙ got in
    record {
      subscribed = record {
        once =
            ap (times rx) (subscribers-publish t topic payload s ∙ rw apart refl)
            ∙ sees.subscribed.once;
        nowhere_else = λ other ne. elim (Bool-cases (t == other)) [
          | inl same ↦ ap (times rx) (subscribers-publish t other payload s ∙ rw same refl) ∙ left
          | inr away ↦
              ap (times rx) (subscribers-publish t other payload s ∙ rw away refl)
              ∙ sees.subscribed.nowhere_else other ne
        ];
        is_open = ap (λ (m : Mailbox). m.is_open) kept ∙ sees.subscribed.is_open;
      };
      unread =
          ap (λ (m : Mailbox). m.unread) kept
          ∙ sees.unread
          ∙ sym (history-publish t topic payload s ∙ rw apart refl);
    }
