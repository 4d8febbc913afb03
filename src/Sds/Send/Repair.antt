-- ===== src/Sds/Send/Repair.antt =====
-- `handle_repair_requests` of channel.rs: which messages are published again.
use mathlib.Core.List.{append-nil, append_assoc}
use lmao.Prelude.{
  ℕ, ◌+◌, ◌≡◌, refl, sym, subst, ◌∙◌, ◌⊎◌, String, Bool, true, false, ◌&&◌, none, some, List, [],
  ◌∷◌, ◌++◌, map, arith, inl, inr, Bool-cases, any, find, length, ◌==◌, eq_iff,
}
use lmao.Prelude.Result.{Result, ok}
use lmao.Transport.{Transport, TransportError}
use lmao.Sds.Message.{Bytes, HistoryEntry, ContentMessage, content_message}
use lmao.Sds.State.{Env}
use lmao.Sds.Send.{World, to_resend, resend, handle_repair_requests}

abbrev pub has_id : String → ContentMessage → Bool
has_id id m = m.message_id == id

abbrev pub asks_for : String → HistoryEntry → Bool
asks_for id r = r.message_id == id

find-has_id :
    (id : String) (ms : List ContentMessage)
    → ((find (has_id id) ms ≡ none) × (any (has_id id) ms ≡ false))
      ⊎ ((m : ContentMessage) × (find (has_id id) ms ≡ some m)
          × (m.message_id ≡ id)
          × (any (has_id id) ms ≡ true))
find-has_id id [] = inl (refl, refl)
find-has_id id (x ∷ ms) = elim (Bool-cases (x.message_id == id)) [
  | inl hit ↦ inr (x, rw hit, (eq_iff x.message_id id).0 hit, rw hit)
  | inr miss ↦ elim (find-has_id id ms) [
    | inl (e, none_has) ↦ inl (rw miss e, rw miss none_has)
    | inr (m, e, same, has) ↦ inr (m, rw miss e, same, rw miss has)
  ]
]

module _ {F T R : Type 0} (env : Env F) (tr : Transport T R) where
  to_resend-none :
      (r : HistoryEntry) (rs : List HistoryEntry) (out : List ContentMessage)
      → find (has_id r.message_id) out ≡ none
      → to_resend env tr (r ∷ rs) out ≡ to_resend env tr rs out
  unfolding to_resend
  to_resend-none r rs out e = rw (e, to_resend)

  to_resend-some :
      (r : HistoryEntry) (rs : List HistoryEntry) (out : List ContentMessage) (m : ContentMessage)
      → find (has_id r.message_id) out ≡ some m
      → to_resend env tr (r ∷ rs) out ≡ m ∷ to_resend env tr rs out
  unfolding to_resend
  to_resend-some r rs out m e = rw (e, to_resend)

  -- A message with a given id is published again exactly when the id was asked for and a message
  -- with it is in the outgoing buffer.
  any-to_resend :
      (id : String) (reqs : List HistoryEntry) (out : List ContentMessage)
      → any (has_id id) (to_resend env tr reqs out)
        ≡ (any (asks_for id) reqs && any (has_id id) out)
  unfolding to_resend
  any-to_resend id [] out = refl
  any-to_resend id (r ∷ rs) out = elim (find-has_id r.message_id out) [
    | inl (e, none_has) ↦ elim (Bool-cases (r.message_id == id)) [
      | inl hit ↦
          let absent =
            subst (λ i. any (has_id i) out ≡ false) ((eq_iff r.message_id id).0 hit) none_has in
          rw (to_resend-none r rs out e) (ground (arith, any-to_resend id rs out, absent))
      | inr miss ↦ rw (to_resend-none r rs out e) (ground (arith, any-to_resend id rs out, miss))
    ]
    | inr (m, e, same, has) ↦ elim (Bool-cases (r.message_id == id)) [
      | inl hit ↦
          let same_id = (eq_iff r.message_id id).0 hit in
          let present = subst (λ i. any (has_id i) out ≡ true) same_id has in
          let hit' = (eq_iff m.message_id id).1 (same ∙ same_id) in
          rw (to_resend-some r rs out m e) (ground (arith, present, hit, hit'))
      | inr miss ↦
          let miss' = subst (λ i. (i == id) ≡ false) (sym same) miss in
          rw (to_resend-some r rs out m e) (ground (arith, any-to_resend id rs out, miss, miss'))
    ]
  ]

-- A transport that publishes without fail and keeps what it was given.
abbrev pub Log : Type 0
Log = List (String × Bytes)

abbrev pub logging : Transport Log Unit
logging = record {
  publish = λ topic bytes log. (ok tt, log ++ (topic, bytes) ∷ []);
  subscribe = λ topic log. (ok tt, log);
  unsubscribe = λ topic log. (ok tt, log);
  recv_timeout = λ limit rx log. (none, rx, log);
}

module _ {F : Type 0} (env : Env F) (wire : ContentMessage → Bytes) where
  abbrev Encodes : Type 0
  Encodes = (m : ContentMessage) → env.encode (content_message m) ≡ some (wire m)

  reply_eq :
      (w : World F Log) {n n' : ℕ} {t t' : Log}
      → n ≡ n'
      → t ≡ t'
      → ◌≡◌ {A = Result TransportError ℕ × World F Log}
          (ok n, record w { transport = t })
          (ok n', record w { transport = t' })
  reply_eq w e e' = cc

  resend_logs :
      Encodes
      → (ms : List ContentMessage) (topic : String) (n : ℕ) (w : World F Log)
      → resend env logging ms topic n w ≡ (
        ok (n + length ms),
        record w { transport = w.transport ++ map (λ m. (topic, wire m)) ms },
      )
  unfolding resend
  resend_logs enc [] topic n w = reply_eq w (omega arith) (sym (append-nil w.transport))
  resend_logs enc (m ∷ ms) topic n w =
      let next : World F Log = record w { transport = w.transport ++ (topic, wire m) ∷ [] } in
      rw (enc m, resend)
        (resend_logs enc ms topic (n + 1) next
          ∙ reply_eq w (omega arith)
              (append_assoc w.transport ((topic, wire m) ∷ []) (map (λ x. (topic, wire x)) ms)))

  -- Over a transport that does not fail, and if every message can be encoded, the requested
  -- messages go out in the order of the requests, the result is their number, and nothing else
  -- changes.
  handle_repair_requests_logs :
      Encodes
      → (topic : String) (reqs : List HistoryEntry) (w : World F Log)
      → let ms = to_resend env logging reqs w.channel.outgoing_buffer in
        handle_repair_requests env logging topic reqs w
        ≡ (ok (length ms), record w { transport = w.transport ++ map (λ m. (topic, wire m)) ms })
  unfolding handle_repair_requests to_resend
  handle_repair_requests_logs enc topic [] w = reply_eq w refl (sym (append-nil w.transport))
  handle_repair_requests_logs enc topic (r ∷ rs) w =
      resend_logs enc (to_resend env logging (r ∷ rs) w.channel.outgoing_buffer) topic 0 w
      ∙ reply_eq w (omega arith) refl
