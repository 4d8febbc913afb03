-- ===== src/Node/Discovery/Authentic.antt =====
-- `poll_presence` of node/src/discovery.rs believes what is signed.
use lmao.Prelude.{
  ◌≡◌, ◌≢◌, refl, sym, ◌∙◌, ◌⊎◌, inl, inr, ℕ, String, true, false, Option, none, some, List, [],
  ◌∷◌, Member, ◌==◌, eq_iff, Bool-cases,
}
use lmao.Prelude.Dict
use lmao.Prelude.Dict.{lookup-insert}
use lmao.Prelude.Result.{ok, Result-cases}
use lmao.Sds.Message.{Bytes}
use lmao.Crypto.{CryptoApi, AgentIdentity}
use lmao.Presence.{SignatureApi, verify}
use lmao.Node.Peers.{LoadStatus, PresenceAnnouncement, PeerInfo, PeerMap, update_with_load}
use lmao.Node.Poll.{Envelope, agent_card, task, ack, encrypted_task, presence, stream_chunk}
use lmao.Node.Announcing.{load_of, is_accepted, hear, hear_all}

abbrev pub info_of : ℕ → PresenceAnnouncement → Option LoadStatus → PeerInfo
info_of now ann load = record {
  name = ann.name;
  capabilities = ann.capabilities;
  waku_topic = ann.waku_topic;
  ttl_secs = ann.ttl_secs;
  last_seen = now;
  load = load;
}

true_not_false : true ≡ false → ⊥
true_not_false h = cc h

module _ {K V G : Type 0} (decode : Bytes → Option Envelope) (own : String) (crypto : CryptoApi)
    (sigs : SignatureApi K V G) (decode_status : Bytes → Option LoadStatus) (now : ℕ)
    (me : Option AgentIdentity) where
  -- What an announcement that changed a peer's entry was.
  pub record Proven (id : String) (ann : PresenceAnnouncement) (peers : PeerMap) : Type 0 where
    pub own_name : ann.agent_id ≡ id
    pub not_self : id ≢ own
    pub signed : verify sigs ann ≡ ok tt
    pub entry : Dict.lookup id peers ≡ some (info_of now ann (load_of crypto decode_status me ann))

  accepted-verify :
      (ann : PresenceAnnouncement)
      → is_accepted sigs own ann ≡ true
      → (ann.agent_id ≢ own) × (verify sigs ann ≡ ok tt)
  accepted-verify ann h = elim (Bool-cases (ann.agent_id == own)) [
    | inl self ↦
        let refused : is_accepted sigs own ann ≡ false = rw self refl in
        absurd (true_not_false (sym h ∙ refused))
    | inr other ↦ elim (Result-cases (verify sigs ann)) [
      | inl (u, e) ↦ (λ same. true_not_false (sym ((eq_iff ann.agent_id own).1 same) ∙ other), e)
      | inr (x, e) ↦
          let refused : is_accepted sigs own ann ≡ false = rw (other, e) refl in
          absurd (true_not_false (sym h ∙ refused))
    ]
  ]

  hear-Proven :
      (id : String) (o : Option Envelope) (s : ℕ × PeerMap)
      → let s' = hear decode own crypto sigs decode_status now me o s in
        (Dict.lookup id s'.1 ≡ Dict.lookup id s.1)
        ⊎ ((ann : PresenceAnnouncement) × (o ≡ some (presence ann)) × Proven id ann s'.1)
  unfolding update_with_load
  hear-Proven id none s = inl refl
  hear-Proven id (some (agent_card c)) s = inl refl
  hear-Proven id (some (task t)) s = inl refl
  hear-Proven id (some (ack a)) s = inl refl
  hear-Proven id (some (encrypted_task e k)) s = inl refl
  hear-Proven id (some (stream_chunk c)) s = inl refl
  hear-Proven id (some (presence ann)) (count, peers) =
      let load = load_of crypto decode_status me ann in
      elim (Bool-cases (is_accepted sigs own ann)) [
        | inr refused ↦ inl (rw refused refl)
        | inl accepted ↦
            let (not_self, signed) = accepted-verify ann accepted in
            let changed = lookup-insert ann.agent_id id (info_of now ann load) peers in
            elim (Bool-cases (ann.agent_id == id)) [
              | inr other ↦ inl (rw accepted (changed ∙ rw other refl))
              | inl same ↦
                  let e = (eq_iff ann.agent_id id).0 same in
                  inr (
                    ann,
                    refl,
                    record {
                      own_name = e;
                      not_self = λ h. not_self (e ∙ h);
                      signed = signed;
                      entry = rw accepted (changed ∙ rw same refl);
                    },
                  )
            ]
      ]

  -- Polling presence changes the entry of a peer only by a message that holds an announcement under
  -- the peer's own id, signed with the key of that id, and not the node's own; the entry is then the
  -- announcement's, with the load that the node unseals from it.
  pub hear_all-Proven :
      (id : String) (msgs : List Bytes) (s : ℕ × PeerMap)
      → let s' = hear_all decode own crypto sigs decode_status now me msgs s in
        (Dict.lookup id s'.1 ≡ Dict.lookup id s.1)
        ⊎ ((msg : Bytes) × (ann : PresenceAnnouncement) × Member msg msgs
            × (decode msg ≡ some (presence ann))
            × Proven id ann s'.1)
  unfolding hear_all
  hear_all-Proven id [] s = inl refl
  hear_all-Proven id (msg ∷ msgs) s =
      let s1 = hear decode own crypto sigs decode_status now me (decode msg) s in
      elim (hear_all-Proven id msgs s1) [
        | inr (later, ann, m, d, p) ↦ inr (later, ann, inr m, d, p)
        | inl kept ↦ elim (hear-Proven id (decode msg) s) [
          | inl same ↦ inl (kept ∙ same)
          | inr (ann, d, p) ↦ inr (
            msg,
            ann,
            inl refl,
            d,
            record {
              own_name = p.own_name;
              not_self = p.not_self;
              signed = p.signed;
              entry = kept ∙ p.entry;
            },
          )
        ]
      ]
