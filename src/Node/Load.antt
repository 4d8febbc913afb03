-- ===== src/Node/Load.antt =====
-- crates/logos-messaging-a2a-node/src/lib.rs: the counter of running tasks and the load that the node
-- advertises. Nothing else changes the counter between the steps of a method, so that the loop of
-- `load_dec` ends in its first round; the counter is below 2 ^ 32.
use lmao.Prelude.{ℕ, suc, ◌+◌, max, zero, Bool, leb}
use lmao.Node.Peers.{LoadStatus, from_load}

pub record Load : Type 0 where
  pub in_flight : ℕ
  pub max_concurrent : ℕ

abbrev pub with_max_concurrent : ℕ → Load → Load
with_max_concurrent n l = record l { max_concurrent = max n 1 }

abbrev pub load_inc : Load → Load
load_inc l = record l { in_flight = l.in_flight + 1 }

abbrev pub predecessor : ℕ → ℕ
predecessor zero = zero
predecessor (suc n) = n

abbrev pub load_dec : Load → Load
load_dec l = record l { in_flight = predecessor l.in_flight }

abbrev pub current_load_status : Load → LoadStatus
current_load_status l = record {
  bucket = from_load l.in_flight l.max_concurrent;
  queue_depth = l.in_flight;
  max_concurrent = l.max_concurrent;
  avg_latency_ms = 0;
}

abbrev pub is_at_capacity : Load → Bool
is_at_capacity l = leb l.max_concurrent l.in_flight
