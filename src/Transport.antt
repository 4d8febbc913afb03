-- ===== src/Transport.antt =====
-- crates/logos-messaging-a2a-transport/src/lib.rs: the transport trait and its errors.
-- An operation takes the state of the transport and returns the new one. A receiver of
-- `tokio::sync::mpsc` is the type `R`; `recv_timeout` is its `recv` under `tokio::time::timeout`,
-- which yields nothing when the time is up or the channel is closed.
pub mod Memory
use Prim.Native.String
use lmao.Prelude.{ℕ, String, Option, List}
use lmao.Prelude.Result.{Result}

abbrev pub concat : String → String → String
concat a b = String.◌++◌ a b

pub data TransportError : Type 0 where
  transport_error : String → TransportError
  serialization_error : String → TransportError
  other_error : String → TransportError

-- `Display`
abbrev pub display : TransportError → String
display (transport_error s) = s
display (serialization_error s) = concat "serialization error: " s
display (other_error s) = s

pub record Transport (T R : Type 0) : Type 0 where
  pub publish : String → List ℕ → T → Result TransportError Unit × T
  pub subscribe : String → T → Result TransportError R × T
  pub unsubscribe : String → T → Result TransportError Unit × T
  pub recv_timeout : ℕ → R → T → Option (List ℕ) × R × T
