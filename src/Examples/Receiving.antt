-- ===== src/Examples/Receiving.antt =====
-- The theorems on `receive` and its parts at concrete inputs.
use lmao.Prelude.{◌≡◌, refl, [], ◌∷◌, ◌++◌, map, All, Perm, arith}
use lmao.Sds.Message.{content_message}
use lmao.Sds.Bloom
use lmao.Sds.State.{record_in_history, update_timestamp}
use lmao.Sds.Channel.{
  resolve_buffered, resolve_loop, resolve_pass, resolve_step, receive, receive_message, accept,
  dependencies_satisfied,
}
use lmao.Sds.Channel.Resolve.{IsBlocked, resolve_buffered_complete}
use lmao.Sds.Channel.Causal.{CausalRun, resolve_buffered-Follows}
use lmao.Sds.Channel.Receive.{Accepts, receive-Accepts}
use lmao.Sds.Channel.Dedup.{receive_twice}
use lmao.Sds.Channel.Copies.{receive_copies}
use lmao.Sds.Channel.Bounds.{InBounds, receive-InBounds}
use lmao.Examples.Setup.{toy_env, toy_laws, fresh, waiting, first, second}

-- Out of order: `second` waits, and `first` brings both.
deliver_in_order :
    (receive toy_env (1 ∷ []) (receive toy_env (2 ∷ []) fresh).1).0 ≡ first ∷ second ∷ []
unfolding receive receive_message accept resolve_buffered resolve_loop resolve_pass resolve_step
    dependencies_satisfied record_in_history update_timestamp Bloom.set
deliver_in_order = refl

receive-Accepts_example :
    Accepts toy_env (content_message first) waiting (receive toy_env (1 ∷ []) waiting)
receive-Accepts_example = receive-Accepts toy_env (1 ∷ []) (content_message first) waiting refl refl

resolve_buffered_complete_example :
    All
      (IsBlocked toy_env (resolve_buffered toy_env waiting).1.bloom)
      (resolve_buffered toy_env waiting).1.incoming_buffer
resolve_buffered_complete_example = resolve_buffered_complete toy_env waiting

resolve_buffered-Follows_example :
    CausalRun toy_env waiting.bloom
      (resolve_buffered toy_env waiting).0
      (resolve_buffered toy_env waiting).1.bloom
    × Perm
        (map content_message (resolve_buffered toy_env waiting).0
          ++ (resolve_buffered toy_env waiting).1.incoming_buffer)
        (content_message second ∷ [])
resolve_buffered-Follows_example = resolve_buffered-Follows toy_env waiting

receive_twice_example :
    receive toy_env (1 ∷ []) (receive toy_env (1 ∷ []) fresh).1
    ≡ ([], (receive toy_env (1 ∷ []) fresh).1)
unfolding receive receive_message accept resolve_buffered resolve_loop resolve_pass resolve_step
    dependencies_satisfied record_in_history update_timestamp Bloom.set
receive_twice_example =
    receive_twice toy_env toy_laws (1 ∷ []) (content_message first) fresh refl refl (omega arith)

receive_copies_example :
    (receive toy_env (1 ∷ []) (receive toy_env (2 ∷ []) (receive toy_env (2 ∷ []) fresh).1).1).0
    ≡ first ∷ second ∷ second ∷ []
unfolding dependencies_satisfied Bloom.set
receive_copies_example =
    receive_copies toy_env toy_laws (2 ∷ []) (1 ∷ []) second first fresh refl refl refl refl refl
      refl refl refl (omega arith)

fresh-InBounds : InBounds fresh
fresh-InBounds = omega arith

receive-InBounds_example : InBounds (receive toy_env (1 ∷ []) fresh).1
receive-InBounds_example = receive-InBounds toy_env (1 ∷ []) fresh fresh-InBounds
