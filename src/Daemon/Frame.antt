-- ===== src/Daemon/Frame.antt =====
-- crates/logos-messaging-a2a-cli/src/daemon/frame.rs: a message is its length in 4 bytes and its JSON.
-- A stream is the bytes that are in it, with no more to come; serde is `encode` and `decode`.
pub mod Roundtrip
use lmao.Prelude.{ℕ, ◌^◌, ◌%◌, Option, none, some, [], ◌++◌, length, take, drop, ltb, if◌then◌else◌}
use lmao.Prelude.Result.{Result, ok, err}
use lmao.Prelude.Words.{le_bytes, le_value}
use lmao.Sds.Message.{Bytes}

pub data FrameError : Type 0 where
  no_length : FrameError
  too_large : ℕ → FrameError
  no_body : FrameError
  no_value : FrameError

-- `MAX_FRAME_BYTES`, which is 2 ^ 24.
abbrev pub max_frame_bytes : ℕ
max_frame_bytes = 16777216

-- The bytes read and those left.
unfoldable pub read_exact : ℕ → Bytes → Option (Bytes × Bytes)
read_exact n stream = if ltb (length stream) n then none else some (take n stream, drop n stream)

module _ {A : Type 0} where
  abbrev parsed : (Bytes → Option A) → Bytes → Result FrameError A
  parsed decode body = elim (decode body) [ none ↦ err no_value | some v ↦ ok v ]

  abbrev read_body : (Bytes → Option A) → ℕ → Bytes → Result FrameError A × Bytes
  read_body decode len stream = elim (read_exact len stream) [
    | none ↦ (err no_body, [])
    | some (body, rest) ↦ (parsed decode body, rest)
  ]

  unfoldable pub read_frame : (Bytes → Option A) → Bytes → Result FrameError A × Bytes
  read_frame decode stream = elim (read_exact 4 stream) [
    | none ↦ (err no_length, [])
    | some (len_buf, rest) ↦
        let len = le_value len_buf in
        let body = read_body decode len rest in
        if ltb max_frame_bytes len then (err (too_large len), rest) else body
  ]

  -- The stream that is written to comes back with the frame at its end.
  unfoldable pub write_frame : (A → Option Bytes) → A → Bytes → Result FrameError Unit × Bytes
  write_frame encode value stream = elim (encode value) [
    | none ↦ (err no_value, stream)
    | some body ↦ (ok tt, stream ++ le_bytes 4 (length body % 2 ^ 32) ++ body)
  ]
