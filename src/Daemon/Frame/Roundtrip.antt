-- ===== src/Daemon/Frame/Roundtrip.antt =====
-- Frames of cli/src/daemon/frame.rs are read back, up to the ceiling that only the reader knows.
use lmao.Prelude.{
  ◌%◌, ◌^◌, ◌≤◌, ◌<◌, ◌≡◌, refl, sym, ap, ◌∙◌, true, false, Option, some, [], ◌++◌, length,
  length-append, ltb, lt→ltb, ge→ltb, arith,
}
use mathlib.Core.List.{append_assoc}
use lmao.Prelude.Result.{ok, err}
use lmao.Prelude.Words.{
  le_bytes, le_value, length-le_bytes, le_value-le_bytes, take-append, drop-append,
}
use lmao.Sds.Message.{Bytes}
use lmao.Daemon.Frame.{
  too_large, max_frame_bytes, read_exact, read_body, parsed, read_frame, write_frame,
}

read_exact-append : (xs ys : Bytes) → read_exact (length xs) (xs ++ ys) ≡ some (xs, ys)
unfolding read_exact
read_exact-append xs ys =
    let enough : ltb (length (xs ++ ys)) (length xs) ≡ false =
      ge→ltb (length (xs ++ ys)) (length xs) (omega (arith, length-append xs ys)) in
    rw (read_exact, enough, take-append xs ys, drop-append xs ys) refl

module _ {A : Type 0} (encode : A → Option Bytes) (decode : Bytes → Option A) where
  -- A message whose JSON is shorter than 2 ^ 32 bytes, written after others that were read, is read
  -- back and what follows it is left, if its JSON has 16 MiB at most; else the reader refuses it and
  -- the JSON stays in the stream.
  pub read_frame-write_frame :
      (v : A) (body rest : Bytes)
      → encode v ≡ some body
      → decode body ≡ some v
      → length body < 2 ^ 32
      → let (r, stream) = write_frame encode v [] in
        (r ≡ ok tt)
        × (length body ≤ max_frame_bytes → read_frame decode (stream ++ rest) ≡ (ok v, rest))
        × (max_frame_bytes < length body
            → read_frame decode (stream ++ rest) ≡ (err (too_large (length body)), body ++ rest))
  unfolding write_frame read_frame
  read_frame-write_frame v body rest written read short =
      let n = length body in
      let head = le_bytes 4 (n % 2 ^ 32) in
      let same : n % 2 ^ 32 ≡ n = omega (arith, short) in
      let len : le_value head ≡ n =
        le_value-le_bytes 4 (n % 2 ^ 32) (omega (arith, short)) ∙ same in
      let first : read_exact 4 ((head ++ body) ++ rest) ≡ some (head, body ++ rest) =
        ap (λ k. read_exact k ((head ++ body) ++ rest)) (sym (length-le_bytes 4 (n % 2 ^ 32)))
        ∙ ap (read_exact (length head)) (append_assoc head body rest)
        ∙ read_exact-append head (body ++ rest) in
      let whole : (write_frame encode v []).1 ++ rest ≡ (head ++ body) ++ rest =
        rw (written, write_frame) refl in
      (
        rw (written, write_frame) refl,
        λ small.
            let fits : ltb max_frame_bytes n ≡ false = ge→ltb max_frame_bytes n small in
            ap (read_frame decode) whole
            ∙ rw (first, read_frame)
                (rw (len, fits)
                  (rw (read_exact-append body rest, read_body) (rw (parsed, read) refl))),
        λ large.
            let over : ltb max_frame_bytes n ≡ true = lt→ltb max_frame_bytes n large in
            ap (read_frame decode) whole ∙ rw (first, read_frame) (rw (len, over) refl),
      )
