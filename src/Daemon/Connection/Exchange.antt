-- ===== src/Daemon/Connection/Exchange.antt =====
-- A client of cli/src/daemon/client.rs and the server of server.rs.
use lmao.Prelude.{◌≤◌, ◌≡◌, refl, sym, ap, ◌∙◌, String, Option, some, [], length, arith}
use mathlib.Core.List.{append-nil}
use lmao.Prelude.Result.{Result, ok, err}
use lmao.Sds.Message.{Bytes}
use lmao.Daemon.Frame.{max_frame_bytes, read_frame, write_frame}
use lmao.Daemon.Frame.Roundtrip.{read_frame-write_frame}
use lmao.Daemon.Protocol.{Request, Response}
use lmao.Daemon.Server.{NodeApi, DaemonServer, Daemon, Readings, dispatch}
use lmao.Daemon.Connection.{
  ClientError, daemon_error, responded, sent_frame, handle_connection, accepted, received, send,
}

-- A frame that is alone in the stream.
alone :
    {A : Type 0} (encode : A → Option Bytes) (decode : Bytes → Option A) (v : A) (body : Bytes)
    → encode v ≡ some body
    → decode body ≡ some v
    → length body ≤ max_frame_bytes
    → ((write_frame encode v []).0 ≡ ok tt)
      × ((read_frame decode (write_frame encode v []).1).0 ≡ ok v)
alone encode decode v body written read small =
    let (sent, fits, _) =
      read_frame-write_frame encode decode v body [] written read (omega (arith, small)) in
    (
      sent,
      ap (λ (x : Bytes). (read_frame decode x).0) (sym (append-nil (write_frame encode v []).1))
          ∙ ap (λ (x : Result _ _ × Bytes). x.0) (fits small),
    )

-- What a client is to report of what dispatch gives: an error, with its text, of dispatch or of the
-- response, and else the response.
abbrev pub outcome : Result String Response → Result ClientError Response
outcome (err message) = err (daemon_error message)
outcome (ok (Response.error message)) = err (daemon_error message)
outcome (ok r) = ok r

outcome-accepted : (r : Result String Response) → accepted (responded r) ≡ outcome r
outcome-accepted (err message) = refl
outcome-accepted (ok (Response.info _ _ _ _ _ _ _ _)) = refl
outcome-accepted (ok (Response.discover _)) = refl
outcome-accepted (ok (Response.presence_peers _)) = refl
outcome-accepted (ok (Response.task_send _ _ _)) = refl
outcome-accepted (ok (Response.task_status _)) = refl
outcome-accepted (ok (Response.task_delegate _)) = refl
outcome-accepted (ok (Response.storage_fetch _ _)) = refl
outcome-accepted (ok (Response.trust_list _ _ _)) = refl
outcome-accepted (ok (Response.trust_add _ _ _)) = refl
outcome-accepted (ok (Response.trust_remove _ _ _)) = refl
outcome-accepted (ok (Response.trust_mode _ _ _)) = refl
outcome-accepted (ok (Response.task_history_list _ _)) = refl
outcome-accepted (ok (Response.task_history_get _)) = refl
outcome-accepted (ok Response.shutdown_ack) = refl
outcome-accepted (ok (Response.error _)) = refl

module _ {N F : Type 0} (api : NodeApi N F) (lower : String → String)
    (base64_encode : Bytes → String) (server : DaemonServer) (at : Readings) where
  -- A request of a client is one call of the daemon's dispatch: when dispatch fails or gives an error
  -- response, the client has an error with that text, and else the response; and the daemon is left as
  -- dispatch leaves it; when the JSON of the request and of the response is read back and has 16 MiB
  -- at most.
  pub send-dispatch :
      (encode : Request → Option Bytes) (decode : Bytes → Option Request)
      (encode' : Response → Option Bytes) (decode' : Bytes → Option Response) (request : Request)
      (d : Daemon N F) (body body' : Bytes)
      → let (r, d') = dispatch api lower base64_encode server at request d in
        encode request ≡ some body
        → decode body ≡ some request
        → length body ≤ max_frame_bytes
        → encode' (responded r) ≡ some body'
        → decode' body' ≡ some (responded r)
        → length body' ≤ max_frame_bytes
        → send encode decode'
            (handle_connection api lower base64_encode server at decode encode')
            request
            d
          ≡ (outcome r, d')
  unfolding handle_connection send
  send-dispatch encode decode encode' decode' request d body body' written read small written' read'
        small' =
      let (r, d') = dispatch api lower base64_encode server at request d in
      let answer = responded r in
      let (sent, got) = alone encode decode request body written read small in
      let (sent', got') = alone encode' decode' answer body' written' read' small' in
      rw (send, sent)
        (rw (handle_connection, got)
          (rw (sent_frame, sent')
            (rw (received, got')
              (ap (λ (x : Result ClientError Response). (x, d')) (outcome-accepted r)))))
