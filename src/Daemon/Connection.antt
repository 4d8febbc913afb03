-- ===== src/Daemon/Connection.antt =====
-- crates/logos-messaging-a2a-cli/src/daemon/client.rs and the connections of server.rs: one request and one
-- response in frames. A server that fails closes the connection.
pub mod Exchange
use lmao.Prelude.{String, Option, []}
use lmao.Prelude.Result.{Result, ok, err}
use lmao.Sds.Message.{Bytes}
use lmao.Daemon.Frame.{FrameError, read_frame, write_frame}
use lmao.Daemon.Protocol.{Request, Response}
use lmao.Daemon.Server.{NodeApi, DaemonServer, Daemon, Readings, dispatch}

abbrev pub responded : Result String Response → Response
responded (err message) = Response.error message
responded (ok r) = r

abbrev sent_frame : Result FrameError Unit × Bytes → Result FrameError Bytes
sent_frame (err e, stream) = err e
sent_frame (ok _, stream) = ok stream

module _ {N F : Type 0} (api : NodeApi N F) (lower : String → String)
    (base64_encode : Bytes → String) (server : DaemonServer) (at : Readings)
    (decode : Bytes → Option Request) (encode : Response → Option Bytes) where
  -- The bytes that the server sends, unless a frame fails.
  unfoldable pub handle_connection : Bytes → Daemon N F → Result FrameError Bytes × Daemon N F
  handle_connection stream d = elim (read_frame decode stream).0 [
    | err e ↦ (err e, d)
    | ok request ↦
        let (r, d') = dispatch api lower base64_encode server at request d in
        (sent_frame (write_frame encode (responded r) []), d')
  ]

pub data ClientError : Type 0 where
  framing : FrameError → ClientError
  no_response : ClientError
  daemon_error : String → ClientError

abbrev pub accepted : Response → Result ClientError Response
accepted (Response.error message) = err (daemon_error message)
accepted r = ok r

abbrev answered : Result FrameError Response → Result ClientError Response
answered (err e) = err (framing e)
answered (ok r) = accepted r

abbrev received : (Bytes → Option Response) → Result FrameError Bytes → Result ClientError Response
received decode (err e) = err no_response
received decode (ok bytes) = answered (read_frame decode bytes).0

-- A client's `send` over a connection that `serve` handles.
unfoldable pub send :
    {N F : Type 0}
    → (Request → Option Bytes)
    → (Bytes → Option Response)
    → (Bytes → Daemon N F → Result FrameError Bytes × Daemon N F)
    → Request
    → Daemon N F
    → Result ClientError Response × Daemon N F
send encode decode serve request d =
    let (w, stream) = write_frame encode request [] in
    elim w [
      | err e ↦ (err (framing e), d)
      | ok _ ↦ let (bytes, d') = serve stream d in (received decode bytes, d')
    ]
