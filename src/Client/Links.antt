-- ===== src/Client/Links.antt =====
-- simulboot-client/src/conn.rs: the connection to one host. `dial` is the QUIC endpoint: the reads of
-- the structure stream that the host opens, or an error. `send` is what becomes of a write to the
-- host, and an error is the message of its `anyhow` error. Tasks has the three tasks of a link.
pub mod Tasks
pub mod Laws
use simulboot.Base.{
  Bool, Option, none, some, List, [], ◌++◌, if◌then◌else◌, Bytes, codes, Result, ok, err, ◌>>=◌,
}
use simulboot.Wire.{
  SurfaceAnnounce, SurfaceId, InputEvent, StructureMessage, announce, suspend_ack, reconnect_ok,
  reconnect_fail, input_event, resize, suspend, reconnect, disconnect, WireError,
}
use simulboot.Wire.Frame.{Postcard, encode_frame}
use simulboot.Wire.Stream.{ReadResult, ReadError, Received, read_message}

-- `Link`, with what its tasks own: the rest of the host's stream and the bytes read off it, and the
-- bytes written so far. The channels are in Tasks.
pub record Link (A : Type 0) : Type 0 where
  pub announce : SurfaceAnnounce
  pub host_addr : A
  pub stream : List ReadResult
  pub buf : Bytes
  pub written : Bytes

-- What stands around a link: the endpoint, the writes, and the prints in messages.
pub record Network (F A E : Type 0) : Type 0 where
  pub dial : A → Result Bytes (List ReadResult)
  pub writes : A → Bytes → Bool
  pub show_addr : A → Bytes
  pub show_message : StructureMessage F → Bytes
  pub show_read : ReadError E → Bytes
  pub show_wire : WireError E → Bytes

-- `map_err`, and `?` from one error to another
unfoldable pub map_err : {E E' A : Type 0} → (E → E') → Result E A → Result E' A
map_err g (ok a) = ok a
map_err g (err e) = err (g e)

module _ {F A E : Type 0} (pc : Postcard (StructureMessage F) E) (net : Network F A E) where
  -- The first message of the host.
  unfoldable pub first_announce : Option (StructureMessage F) → Result Bytes SurfaceAnnounce
  first_announce none = err (codes "host closed structure stream before announcing")
  first_announce (some (announce a)) = ok a
  first_announce (some (reconnect_ok a)) = ok a
  first_announce (some suspend_ack) =
      err (codes "expected Announce from host, got " ++ net.show_message suspend_ack)
  first_announce (some (reconnect_fail reason)) =
      err (codes "expected Announce from host, got " ++ net.show_message (reconnect_fail reason))
  first_announce (some (input_event sid event)) =
      err (codes "expected Announce from host, got " ++ net.show_message (input_event sid event))
  first_announce (some (resize sid width height)) =
      err (codes "expected Announce from host, got " ++ net.show_message (resize sid width height))
  first_announce (some suspend) =
      err (codes "expected Announce from host, got " ++ net.show_message suspend)
  first_announce (some (reconnect id)) =
      err (codes "expected Announce from host, got " ++ net.show_message (reconnect id))
  first_announce (some disconnect) =
      err (codes "expected Announce from host, got " ++ net.show_message disconnect)

  -- The `Reconnect` of a resume, as the bytes written.
  unfoldable pub nudge : A → Option Bytes → Result Bytes Bytes
  nudge addr none = ok []
  nudge addr (some session_id) =
      map_err net.show_wire (encode_frame pc (reconnect session_id)) >>= λ frame.
      if net.writes addr frame then ok frame else err (codes "sending Reconnect")

  unfoldable pub connect : A → Option Bytes → Result Bytes (Link A)
  connect addr resume_session_id = net.dial addr >>= λ stream.
      let got = read_message pc stream [] in
      map_err net.show_read got.result >>= λ message. first_announce message >>= λ a.
      nudge addr resume_session_id >>= λ written. ok (record {
        announce = a;
        host_addr = addr;
        stream = got.stream;
        buf = got.buf;
        written = written;
      })
