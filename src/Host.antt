-- ===== src/Host.antt =====
-- simulboot-host/src/main.rs: the host's side of one connection, and its configuration in Config.
-- The stream to the compositor is the bytes written so far. Laws has what the loop answers.
pub mod Config
pub mod Laws
pub mod Termination
pub mod Frames
mod Examples
use simulboot.Base.{
  ℕ, zero, suc, Bool, Option, none, some, List, [], ◌∷◌, ◌++◌, if◌then◌else◌, Bytes, bytes_eq, ok,
  err,
}
use simulboot.Wire.{
  SurfaceId, SurfaceAnnounce, InputEvent, StructureMessage, announce, suspend_ack, reconnect_ok,
  reconnect_fail, input_event, resize, suspend, reconnect, disconnect, WireError, FrameHeader,
}
use simulboot.Wire.Frame.{Postcard, encode_frame}
use simulboot.Wire.Stream.{ReadResult, ReadError, Received, read_message}

-- What the network and the capture backend do: whether a write goes through after these bytes, and
-- whether the backend still takes an event after these.
pub record Peer (F : Type 0) : Type 0 where
  pub writes : Bytes → Bytes → Bool
  pub takes : List (InputEvent F) → Bool

-- How the loop ends: one of its three breaks, or an error of a read or a write.
pub data Ending : Type 0 where
  closed disconnected backend_gone read_failed write_failed out_of_fuel : Ending

pub record Connection (F : Type 0) : Type 0 where
  pub written : Bytes
  pub routed : List (InputEvent F)

module _ {F E : Type 0} (pc : Postcard (StructureMessage F) E) (peer : Peer F) where
  -- `send_message`; `none` is an error
  unfoldable pub send_message : StructureMessage F → Connection F → Option (Connection F)
  send_message msg conn = elim (encode_frame pc msg) [
    | err e ↦ none
    | ok frame ↦
        if peer.writes conn.written frame
        then some (record conn { written = conn.written ++ frame })
        else none
  ]

  unfoldable pub reply : StructureMessage F → Connection F → Connection F × Option Ending
  reply msg conn = elim (send_message msg conn) [
    | some conn' ↦ (conn', none)
    | none ↦ (conn, some write_failed)
  ]

  -- One message, and how the loop ends if it does.
  unfoldable pub handle_message :
      SurfaceAnnounce → StructureMessage F → Connection F → Connection F × Option Ending
  handle_message own (input_event sid event) conn =
      if bytes_eq sid own.id
      then (if peer.takes conn.routed
          then (record conn { routed = conn.routed ++ event ∷ [] }, none)
          else (conn, some backend_gone))
      else (conn, none)
  handle_message own (resize sid width height) conn = (conn, none)
  handle_message own suspend conn = reply suspend_ack conn
  handle_message own (reconnect session_id) conn = reply (reconnect_ok own) conn
  handle_message own disconnect conn = (conn, some disconnected)
  handle_message own (announce other) conn = (conn, none)
  handle_message own suspend_ack conn = (conn, none)
  handle_message own (reconnect_ok other) conn = (conn, none)
  handle_message own (reconnect_fail reason) conn = (conn, none)

  -- The control loop; each turn reads one message, so `fuel` bounds the messages.
  unfoldable pub control_loop :
      ℕ → SurfaceAnnounce → List ReadResult → Bytes → Connection F → Connection F × Ending
  control_loop zero own stream buf conn = (conn, out_of_fuel)
  control_loop (suc fuel) own stream buf conn =
      let got = read_message pc stream buf in
      elim got.result [
        | err e ↦ (conn, read_failed)
        | ok none ↦ (conn, closed)
        | ok (some msg) ↦
            (let (conn', ending) = handle_message own msg conn in
              elim ending [
                | some why ↦ (conn', why)
                | none ↦ control_loop fuel own got.stream got.buf conn'
              ])
      ]

  -- The connection from its announce on.
  unfoldable pub serve_connection : ℕ → SurfaceAnnounce → List ReadResult → Connection F × Ending
  serve_connection fuel own stream =
      elim (send_message (announce own) (record { written = []; routed = [] })) [
        | none ↦ (record { written = []; routed = [] }, write_failed)
        | some conn ↦ control_loop fuel own stream [] conn
      ]
