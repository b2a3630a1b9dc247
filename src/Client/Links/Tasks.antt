-- ===== src/Client/Links/Tasks.antt =====
-- simulboot-client/src/conn.rs: the three tasks of a link, each on the list of what happens to it, and
-- the operations that talk to them. An `async_channel` is the list of what it holds.
use simulboot.Base.{
  ℕ, zero, suc, Bool, true, false, not, none, some, List, [], ◌∷◌, ◌++◌, ◌==◌, if◌then◌else◌, Bytes,
  Result, ok, err, ◌>>=◌,
}
use simulboot.Wire.{
  SurfaceId, FrameHeader, StructureMessage, announce, suspend_ack, reconnect_ok, reconnect_fail,
  input_event, resize, suspend, reconnect, disconnect,
}
use simulboot.Wire.Frame.{Postcard, encode_frame}
use simulboot.Wire.Stream.{ReadResult, read_message}

pub record FrameEvent : Type 0 where
  pub surface_id : SurfaceId
  pub pts : ℕ

-- How a task ends.
pub data Stopped : Type 0 where
  finished closed failed out_of_fuel : Stopped

-- The write half: the bytes written, and whether it has been finished.
pub record Writer : Type 0 where
  pub written : Bytes
  pub stopped : Stopped

unfoldable pub is_disconnect : {F : Type 0} → StructureMessage F → Bool
is_disconnect disconnect = true
is_disconnect (announce a) = false
is_disconnect suspend_ack = false
is_disconnect (reconnect_ok a) = false
is_disconnect (reconnect_fail reason) = false
is_disconnect (input_event sid event) = false
is_disconnect (resize sid width height) = false
is_disconnect suspend = false
is_disconnect (reconnect id) = false

module _ {F E : Type 0} (pc : Postcard (StructureMessage F) E) (writes : Bytes → Bytes → Bool) where
  -- The writer task, on the messages that the control channel delivers until it is closed. `writes`
  -- says whether a write goes through after these bytes.
  unfoldable pub writer_loop : List (StructureMessage F) → Bytes → Writer
  writer_loop [] written = record { written = written; stopped = closed }
  writer_loop (msg ∷ rest) written = elim (encode_frame pc msg) [
    | err e ↦ writer_loop rest written
    | ok bytes ↦
        let later = writer_loop rest (written ++ bytes) in
        if not (writes written bytes)
        then record { written = written; stopped = failed }
        else if is_disconnect msg
        then record { written = written ++ bytes; stopped = finished }
        else later
  ]

-- `ack_tx.try_send(())` on a channel of one place
unfoldable pub try_send_ack : ℕ → ℕ
try_send_ack held = if held == 0 then 1 else held

module _ {F E : Type 0} (pc : Postcard (StructureMessage F) E) where
  -- One message of the host, on the count of acknowledgements in the channel.
  unfoldable pub absorb : StructureMessage F → ℕ → ℕ
  absorb suspend_ack acks = try_send_ack acks
  absorb (reconnect_ok a) acks = acks
  absorb (reconnect_fail reason) acks = acks
  absorb (announce a) acks = acks
  absorb (input_event sid event) acks = acks
  absorb (resize sid width height) acks = acks
  absorb suspend acks = acks
  absorb (reconnect id) acks = acks
  absorb disconnect acks = acks

  -- The reader task; each turn reads one message, so `fuel` bounds the messages.
  unfoldable pub reader_loop : ℕ → List ReadResult → Bytes → ℕ → ℕ × Stopped
  reader_loop zero stream buf acks = (acks, out_of_fuel)
  reader_loop (suc fuel) stream buf acks =
      let got = read_message pc stream buf in
      elim got.result [
        | err e ↦ (acks, failed)
        | ok none ↦ (acks, closed)
        | ok (some msg) ↦ reader_loop fuel got.stream got.buf (absorb msg acks)
      ]

module _ {E : Type 0} (headers : Postcard FrameHeader E) where
  -- `decode_datagram`: the mismatch of lengths is only logged.
  unfoldable pub decode_datagram : Bytes → Result E FrameEvent
  decode_datagram datagram = headers.take_from_bytes datagram >>= λ parts.
      ok (record { surface_id = parts.0.surface_id; pts = parts.0.pts })

  -- The datagram pump, on the datagrams until the connection closes: the events that it sends on.
  unfoldable pub pump : List Bytes → List FrameEvent
  pump [] = []
  pump (datagram ∷ rest) = elim (decode_datagram datagram) [
    | ok ev ↦ ev ∷ pump rest
    | err e ↦ pump rest
  ]

-- `Link::suspend`, past the timer: whether the host's acknowledgement or the timeout comes first,
-- after a control channel that has taken the message or is closed.
unfoldable pub suspend_link : Bool → ℕ → Bool
suspend_link sent acks = if not sent then false else not (acks == 0)
