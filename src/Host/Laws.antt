-- ===== src/Host/Laws.antt =====
-- simulboot-host/src/main.rs: the control loop answers the messages that the compositor has sent, in
-- order, however they arrive; and what it answers.
use simulboot.Base.{
  ℕ, zero, suc, ◌<◌, ◌≡◌, refl, sym, ap, ◌∙◌, inl, inr, true, false, none, some, List, [], ◌∷◌,
  ◌++◌, append-nil, append_assoc, arith, if◌then◌else◌, Bool-cases, Option-cases, Bytes, length,
  bytes_eq, ok,
}
use simulboot.Wire.{
  SurfaceId, SurfaceAnnounce, InputEvent, StructureMessage, announce, suspend_ack, reconnect_ok,
  reconnect_fail, input_event, resize, suspend, reconnect, disconnect,
}
use simulboot.Wire.Frame.{Postcard, RoundTrips, encode_frame}
use simulboot.Wire.Stream.{ReadResult, read_message}
use simulboot.Wire.Stream.Laws.{Flows, contents, Sends, Receives, read_message_reassembles}
use simulboot.Host.{
  Peer, Ending, closed, disconnected, Connection, send_message, reply, handle_message, control_loop,
}

module _ {F E : Type 0} (pc : Postcard (StructureMessage F) E) (peer : Peer F)
    (own : SurfaceAnnounce) where
  -- The messages in order, until one ends the loop.
  abbrev pub run : List (StructureMessage F) → Connection F → Connection F × Ending
  run [] conn = (conn, closed)
  run (m ∷ ms) conn = elim (handle_message pc peer own m conn).1 [
    | some why ↦ ((handle_message pc peer own m conn).0, why)
    | none ↦ run ms (handle_message pc peer own m conn).0
  ]

  run_goes :
      (m : StructureMessage F) (ms : List (StructureMessage F)) (conn : Connection F)
      → (handle_message pc peer own m conn).1 ≡ none
      → run (m ∷ ms) conn ≡ run ms (handle_message pc peer own m conn).0
  run_goes m ms conn goes = rw (goes, run) refl

  run_ends :
      (m : StructureMessage F) (ms : List (StructureMessage F)) (conn : Connection F) {why : Ending}
      → (handle_message pc peer own m conn).1 ≡ some why
      → run (m ∷ ms) conn ≡ ((handle_message pc peer own m conn).0, why)
  run_ends m ms conn ends = rw (ends, run) refl

  run_to :
      (m : StructureMessage F) (ms : List (StructureMessage F)) (conn : Connection F)
      {conn' : Connection F}
      → handle_message pc peer own m conn ≡ (conn', none)
      → run (m ∷ ms) conn ≡ run ms conn'
  run_to m ms conn h = run_goes m ms conn (ap (λ r. r.1) h) ∙ ap (λ r. run ms r.0) h

  loop_closed :
      (fuel : ℕ) (stream : List ReadResult) (buf : Bytes) (conn : Connection F)
      → (read_message pc stream buf).result ≡ ok none
      → control_loop pc peer (suc fuel) own stream buf conn ≡ (conn, closed)
  unfolding control_loop
  loop_closed fuel stream buf conn got = ground arith

  loop_ends :
      (fuel : ℕ) (stream : List ReadResult) (buf : Bytes) (conn : Connection F)
      {m : StructureMessage F} {why : Ending}
      → (read_message pc stream buf).result ≡ ok (some m)
      → (handle_message pc peer own m conn).1 ≡ some why
      → control_loop pc peer (suc fuel) own stream buf conn
        ≡ ((handle_message pc peer own m conn).0, why)
  unfolding control_loop
  loop_ends fuel stream buf conn got ends = ground arith

  loop_goes :
      (fuel : ℕ) (stream : List ReadResult) (buf : Bytes) (conn : Connection F)
      {m : StructureMessage F}
      → (read_message pc stream buf).result ≡ ok (some m)
      → (handle_message pc peer own m conn).1 ≡ none
      → control_loop pc peer (suc fuel) own stream buf conn
        ≡ control_loop pc peer fuel own
            (read_message pc stream buf).stream
            (read_message pc stream buf).buf
            (handle_message pc peer own m conn).0
  unfolding control_loop
  loop_goes fuel stream buf conn got goes = ground arith

  control_loop-Receives :
      (ms : List (StructureMessage F)) (fuel : ℕ) (stream : List ReadResult) (buf : Bytes)
      (conn : Connection F)
      → length ms < fuel
      → Receives pc stream buf ms
      → control_loop pc peer fuel own stream buf conn ≡ run ms conn
  control_loop-Receives ms zero stream buf conn enough got = absurd (omega arith)
  control_loop-Receives [] (suc fuel) stream buf conn enough got =
      loop_closed fuel stream buf conn got
  control_loop-Receives (m ∷ ms) (suc fuel) stream buf conn enough got =
      let rest =
        control_loop-Receives ms fuel (read_message pc stream buf).stream
          (read_message pc stream buf).buf (handle_message pc peer own m conn).0 (omega arith)
          got.1 in
      elim (Option-cases (handle_message pc peer own m conn).1) [
        | inl goes ↦
            loop_goes fuel stream buf conn (got.0) goes ∙ rest ∙ sym (run_goes m ms conn goes)
        | inr (why, ends) ↦
            loop_ends fuel stream buf conn (got.0) ends ∙ sym (run_ends m ms conn ends)
      ]

  -- Whatever the peer does: where the compositor has sent the framed messages `ms` and the fuel
  -- exceeds their number, the control loop handles exactly these in order until one ends it, however
  -- the stream cuts them into reads.
  pub control_loop-messages :
      (ms : List (StructureMessage F)) (bytes : Bytes) (stream : List ReadResult) (fuel : ℕ)
      (conn : Connection F)
      → RoundTrips pc
      → Sends pc ms bytes
      → contents stream ≡ bytes
      → Flows stream
      → length ms < fuel
      → control_loop pc peer fuel own stream [] conn ≡ run ms conn
  control_loop-messages ms bytes stream fuel conn trip sent whole flows enough =
      control_loop-Receives ms fuel stream [] conn enough
        (read_message_reassembles pc ms bytes stream trip sent whole flows)

  -- The input events for the surface, the answers, and the end, up to the first `Disconnect`.
  unfoldable pub events : List (StructureMessage F) → List (InputEvent F)
  events [] = []
  events (input_event sid event ∷ ms) =
      let rest = events ms in if bytes_eq sid own.id then event ∷ rest else rest
  events (disconnect ∷ ms) = []
  events (_ ∷ ms) = events ms

  unfoldable pub answers : Bytes → Bytes → List (StructureMessage F) → Bytes
  answers ack again [] = []
  answers ack again (suspend ∷ ms) = ack ++ answers ack again ms
  answers ack again (reconnect session_id ∷ ms) = again ++ answers ack again ms
  answers ack again (disconnect ∷ ms) = []
  answers ack again (_ ∷ ms) = answers ack again ms

  unfoldable pub ending : List (StructureMessage F) → Ending
  ending [] = closed
  ending (disconnect ∷ ms) = disconnected
  ending (_ ∷ ms) = ending ms

  reply-writes :
      (msg : StructureMessage F) (conn : Connection F) {frame : Bytes}
      → encode_frame pc msg ≡ ok frame
      → peer.writes conn.written frame ≡ true
      → reply pc peer msg conn ≡ (record conn { written = conn.written ++ frame }, none)
  unfolding reply send_message
  reply-writes msg conn framed writes = ground arith

  takes_event :
      (sid : SurfaceId) (event : InputEvent F) (conn : Connection F)
      → bytes_eq sid own.id ≡ true
      → peer.takes conn.routed ≡ true
      → handle_message pc peer own (input_event sid event) conn
        ≡ (record conn { routed = conn.routed ++ event ∷ [] }, none)
  unfolding handle_message
  takes_event sid event conn mine takes = rw mine (rw takes refl)

  passes_event :
      (sid : SurfaceId) (event : InputEvent F) (conn : Connection F)
      → bytes_eq sid own.id ≡ false
      → handle_message pc peer own (input_event sid event) conn ≡ (conn, none)
  unfolding handle_message
  passes_event sid event conn other = rw other refl

  -- Where every write goes through, the backend takes every event, and the two answers have frames
  -- `ack` and `again`: each `Suspend` is answered by one `SuspendAck` and each `Reconnect` by one
  -- `ReconnectOk`, the events for the own surface and no others reach the backend, all in order, and
  -- only `Disconnect` or the end of the messages ends the loop.
  pub run-answers :
      (ack again : Bytes)
      → ((sent frame : Bytes) → peer.writes sent frame ≡ true)
      → ((taken : List (InputEvent F)) → peer.takes taken ≡ true)
      → encode_frame pc suspend_ack ≡ ok ack
      → encode_frame pc (reconnect_ok own) ≡ ok again
      → (ms : List (StructureMessage F)) (conn : Connection F)
      → run ms conn ≡ (
        record {
          written = conn.written ++ answers ack again ms;
          routed = conn.routed ++ events ms;
        },
        ending ms,
      )
  unfolding handle_message events answers ending
  run-answers ack again writes takes acks agains [] conn =
      rw (append-nil conn.written) (rw (append-nil conn.routed) refl)
  run-answers ack again writes takes acks agains (suspend ∷ ms) conn =
      run_to suspend ms conn (reply-writes suspend_ack conn acks (writes conn.written ack))
      ∙ run-answers ack again writes takes acks agains ms _
      ∙ rw (append_assoc conn.written ack (answers ack again ms)) refl
  run-answers ack again writes takes acks agains (reconnect id ∷ ms) conn =
      run_to (reconnect id) ms conn
        (reply-writes (reconnect_ok own) conn agains (writes conn.written again))
      ∙ run-answers ack again writes takes acks agains ms _
      ∙ rw (append_assoc conn.written again (answers ack again ms)) refl
  run-answers ack again writes takes acks agains (disconnect ∷ ms) conn =
      rw (append-nil conn.written) (rw (append-nil conn.routed) refl)
  run-answers ack again writes takes acks agains (input_event sid event ∷ ms) conn =
      elim (Bool-cases (bytes_eq sid own.id)) [
        | inl mine ↦
            run_to (input_event sid event) ms conn
              (takes_event sid event conn mine (takes conn.routed))
            ∙ run-answers ack again writes takes acks agains ms _
            ∙ rw mine (rw (append_assoc conn.routed (event ∷ []) (events ms)) refl)
        | inr other ↦
            run_to (input_event sid event) ms conn (passes_event sid event conn other)
            ∙ run-answers ack again writes takes acks agains ms conn
            ∙ rw other refl
      ]
  run-answers ack again writes takes acks agains (announce a ∷ ms) conn =
      run-answers ack again writes takes acks agains ms conn
  run-answers ack again writes takes acks agains (suspend_ack ∷ ms) conn =
      run-answers ack again writes takes acks agains ms conn
  run-answers ack again writes takes acks agains (reconnect_ok a ∷ ms) conn =
      run-answers ack again writes takes acks agains ms conn
  run-answers ack again writes takes acks agains (reconnect_fail a ∷ ms) conn =
      run-answers ack again writes takes acks agains ms conn
  run-answers ack again writes takes acks agains (resize sid width height ∷ ms) conn =
      run-answers ack again writes takes acks agains ms conn
