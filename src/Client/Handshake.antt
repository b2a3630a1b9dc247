-- ===== src/Client/Handshake.antt =====
-- simulboot-client/src/conn.rs against simulboot-host/src/main.rs: the writer of a link, the control
-- loop of the host, and the reader of the link, one behind another.
use simulboot.Base.{
  ℕ, ◌+◌, ◌≤◌, ◌<◌, ◌≡◌, refl, sym, ap, ◌∙◌, Bool, true, false, none, List, [], ◌∷◌, ◌++◌,
  append-nil, append_assoc, arith, Bytes, length, All, ok,
}
use simulboot.Wire.{
  SurfaceAnnounce, InputEvent, StructureMessage, announce, suspend_ack, reconnect_ok, suspend,
  reconnect, disconnect, max_frame_len,
}
use simulboot.Wire.Frame.{Postcard, RoundTrips, encode_frame}
use simulboot.Wire.Stream.{ReadResult}
use simulboot.Wire.Stream.Laws.{Flows, contents, Sends}
use simulboot.Host.{Peer, Connection, send_message, control_loop, serve_connection}
use simulboot.Host.Laws.{control_loop-messages, run-answers, answers}
use simulboot.Client.Links.{Link, Network, connect}
use simulboot.Client.Links.Tasks.{writer_loop, reader_loop, is_disconnect, suspend_link}
use simulboot.Client.Links.Laws.{any_ack, connect-reader_loop}

module _ {F E : Type 0} (pc : Postcard (StructureMessage F) E) where
  -- The message has a frame of at most the maximal length.
  abbrev pub Framed : StructureMessage F → Type 0
  Framed m = (frame : Bytes) × (encode_frame pc m ≡ ok frame) × (length frame ≤ 4 + max_frame_len)

  abbrev pub frames_of : (ms : List (StructureMessage F)) → All Framed ms → Bytes
  frames_of [] h = []
  frames_of (m ∷ ms) h = (h.0).0 ++ frames_of ms h.1

  frames_of-Sends :
      (ms : List (StructureMessage F)) (h : All Framed ms) → Sends pc ms (frames_of ms h)
  frames_of-Sends [] h = refl
  frames_of-Sends (m ∷ ms) ((frame, framed, fits), later) =
      (frame, frames_of ms later, refl, framed, fits, frames_of-Sends ms later)

  abbrev pub Stays : List (StructureMessage F) → Type 0
  Stays ms = All (λ m. is_disconnect m ≡ false) ms

  writer_writes :
      (writes : Bytes → Bytes → Bool) (m : StructureMessage F) (ms : List (StructureMessage F))
      (written : Bytes) {frame : Bytes}
      → encode_frame pc m ≡ ok frame
      → writes written frame ≡ true
      → is_disconnect m ≡ false
      → writer_loop pc writes (m ∷ ms) written ≡ writer_loop pc writes ms (written ++ frame)
  unfolding writer_loop
  writer_writes writes m ms written framed through stays = ground arith

  -- Where every write goes through, the writer task writes the frames of its messages in order.
  writer_loop-frames_of :
      (writes : Bytes → Bytes → Bool)
      → ((sent frame : Bytes) → writes sent frame ≡ true)
      → (ms : List (StructureMessage F)) (h : All Framed ms) (written : Bytes) → Stays ms
      → (writer_loop pc writes ms written).written ≡ written ++ frames_of ms h
  unfolding writer_loop
  writer_loop-frames_of writes through [] h written stays = sym (append-nil written)
  writer_loop-frames_of writes through (m ∷ ms) ((frame, framed, fits), later) written stays =
      ap (λ w. w.written)
        (writer_writes writes m ms written framed (through written frame) (stays.0))
      ∙ writer_loop-frames_of writes through ms later (written ++ frame) (stays.1)
      ∙ append_assoc written frame (frames_of ms later)

  -- A `Suspend` is among the messages.
  unfoldable pub any_suspend : List (StructureMessage F) → Bool
  any_suspend [] = false
  any_suspend (suspend ∷ ms) = true
  any_suspend (_ ∷ ms) = any_suspend ms

  module _ (own : SurfaceAnnounce) where
    -- What the host replies to the messages, none of which is a `Disconnect`.
    pub replies : List (StructureMessage F) → List (StructureMessage F)
    replies [] = []
    replies (suspend ∷ ms) = suspend_ack ∷ replies ms
    replies (reconnect id ∷ ms) = reconnect_ok own ∷ replies ms
    replies (_ ∷ ms) = replies ms

    answers-Sends :
        (ack again : Bytes)
        → encode_frame pc suspend_ack ≡ ok ack
        → length ack ≤ 4 + max_frame_len
        → encode_frame pc (reconnect_ok own) ≡ ok again
        → length again ≤ 4 + max_frame_len
        → (peer : Peer F) (ms : List (StructureMessage F)) → Stays ms
        → Sends pc (replies ms) (answers pc peer own ack again ms)
    unfolding replies answers is_disconnect
    answers-Sends ack again acks small agains little peer [] stays = refl
    answers-Sends ack again acks small agains little peer (suspend ∷ ms) stays = (
      ack,
      answers pc peer own ack again ms,
      refl,
      acks,
      small,
      answers-Sends ack again acks small agains little peer ms stays.1,
    )
    answers-Sends ack again acks small agains little peer (reconnect id ∷ ms) stays = (
      again,
      answers pc peer own ack again ms,
      refl,
      agains,
      little,
      answers-Sends ack again acks small agains little peer ms stays.1,
    )
    answers-Sends ack again acks small agains little peer (disconnect ∷ ms) stays = cc (stays.0)
    answers-Sends ack again acks small agains little peer (m ∷ ms) stays =
        answers-Sends ack again acks small agains little peer ms stays.1

    any_ack-replies : (ms : List (StructureMessage F)) → any_ack pc (replies ms) ≡ any_suspend ms
    unfolding any_ack replies any_suspend
    any_ack-replies [] = refl
    any_ack-replies (suspend ∷ ms) = refl
    any_ack-replies (m ∷ ms) = any_ack-replies ms

    length-replies : (ms : List (StructureMessage F)) → length (replies ms) ≤ length ms
    unfolding replies
    length-replies [] = omega arith
    length-replies (suspend ∷ ms) = omega (arith, length-replies ms)
    length-replies (m ∷ ms) = omega (arith, length-replies ms)

    serve_announced :
        (peer : Peer F) (fuel : ℕ) (stream : List ReadResult) {first : Bytes}
        → encode_frame pc (announce own) ≡ ok first
        → peer.writes [] first ≡ true
        → serve_connection pc peer fuel own stream
          ≡ control_loop pc peer fuel own stream [] (record { written = first; routed = [] })
    unfolding serve_connection send_message
    serve_announced peer fuel stream firsts through = ground arith

    -- The host's side: its announce, and the answers to what the compositor's writer has written.
    serve_connection-written :
        (peer : Peer F)
        → ((sent frame : Bytes) → peer.writes sent frame ≡ true)
        → ((taken : List (InputEvent F)) → peer.takes taken ≡ true)
        → (first ack again : Bytes) → encode_frame pc (announce own) ≡ ok first
        → encode_frame pc suspend_ack ≡ ok ack
        → encode_frame pc (reconnect_ok own) ≡ ok again
        → (ms : List (StructureMessage F)) (bytes : Bytes) (stream : List ReadResult) (fuel : ℕ)
        → RoundTrips pc
        → Sends pc ms bytes
        → contents stream ≡ bytes
        → Flows stream
        → length ms < fuel
        → (serve_connection pc peer fuel own stream).0.written
          ≡ first ++ answers pc peer own ack again ms
    serve_connection-written peer writes takes first ack again firsts acks agains ms bytes stream
          fuel trip sent whole flows enough =
        let start : Connection F = record { written = first; routed = [] } in
        let ran =
          control_loop-messages pc peer own ms bytes stream fuel start trip sent whole flows enough
          ∙ run-answers pc peer own ack again writes takes acks agains ms start in
        ap (λ r. r.0.written) (serve_announced peer fuel stream firsts (writes [] first) ∙ ran)

    -- The suspension at both ends: the host serves what the writer of the link has written, the link
    -- is connected on what the host has written, and each stream is cut into reads in any way. If all
    -- writes go through, the host's backend takes every event, no message is a `Disconnect`, and every
    -- message and answer has a frame that postcard reads back, then the link is to the surface that
    -- the host announces, and `suspend` gets its acknowledgement if and only if a `Suspend` was sent.
    pub suspend_acknowledged :
        (peer : Peer F) (writes : Bytes → Bytes → Bool) {A : Type 0} (net : Network F A E)
        (addr : A)
        → ((sent frame : Bytes) → peer.writes sent frame ≡ true)
        → ((taken : List (InputEvent F)) → peer.takes taken ≡ true)
        → ((sent frame : Bytes) → writes sent frame ≡ true)
        → RoundTrips pc
        → Framed (announce own)
        → Framed suspend_ack
        → Framed (reconnect_ok own)
        → (ms : List (StructureMessage F)) → All Framed ms
        → Stays ms
        → (up down : List ReadResult) (fuel : ℕ) → Flows up
        → contents up ≡ (writer_loop pc writes ms []).written
        → Flows down
        → contents down ≡ (serve_connection pc peer fuel own up).0.written
        → net.dial addr ≡ ok down
        → length ms < fuel
        → (link : Link A) × (connect pc net addr none ≡ ok link)
          × (link.announce ≡ own)
          × (suspend_link true (reader_loop pc fuel link.stream link.buf 0).0 ≡ any_suspend ms)
    unfolding suspend_link
    suspend_acknowledged peer writes net addr host_writes takes client_writes trip
          (first, firsts, fits) (ack, acks, small) (again, agains, little) ms framed stays up down
          fuel up_flows up_is down_flows down_is dialled enough =
        let sent = writer_loop-frames_of writes client_writes ms framed [] stays in
        let served =
          serve_connection-written peer host_writes takes first ack again firsts acks agains ms
            (frames_of ms framed) up fuel trip (frames_of-Sends ms framed) (up_is ∙ sent) up_flows
            enough in
        let replied : Sends pc (announce own ∷ replies ms) (contents down) = rw (down_is ∙ served) (
          first,
          answers pc peer own ack again ms,
          refl,
          firsts,
          fits,
          answers-Sends ack again acks small agains little peer ms stays,
        ) in
        let short : length (replies ms) < fuel = omega (arith, length-replies ms) in
        let (link, linked, named, read) =
          connect-reader_loop pc net addr down own (replies ms) fuel trip dialled replied down_flows
            short in
        (link, linked, named, rw read (rw (any_ack-replies ms) (ground arith)))
