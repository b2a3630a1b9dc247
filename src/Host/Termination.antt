-- ===== src/Host/Termination.antt =====
-- simulboot-host/src/main.rs: the control loop of a connection comes to an end.
use simulboot.Base.{
  ℕ, zero, suc, ◌+◌, ◌*◌, ◌≤◌, ◌<◌, ◌≡◌, sym, ap, ◌∙◌, ◌≢◌, ◌⊎◌, inl, inr, none, some, List, [],
  arith, Option-cases, Bytes, length,
}
use simulboot.Wire.{
  SurfaceAnnounce, StructureMessage, announce, suspend_ack, reconnect_ok, input_event, suspend,
  reconnect,
}
use simulboot.Wire.Frame.{Postcard}
use simulboot.Wire.Stream.{ReadResult, read_message}
use simulboot.Wire.Stream.Laws.{contents}
use simulboot.Wire.Stream.Progress.{pending, result-cases, read_message-Costs}
use simulboot.Host.{
  Peer, Ending, closed, read_failed, write_failed, out_of_fuel, Connection, send_message, reply,
  handle_message, control_loop, serve_connection,
}

module _ {F E : Type 0} (pc : Postcard (StructureMessage F) E) (peer : Peer F)
    (own : SurfaceAnnounce) where
  reply-fueled :
      (msg : StructureMessage F) (conn : Connection F)
      → (reply pc peer msg conn).1 ≢ some out_of_fuel
  unfolding reply
  reply-fueled msg conn = ground arith

  -- No message ends the loop for want of fuel.
  handle_message-fueled :
      (msg : StructureMessage F) (conn : Connection F)
      → (handle_message pc peer own msg conn).1 ≢ some out_of_fuel
  unfolding handle_message
  handle_message-fueled (input_event sid event) conn = ground arith
  handle_message-fueled suspend conn = reply-fueled suspend_ack conn
  handle_message-fueled (reconnect id) conn = reply-fueled (reconnect_ok own) conn
  handle_message-fueled _ conn = λ h. cc

  module _ (stream : List ReadResult) (buf : Bytes) (conn : Connection F) where
    -- A turn ends the loop, whatever fuel is left, or goes on with fewer bytes before it.
    turn :
        ((c : Connection F) × (why : Ending) × (why ≢ out_of_fuel)
          × ((fuel : ℕ) → control_loop pc peer (suc fuel) own stream buf conn ≡ (c, why)))
        ⊎ ((stream' : List ReadResult) × (buf' : Bytes) × (c : Connection F) × (pending stream' buf'
                + 4
              ≤ pending stream buf)
            × ((fuel : ℕ)
                → control_loop pc peer (suc fuel) own stream buf conn
                  ≡ control_loop pc peer fuel own stream' buf' c))
    unfolding control_loop
    turn = elim (result-cases (read_message pc stream buf).result) [
      | inl (m, got) ↦ elim (Option-cases (handle_message pc peer own m conn).1) [
        | inl none_yet ↦ inr (
          (read_message pc stream buf).stream,
          (read_message pc stream buf).buf,
          (handle_message pc peer own m conn).0,
          read_message-Costs pc stream buf m got,
          λ fuel. ground arith,
        )
        | inr (why, ends) ↦ inl (
          (handle_message pc peer own m conn).0,
          why,
          (λ same. handle_message-fueled m conn (ends ∙ ap some same)),
          λ fuel. ground arith,
        )
      ]
      | inr (inl got) ↦ inl (conn, closed, (λ h. cc), λ fuel. ground arith)
      | inr (inr (e, got)) ↦ inl (conn, read_failed, (λ h. cc), λ fuel. ground arith)
    ]

  control_loop-fueled :
      (fuel more : ℕ) (stream : List ReadResult) (buf : Bytes) (conn : Connection F)
      → pending stream buf < 4 * fuel
      → fuel ≤ more
      → ((control_loop pc peer fuel own stream buf conn).1 ≢ out_of_fuel)
        × (control_loop pc peer more own stream buf conn
            ≡ control_loop pc peer fuel own stream buf conn)
  control_loop-fueled zero more stream buf conn enough most = absurd (omega arith)
  control_loop-fueled (suc fuel) zero stream buf conn enough most = absurd (omega arith)
  control_loop-fueled (suc fuel) (suc more) stream buf conn enough most =
      elim (turn stream buf conn) [
        | inl (c, why, ends, same) ↦ (rw (same fuel) ends, same more ∙ sym (same fuel))
        | inr (stream', buf', c, less, same) ↦
            (let (ends, fixed) =
                control_loop-fueled fuel more stream' buf' c (omega arith) (omega arith) in
              (rw (same fuel) ends, same more ∙ fixed ∙ sym (same fuel)))
      ]

  start_refused :
      (fuel : ℕ) (stream : List ReadResult)
      → send_message pc peer (announce own) (record { written = []; routed = [] }) ≡ none
      → serve_connection pc peer fuel own stream
        ≡ (record { written = []; routed = [] }, write_failed)
  unfolding serve_connection
  start_refused fuel stream refused = ground arith

  start_sent :
      (fuel : ℕ) (stream : List ReadResult) {conn : Connection F}
      → send_message pc peer (announce own) (record { written = []; routed = [] }) ≡ some conn
      → serve_connection pc peer fuel own stream ≡ control_loop pc peer fuel own stream [] conn
  unfolding serve_connection
  start_sent fuel stream sent = ground arith

  -- Every connection comes to an end: whatever the compositor sends, in whatever reads, and whatever
  -- the peer does, fuel of more than a quarter of the bytes that arrive lets the loop end in one of
  -- the ways of the code, and with more fuel it does the same.
  pub serve_connection-ends :
      (fuel more : ℕ) (stream : List ReadResult)
      → length (contents stream) < 4 * fuel
      → fuel ≤ more
      → ((serve_connection pc peer fuel own stream).1 ≢ out_of_fuel)
        × (serve_connection pc peer more own stream ≡ serve_connection pc peer fuel own stream)
  serve_connection-ends fuel more stream enough most =
      elim (Option-cases
        (send_message pc peer (announce own) (record { written = []; routed = [] }))) [
          | inl refused ↦
              rw (start_refused fuel stream refused) ((λ h. cc), start_refused more stream refused)
          | inr (conn, sent) ↦
              (let (ends, fixed) =
                  control_loop-fueled fuel more stream [] conn (omega arith) most in
                (
                  rw (start_sent fuel stream sent) ends,
                  start_sent more stream sent ∙ fixed ∙ sym (start_sent fuel stream sent),
                ))
        ]
