-- ===== src/Wire/Stream/Cut.antt =====
-- `read_message` of simulboot-client/src/conn.rs and simulboot-host/src/main.rs, where a stream ends
-- before the next message is whole.
use simulboot.Base.{
  ℕ, ◌+◌, ◌≤◌, ◌≡◌, refl, sym, ap, ◌∙◌, ◌≢◌, Bool, true, false, Option, none, List, [], ◌∷◌, ◌++◌,
  append-nil, append_assoc, if◌then◌else◌, Bytes, length, Result, ok, err,
}
use simulboot.Wire.{WireError, incomplete, max_frame_len}
use simulboot.Wire.Frame.{Postcard, encode_frame}
use simulboot.Wire.Frame.Laws.{decode_frame-prefix}
use simulboot.Wire.Stream.{
  ReadResult, received, finished, failed, ReadError, reading, mid_frame, Received, on_decoded,
  at_end, read_message,
}
use simulboot.Wire.Stream.Laws.{Flows, contents}

-- How a stream stops: with an error of a read, or as finished.
unfoldable pub stop : Bool → ReadResult
stop broken = if broken then failed else finished

module _ {T E : Type 0} where
  -- What there is to say of these bytes: nothing has begun, or the message is cut.
  unfoldable pub cut_short : Bytes → Result (ReadError E) (Option T)
  cut_short [] = ok none
  cut_short (b ∷ bs) = err mid_frame

  unfoldable pub stopped : Bool → Bytes → Result (ReadError E) (Option T)
  stopped broken bytes = if broken then err reading else cut_short bytes

  on_incomplete :
      (decoded : Result (WireError E) (T × ℕ)) (buf : Bytes) (stream : List ReadResult)
      (more : Received T E) {needed have : ℕ}
      → decoded ≡ err (incomplete needed have)
      → on_decoded decoded buf stream more ≡ more
  unfolding on_decoded
  on_incomplete decoded buf stream more asks = rw asks refl

  at_end-cut_short :
      (buf : Bytes) (stream : List ReadResult)
      → (at_end {T = T} {E = E} buf stream).result ≡ cut_short buf
  unfolding at_end cut_short
  at_end-cut_short [] stream = refl
  at_end-cut_short (b ∷ bs) stream = refl

  module _ (pc : Postcard T E) (m : T) (f post : Bytes) (framed : encode_frame pc m ≡ ok f)
      (fits : length f ≤ 4 + max_frame_len) (proper : post ≢ []) where
    read_cut :
        (broken : Bool) (rest stream : List ReadResult) (buf : Bytes)
        → Flows stream
        → f ≡ (buf ++ contents stream) ++ post
        → (read_message pc (stream ++ stop broken ∷ rest) buf).result
          ≡ stopped broken (buf ++ contents stream)
    unfolding read_message stop stopped
    read_cut true rest [] buf fl split =
        let whole : f ≡ buf ++ post = split ∙ ap (λ pre. pre ++ post) (append-nil buf) in
        let (needed, asks, _, _) = decode_frame-prefix pc m f buf post framed fits whole proper in
        ap (λ got. got.result) (on_incomplete _ buf (failed ∷ rest) _ asks)
    read_cut false rest [] buf fl split =
        let whole : f ≡ buf ++ post = split ∙ ap (λ pre. pre ++ post) (append-nil buf) in
        let (needed, asks, _, _) = decode_frame-prefix pc m f buf post framed fits whole proper in
        ap (λ got. got.result) (on_incomplete _ buf (finished ∷ rest) (at_end buf rest) asks)
        ∙ at_end-cut_short buf rest
        ∙ ap cut_short (sym (append-nil buf))
    read_cut broken rest (received [] ∷ stream) buf fl split = absurd fl
    read_cut broken rest (finished ∷ stream) buf fl split = absurd fl
    read_cut broken rest (failed ∷ stream) buf fl split = absurd fl
    read_cut broken rest (received (b ∷ bs) ∷ stream) buf fl split =
        let tail : Bytes = (b ∷ bs) ++ contents stream in
        let whole : f ≡ buf ++ (tail ++ post) = split ∙ append_assoc buf tail post in
        let (needed, asks, _, _) =
          decode_frame-prefix pc m f buf (tail ++ post) framed fits whole (λ h. cc) in
        let join = append_assoc buf (b ∷ bs) (contents stream) in
        ap (λ got. got.result) (on_incomplete _ buf _ _ asks)
        ∙ read_cut broken rest stream (buf ++ b ∷ bs) fl
            (split ∙ ap (λ pre. pre ++ post) (sym join))
        ∙ ap (stopped broken) join

    -- A stream that stops inside of a message, in whatever reads it comes: if a read fails, that is the
    -- error; if the stream has finished, an error says that it is cut inside of a message, and a clean
    -- end is reported only where nothing of the message has arrived. No message is handed out. The
    -- frame has at most 4 + MAX_FRAME_LEN bytes.
    pub read_message-stopped :
        (broken : Bool) (rest stream : List ReadResult)
        → Flows stream
        → f ≡ contents stream ++ post
        → (read_message pc (stream ++ stop broken ∷ rest) []).result
          ≡ stopped broken (contents stream)
    read_message-stopped broken rest stream fl split = read_cut broken rest stream [] fl split
