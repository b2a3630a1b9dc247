-- ===== src/Wire/Stream/Laws.antt =====
-- The messages that `read_message` hands out do not depend on how the stream was cut into reads.
use simulboot.Base.{
  ◌+◌, ◌≤◌, ◌<◌, ◌≡◌, refl, ap, ◌∙◌, none, some, List, [], ◌∷◌, ◌++◌, append_assoc, arith, Bytes,
  length, length-append, drop-append, ok,
}
use native.Mathlib.Decide.{dec_lt}
use simulboot.Wire.{max_frame_len}
use simulboot.Wire.Frame.{
  RoundTrips, encode_frame, Postcard, RoundTrips, encode_frame, decode_frame,
}
use simulboot.Wire.Frame.Laws.{
  encode_frame-eq-framed, framed, length-framed, encode_frame-eq-framed, decode_frame-framed,
  decode_frame-partial,
}
use simulboot.Wire.Stream.{
  ReadResult, received, finished, failed, Received, on_decoded, at_end, read_message,
}

-- A stream that brings bytes at every read.
abbrev pub Flows : List ReadResult → Type 0
Flows [] = Unit
Flows (received [] ∷ rest) = ⊥
Flows (received (b ∷ bs) ∷ rest) = Flows rest
Flows (finished ∷ rest) = ⊥
Flows (failed ∷ rest) = ⊥

-- All the bytes that it brings.
abbrev pub contents : List ReadResult → Bytes
contents [] = []
contents (received bs ∷ rest) = bs ++ contents rest
contents (finished ∷ rest) = []
contents (failed ∷ rest) = []

-- A buffer that holds a whole frame begins with it.
split_front :
    (f buf more rest : Bytes)
    → buf ++ more ≡ f ++ rest
    → length f ≤ length buf
    → (left : Bytes) × (buf ≡ f ++ left) × (left ++ more ≡ rest)
split_front [] buf more rest e h = (buf, refl, e)
split_front (c ∷ f) [] more rest e h = absurd (omega arith)
split_front (c ∷ f) (b ∷ buf) more rest e h =
    let (left, p, q) = split_front f buf more rest (cc) (omega arith) in (left, cc, q)

module _ {T E : Type 0} (pc : Postcard T E) where
  -- What is left behind the message `m`, with `rest` still to come.
  record Handed (m : T) (rest : Bytes) (got : Received T E) : Type 0 where
    gives : got.result ≡ ok (some m)
    keeps : got.buf ++ contents got.stream ≡ rest
    flows : Flows got.stream

  module _ {m : T} (body rest : Bytes) (fits : length body ≤ max_frame_len)
      (read : pc.from_bytes body ≡ ok m) where
    on_decoded-Handed :
        (buf : Bytes) (stream : List ReadResult) (more : Received T E)
        → buf ++ contents stream ≡ framed body ++ rest
        → Flows stream
        → (length buf < 4 + length body → Handed m rest more)
        → Handed m rest (on_decoded (decode_frame pc buf) buf stream more)
    unfolding on_decoded
    on_decoded-Handed buf stream more e fl next = elim (dec_lt (length buf) (4 + length body)) [
      | yes short ↦
          let (needed, asks, _, _) =
            decode_frame-partial pc body rest buf (contents stream) fits e short in
          rw asks (next short)
      | no long ↦
          let (left, p, q) =
            split_front (framed body) buf (contents stream) rest e
              (omega (arith, length-framed body)) in
          rw (p ∙ refl, decode_frame-framed pc body left fits read)
            (record {
              gives = refl;
              keeps = rw (← length-framed body) (rw (drop-append (framed body) left) q);
              flows = fl;
            })
    ]

    read_message-Handed :
        (stream : List ReadResult) (buf : Bytes)
        → buf ++ contents stream ≡ framed body ++ rest
        → Flows stream
        → Handed m rest (read_message pc stream buf)
    unfolding read_message
    read_message-Handed [] buf e fl = on_decoded-Handed buf [] _ e fl (λ short. absurd (
        omega (
          arith,
          ap length e,
          length-append buf [],
          length-append (framed body) rest,
          length-framed body,
        )))
    read_message-Handed (received (b ∷ bs) ∷ stream) buf e fl = on_decoded-Handed buf _ _ e fl (λ _.
        read_message-Handed stream (buf ++ b ∷ bs) (append_assoc buf (b ∷ bs) (contents stream) ∙ e)
          fl)
    read_message-Handed (received [] ∷ stream) buf e fl = absurd fl
    read_message-Handed (finished ∷ stream) buf e fl = absurd fl
    read_message-Handed (failed ∷ stream) buf e fl = absurd fl

  -- The bytes of a list of messages, each one framed.
  abbrev pub Sends : List T → Bytes → Type 0
  Sends [] bytes = bytes ≡ []
  Sends (m ∷ ms) bytes =
      (f : Bytes) × (rest : Bytes) × (bytes ≡ f ++ rest)
      × (encode_frame pc m ≡ ok f)
      × (length f ≤ 4 + max_frame_len)
      × Sends ms rest

  -- Calls of `read_message` hand out these messages in order, and then a clean end.
  abbrev pub Receives : List ReadResult → Bytes → List T → Type 0
  Receives stream buf [] = (read_message pc stream buf).result ≡ ok none
  Receives stream buf (m ∷ ms) =
      ((read_message pc stream buf).result ≡ ok (some m))
      × Receives (read_message pc stream buf).stream (read_message pc stream buf).buf ms

  read_message-nothing :
      (stream : List ReadResult) (buf : Bytes)
      → buf ++ contents stream ≡ []
      → Flows stream
      → (read_message pc stream buf).result ≡ ok none
  unfolding read_message on_decoded at_end decode_frame
  read_message-nothing [] [] e fl = refl
  read_message-nothing [] (b ∷ buf) e fl = cc
  read_message-nothing (received (b ∷ bs) ∷ stream) [] e fl = cc
  read_message-nothing (received (b ∷ bs) ∷ stream) (c ∷ buf) e fl = cc
  read_message-nothing (received [] ∷ stream) buf e fl = absurd fl
  read_message-nothing (finished ∷ stream) buf e fl = absurd fl
  read_message-nothing (failed ∷ stream) buf e fl = absurd fl

  read_message-Receives :
      (ms : List T) (bytes buf : Bytes) (stream : List ReadResult)
      → RoundTrips pc
      → Sends ms bytes
      → buf ++ contents stream ≡ bytes
      → Flows stream
      → Receives stream buf ms
  read_message-Receives [] bytes buf stream trip s e fl = read_message-nothing stream buf (e ∙ s) fl
  read_message-Receives (m ∷ ms) bytes buf stream trip (f, rest, split, sent, fits, later) e fl =
      let (body, written, shape, long, small) = encode_frame-eq-framed pc sent fits in
      let whole : buf ++ contents stream ≡ framed body ++ rest =
        e ∙ split ∙ ap (λ x. x ++ rest) shape in
      let h = read_message-Handed body rest small (trip m body written) stream buf whole fl in
      (h.gives, read_message-Receives ms rest _ _ trip later h.keeps h.flows)

  -- However a stream of framed messages is cut into non-empty reads, `read_message` hands out exactly
  -- those messages, in order, and then reports a clean end of stream, if postcard reads back what it
  -- writes (`RoundTrips`) and every frame has at most 4 + MAX_FRAME_LEN bytes.
  pub read_message_reassembles :
      (ms : List T) (bytes : Bytes) (stream : List ReadResult)
      → RoundTrips pc
      → Sends ms bytes
      → contents stream ≡ bytes
      → Flows stream
      → Receives stream [] ms
  read_message_reassembles ms bytes stream trip s e fl =
      read_message-Receives ms bytes [] stream trip s e fl
