-- ===== src/Wire/Stream.antt =====
-- `read_message` of simulboot-client/src/conn.rs and of simulboot-host/src/main.rs, which are the
-- same text: one message off a QUIC stream, with partial reads kept in a buffer. The stream is the
-- list of what its `read` calls answer; a `read` behind the last answers that it has finished.
pub mod Laws
pub mod Progress
pub mod Cut
use simulboot.Base.{ℕ, Option, none, some, List, [], ◌∷◌, ◌++◌, Bytes, drop, Result, ok, err}
use simulboot.Wire.{WireError, incomplete}
use simulboot.Wire.Frame.{Postcard, decode_frame}

-- One answer of `RecvStream::read`: `Some(n)` with its bytes, `None`, or an error.
pub data ReadResult : Type 0 where
  received : Bytes → ReadResult
  finished failed : ReadResult

pub data ReadError (E : Type 0) : Type 0 where
  wire : WireError E → ReadError E
  reading mid_frame : ReadError E

-- What a call returns, with the buffer and the stream that it leaves.
pub record Received (T E : Type 0) : Type 0 where
  pub result : Result (ReadError E) (Option T)
  pub buf : Bytes
  pub stream : List ReadResult

module _ {T E : Type 0} where
  -- A decision on `decode_frame buf`; `more` is the rest of the round, taken on `Incomplete`.
  unfoldable pub on_decoded :
      Result (WireError E) (T × ℕ) → Bytes → List ReadResult → Received T E → Received T E
  on_decoded (ok (msg, consumed)) buf stream more = record {
    result = ok (some msg);
    buf = drop consumed buf;
    stream = stream;
  }
  on_decoded (err (incomplete _ _)) buf stream more = more
  on_decoded (err e) buf stream more = record { result = err (wire e); buf = buf; stream = stream }

  -- `Some(0) | None`
  unfoldable pub at_end : Bytes → List ReadResult → Received T E
  at_end [] stream = record { result = ok none; buf = []; stream = stream }
  at_end (b ∷ bs) stream = record { result = err mid_frame; buf = b ∷ bs; stream = stream }

  module _ (pc : Postcard T E) where
    unfoldable pub read_message : List ReadResult → Bytes → Received T E
    read_message [] buf = on_decoded (decode_frame pc buf) buf [] (at_end buf [])
    read_message (received [] ∷ rest) buf =
        on_decoded (decode_frame pc buf) buf (received [] ∷ rest) (at_end buf rest)
    read_message (received (b ∷ bs) ∷ rest) buf =
        let more = read_message rest (buf ++ b ∷ bs) in
        on_decoded (decode_frame pc buf) buf (received (b ∷ bs) ∷ rest) more
    read_message (finished ∷ rest) buf =
        on_decoded (decode_frame pc buf) buf (finished ∷ rest) (at_end buf rest)
    read_message (failed ∷ rest) buf =
        on_decoded (decode_frame pc buf) buf (failed ∷ rest)
          (record { result = err reading; buf = buf; stream = rest })
