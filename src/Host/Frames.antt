-- ===== src/Host/Frames.antt =====
-- simulboot-host/src/main.rs and capture.rs: the frames that the capture backend pushes, each sent as
-- one datagram.
use simulboot.Base.{
  ℕ, ◌%◌, ◌^◌, Bool, false, Option, none, some, List, [], ◌∷◌, ◌++◌, ltb, if◌then◌else◌, Bytes,
  length, Result, ok, err,
}
use simulboot.Wire.{SurfaceId, FrameHeader}
use simulboot.Wire.Frame.{Postcard}

pub record EncodedFrame : Type 0 where
  pub pts : ℕ
  pub bytes : Bytes

pub data SendError (E : Type 0) : Type 0 where
  serialising : E → SendError E
  sending : SendError E

unfoldable pub header_of : SurfaceId → EncodedFrame → FrameHeader
header_of surface_id frame = record {
  surface_id = surface_id;
  pts = frame.pts;
  len = length frame.bytes % 2 ^ 32;
}

-- The datagram has more bytes than the path takes, if that is known.
unfoldable pub exceeds : Option ℕ → Bytes → Bool
exceeds none buf = false
exceeds (some max) buf = ltb max (length buf)

-- `max` is the path's `max_datagram_size`, and `sends` whether `send_datagram` goes through.
module _ {E : Type 0} (headers : Postcard FrameHeader E) (max : Option ℕ)
    (sends : Bytes → Bool) where
  -- `send_frame`, and the datagram that it sends, if it does not drop the frame
  unfoldable pub send_frame : SurfaceId → EncodedFrame → Result (SendError E) (Option Bytes)
  send_frame surface_id frame = elim (headers.to_stdvec (header_of surface_id frame)) [
    | err e ↦ err (serialising e)
    | ok head ↦
        (let buf = head ++ frame.bytes in
          if exceeds max buf then ok none else if sends buf then ok (some buf) else err sending)
  ]

  -- The task that forwards frames, until its channel closes: the datagrams sent.
  unfoldable pub forward : SurfaceId → List EncodedFrame → List Bytes
  forward surface_id [] = []
  forward surface_id (frame ∷ rest) = elim (send_frame surface_id frame) [
    | err e ↦ forward surface_id rest
    | ok none ↦ forward surface_id rest
    | ok (some buf) ↦ buf ∷ forward surface_id rest
  ]

-- `NullCapture::run` on the input until it closes: no frames
unfoldable pub null_capture : {I : Type 0} → List I → List EncodedFrame
null_capture [] = []
null_capture (event ∷ rest) = null_capture rest
