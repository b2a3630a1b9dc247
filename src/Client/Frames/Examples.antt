-- ===== src/Client/Frames/Examples.antt =====
-- Frames of a host at a concrete strip.
use simulboot.Base.{
  ℕ, ◌%◌, ◌^◌, ◌≡◌, refl, ap, ◌∙◌, true, none, some, List, [], ◌∷◌, ◌++◌, append_assoc, arith,
  Bytes, codes, length, take, drop, take-append, drop-append, bytes_eq, Result, ok, err,
}
use simulboot.Wire.{SurfaceId, FrameHeader, linux, h265}
use simulboot.Wire.Frame.{Postcard}
use simulboot.Strip.{Surface, Strip}
use simulboot.Host.Frames.{EncodedFrame, header_of, forward}
use simulboot.Client.Links.Tasks.{pump}
use simulboot.Client.Frames.{
  note_events, TakesBack, change_first, after_frames, fits, fitting, note_events-forward,
}

-- A header is written as the length of the id, the id, the time stamp and the length.
write_header : FrameHeader → Result (Unit {0}) Bytes
write_header h = ok (length h.surface_id ∷ (h.surface_id ++ (h.pts ∷ h.len ∷ [])))

read_rest : SurfaceId → Bytes → Result (Unit {0}) (FrameHeader × Bytes)
read_rest id (p ∷ l ∷ rest) = ok (record { surface_id = id; pts = p; len = l }, rest)
read_rest id _ = err tt

read_header : Bytes → Result (Unit {0}) (FrameHeader × Bytes)
unfolding read_rest
read_header [] = err tt
read_header (n ∷ s) = read_rest (take n s) (drop n s)

abbrev headers : Postcard FrameHeader (Unit {0})
headers = record {
  to_stdvec = write_header;
  from_bytes = λ s. err tt;
  take_from_bytes = read_header;
}

parts_read :
    (id : SurfaceId) (p l : ℕ) (rest : Bytes)
    → read_header (length id ∷ (id ++ (p ∷ l ∷ rest)))
      ≡ ok (record { surface_id = id; pts = p; len = l }, rest)
unfolding read_header read_rest
parts_read id p l rest =
    rw (take-append id (p ∷ l ∷ rest)) (rw (drop-append id (p ∷ l ∷ rest)) refl)

headers-TakesBack : TakesBack headers
unfolding write_header
headers-TakesBack h head rest written =
    let id : SurfaceId = h.surface_id in
    let whole : length id ∷ (id ++ (h.pts ∷ h.len ∷ [])) ≡ head = ground arith in
    rw (← whole) (
      ap (λ s. read_header (length id ∷ s)) (append_assoc id (h.pts ∷ h.len ∷ []) rest)
      ∙ parts_read id h.pts h.len rest)

abbrev window : Surface ℕ Bytes
window = record {
  id = 7 ∷ [];
  name = codes "shell";
  order = 0;
  width = 480;
  height = 900;
  source_width = 960;
  source_height = 540;
  codec = h265;
  provenance = record {
    os = linux;
    machine_name = codes "desk";
    tailscale_addr = codes "peer";
    capture_description = codes "display:0";
  };
  host_addr = codes "peer:7001";
  last_pts = none;
  frames_received = 0;
}

abbrev strip : Strip ℕ Bytes
strip = record {
  surfaces = window ∷ [];
  scroll_pos = 0;
  viewport_width = 1440;
  viewport_height = 900;
  focus = none;
}

abbrev frame : ℕ → Bytes → EncodedFrame
frame pts bytes = record { pts = pts; bytes = bytes }

abbrev written : EncodedFrame → Bytes
written fr = 1 ∷ 7 ∷ fr.pts ∷ (length fr.bytes % 2 ^ 32) ∷ []

-- The second frame does not fit a datagram of six bytes.
abbrev frames : List EncodedFrame
frames = frame 40 (1 ∷ 2 ∷ []) ∷ frame 50 (1 ∷ 2 ∷ 3 ∷ []) ∷ frame 60 [] ∷ []

note_events-forward_example :
    note_events (pump headers (forward headers (some 6) (λ buf. true) (7 ∷ []) frames)) strip
    ≡ record strip { surfaces = record window { last_pts = some 60; frames_received = 2 } ∷ [] }
unfolding write_header header_of fitting fits change_first after_frames bytes_eq
note_events-forward_example =
    note_events-forward headers (some 6) (λ buf. true) (7 ∷ []) written frames strip
      headers-TakesBack (refl, (refl, (refl, tt))) (λ buf. refl)
