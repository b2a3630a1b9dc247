-- ===== src/Client/Frames.antt =====
-- simulboot-client/src/main.rs and conn.rs against simulboot-host/src/main.rs: the frames of a host as
-- the strip counts them.
mod Examples
use simulboot.Base.{
  ℕ, ◌+◌, ◌%◌, ◌^◌, ◌≡◌, refl, sym, ap, ◌∙◌, inl, inr, Bool, true, false, Option, none, some, List,
  [], ◌∷◌, ◌++◌, map, arith, if◌then◌else◌, leb, not, length, length-append, Bool-cases, Bytes, All,
  bytes_eq, ok,
}
use simulboot.Wire.{SurfaceId, FrameHeader}
use simulboot.Wire.Frame.{Postcard}
use simulboot.Strip.{Surface, Strip, note_frame, note_in, any_id}
use simulboot.Host.Frames.{EncodedFrame, header_of, exceeds, send_frame, forward}
use simulboot.Client.Links.Tasks.{FrameEvent, decode_datagram, pump}

-- The frame pump of `run`: `note_frame` for each event, until the channel closes.
unfoldable pub note_events : {F A : Type 0} → List FrameEvent → Strip F A → Strip F A
note_events [] strip = strip
note_events (ev ∷ rest) strip = note_events rest (note_frame ev.surface_id ev.pts strip)

-- What `take_from_bytes` promises: what `to_stdvec` wrote comes back, with the bytes behind it.
abbrev pub TakesBack : {T E : Type 0} → Postcard T E → Type 0
TakesBack {T} pc =
    (m : T) (head rest : Bytes)
    → pc.to_stdvec m ≡ ok head
    → pc.take_from_bytes (head ++ rest) ≡ ok (m, rest)

-- That many bytes fit a datagram: up to `max` where the path has a limit, any number where it has none.
unfoldable pub fits : Option ℕ → ℕ → Bool
fits none n = true
fits (some max) n = leb n max

-- The frames that fit a datagram, each with the `head` written before it.
unfoldable pub fitting : Option ℕ → (EncodedFrame → Bytes) → List EncodedFrame → List EncodedFrame
fitting max head [] = []
fitting max head (frame ∷ rest) =
    let later = fitting max head rest in
    if fits max (length (head frame) + length frame.bytes) then frame ∷ later else later

exceeds-fits :
    (max : Option ℕ) (head bytes : Bytes)
    → exceeds max (head ++ bytes) ≡ not (fits max (length head + length bytes))
unfolding exceeds fits
exceeds-fits none head bytes = refl
exceeds-fits (some max) head bytes = ground (arith, length-append head bytes)

-- The surface after these frames: the last one's time stamp, and the count wrapped at 64 bits.
unfoldable pub after_frames : {F A : Type 0} → List EncodedFrame → Surface F A → Surface F A
after_frames [] s = s
after_frames (frame ∷ rest) s =
    after_frames rest
      (record s { last_pts = some frame.pts; frames_received = (s.frames_received + 1) % 2 ^ 64 })

abbrev pub event_of : SurfaceId → EncodedFrame → FrameEvent
event_of id frame = record { surface_id = id; pts = frame.pts }

module _ {F A : Type 0} where
  -- A change of the first surface with the id.
  unfoldable pub change_first :
      SurfaceId → (Surface F A → Surface F A) → List (Surface F A) → List (Surface F A)
  change_first id g [] = []
  change_first id g (s ∷ rest) = if bytes_eq s.id id then g s ∷ rest else s ∷ change_first id g rest

  change_first_here :
      (id : SurfaceId) (g : Surface F A → Surface F A) (s : Surface F A) (ss : List (Surface F A))
      → bytes_eq s.id id ≡ true
      → change_first id g (s ∷ ss) ≡ g s ∷ ss
  unfolding change_first
  change_first_here id g s ss same = rw same refl

  change_first_there :
      (id : SurfaceId) (g : Surface F A → Surface F A) (s : Surface F A) (ss : List (Surface F A))
      → bytes_eq s.id id ≡ false
      → change_first id g (s ∷ ss) ≡ s ∷ change_first id g ss
  unfolding change_first
  change_first_there id g s ss differs = rw differs refl

  change_first_nothing :
      (id : SurfaceId) (ss : List (Surface F A)) → change_first id (λ s. s) ss ≡ ss
  unfolding change_first
  change_first_nothing id [] = refl
  change_first_nothing id (s ∷ ss) = elim (Bool-cases (bytes_eq s.id id)) [
    | inl same ↦ rw same refl
    | inr differs ↦ rw differs (ap (λ rest. s ∷ rest) (change_first_nothing id ss))
  ]

  change_first-note_in :
      (id : SurfaceId) (frame : EncodedFrame) (frames : List EncodedFrame) (ss : List (Surface F A))
      → change_first id (after_frames frames) (note_in id frame.pts ss)
        ≡ change_first id (after_frames (frame ∷ frames)) ss
  unfolding change_first note_in after_frames
  change_first-note_in id frame frames [] = refl
  change_first-note_in id frame frames (s ∷ ss) = elim (Bool-cases (bytes_eq s.id id)) [
    | inl same ↦ rw same (
        change_first_here id (after_frames frames)
          (record s {
            last_pts = some frame.pts;
            frames_received = (s.frames_received + 1) % 2 ^ 64;
          })
          ss same)
    | inr differs ↦ rw differs (
        change_first_there id (after_frames frames) s (note_in id frame.pts ss) differs
        ∙ ap (λ rest. s ∷ rest) (change_first-note_in id frame frames ss))
  ]

  note_events-frames :
      (id : SurfaceId) (frames : List EncodedFrame) (strip : Strip F A)
      → note_events (map (event_of id) frames) strip
        ≡ record strip { surfaces = change_first id (after_frames frames) strip.surfaces }
  unfolding note_events note_frame after_frames
  note_events-frames id [] strip =
      ap (λ ss. record strip { surfaces = ss }) (sym (change_first_nothing id strip.surfaces))
  note_events-frames id (frame ∷ frames) strip =
      note_events-frames id frames (note_frame id frame.pts strip)
      ∙ ap (λ ss. record strip { surfaces = ss })
          (change_first-note_in id frame frames strip.surfaces)

module _ {E : Type 0} (headers : Postcard FrameHeader E) (max : Option ℕ) (sends : Bytes → Bool)
    (id : SurfaceId) (head : EncodedFrame → Bytes) where
  sent_or_dropped :
      (frame : EncodedFrame)
      → headers.to_stdvec (header_of id frame) ≡ ok (head frame)
      → ((buf : Bytes) → sends buf ≡ true)
      → send_frame headers max sends id frame
        ≡ ok (
            if exceeds max (head frame ++ frame.bytes)
            then none
            else some (head frame ++ frame.bytes))
  unfolding send_frame
  sent_or_dropped frame written through = ground (arith, through (head frame ++ frame.bytes))

  forward_dropped :
      (frame : EncodedFrame) (rest : List EncodedFrame)
      → send_frame headers max sends id frame ≡ ok none
      → forward headers max sends id (frame ∷ rest) ≡ forward headers max sends id rest
  unfolding forward
  forward_dropped frame rest h = ground arith

  forward_sent :
      (frame : EncodedFrame) (rest : List EncodedFrame) {buf : Bytes}
      → send_frame headers max sends id frame ≡ ok (some buf)
      → forward headers max sends id (frame ∷ rest) ≡ buf ∷ forward headers max sends id rest
  unfolding forward
  forward_sent frame rest h = ground arith

  pump_read :
      (datagram : Bytes) (rest : List Bytes) {ev : FrameEvent}
      → decode_datagram headers datagram ≡ ok ev
      → pump headers (datagram ∷ rest) ≡ ev ∷ pump headers rest
  unfolding pump
  pump_read datagram rest h = ground arith

  decode_sent :
      (frame : EncodedFrame)
      → TakesBack headers
      → headers.to_stdvec (header_of id frame) ≡ ok (head frame)
      → decode_datagram headers (head frame ++ frame.bytes) ≡ ok (event_of id frame)
  unfolding decode_datagram header_of
  decode_sent frame back written = rw (back _ (head frame) frame.bytes written) refl

  pump-forward :
      (frames : List EncodedFrame)
      → TakesBack headers
      → All (λ frame. headers.to_stdvec (header_of id frame) ≡ ok (head frame)) frames
      → ((buf : Bytes) → sends buf ≡ true)
      → pump headers (forward headers max sends id frames)
        ≡ map (event_of id) (fitting max head frames)
  unfolding fitting
  pump-forward [] back written through = unfold forward pump in refl
  pump-forward (frame ∷ frames) back written through =
      let rest = pump-forward frames back written.1 through in
      let test = exceeds-fits max (head frame) frame.bytes in
      elim (Bool-cases (fits max (length (head frame) + length frame.bytes))) [
        | inr long ↦
            (let dropped : send_frame headers max sends id frame ≡ ok none =
                sent_or_dropped frame written.0 through ∙ rw test (rw long refl) in
              rw (forward_dropped frame frames dropped) (rw long rest))
        | inl short ↦
            (let sent : send_frame headers max sends id frame
                  ≡ ok (some (head frame ++ frame.bytes)) =
                sent_or_dropped frame written.0 through ∙ rw test (rw short refl) in
              rw (forward_sent frame frames sent) (
                rw short (
                  pump_read (head frame ++ frame.bytes) _ (decode_sent frame back written.0)
                  ∙ ap (λ evs. event_of id frame ∷ evs) rest)))
      ]

  -- From the backend to the strip: of the frames that a host forwards, exactly those that fit a
  -- datagram, of `max` bytes with their header or of any length where there is no maximum, are counted, for the first surface with its id, which gets their count, wrapped at 64 bits,
  -- and the time stamp of the last; nothing else changes. Every datagram is sent and arrives, in order,
  -- and postcard takes back the headers that it writes.
  pub note_events-forward :
      {F A : Type 0} (frames : List EncodedFrame) (strip : Strip F A)
      → TakesBack headers
      → All (λ frame. headers.to_stdvec (header_of id frame) ≡ ok (head frame)) frames
      → ((buf : Bytes) → sends buf ≡ true)
      → note_events (pump headers (forward headers max sends id frames)) strip ≡ record strip {
        surfaces = change_first id (after_frames (fitting max head frames)) strip.surfaces;
      }
  note_events-forward frames strip back written through =
      ap (λ evs. note_events evs strip) (pump-forward frames back written through)
      ∙ note_events-frames id (fitting max head frames) strip
