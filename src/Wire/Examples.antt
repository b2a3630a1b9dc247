-- ===== src/Wire/Examples.antt =====
-- The theorems on frames and streams at concrete inputs: one-byte messages.
use simulboot.Base.{
  ℕ, ◌+◌, ◌-◌, ◌≤◌, ◌<◌, ◌≡◌, refl, false, List, [], ◌∷◌, ◌++◌, arith, Bytes, length, take, drop,
  Result, ok, err,
}
use simulboot.Wire.{max_frame_len, incomplete}
use simulboot.Wire.Frame.{
  Postcard, RoundTrips, encode_frame, decode_frame, to_be_bytes, from_be_bytes, decode_body,
}
use simulboot.Wire.Frame.Laws.{decode_frame-encode_frame, decode_frame-prefix, decode_frame_sound}
use simulboot.Wire.Stream.{ReadResult, received, finished, read_message, mid_frame}
use simulboot.Wire.Stream.Cut.{stop, stopped, cut_short, read_message-stopped}
use simulboot.Wire.Stream.Laws.{Receives, read_message_reassembles}

abbrev read_one : Bytes → Result (Unit {0}) ℕ
read_one (x ∷ []) = ok x
read_one _ = err tt

abbrev tiny : Postcard ℕ (Unit {0})
tiny = record { to_stdvec = λ m. ok (m ∷ []); from_bytes = read_one; take_from_bytes = λ s. err tt }

tiny-RoundTrips : RoundTrips tiny
tiny-RoundTrips m body h = let e : m ∷ [] ≡ body = ground arith in rw (← e) refl

abbrev frame : ℕ → Bytes
frame x = 0 ∷ 0 ∷ 0 ∷ 1 ∷ x ∷ []

frame_lem : (x : ℕ) → encode_frame tiny x ≡ ok (frame x)
unfolding encode_frame to_be_bytes
frame_lem x = refl

decode_frame-encode_frame_example : decode_frame tiny (frame 7 ++ 9 ∷ []) ≡ ok (7, 5)
decode_frame-encode_frame_example =
    decode_frame-encode_frame tiny 7 (frame 7) (9 ∷ []) tiny-RoundTrips (frame_lem 7) (omega arith)

decode_frame-prefix_example :
    (needed : ℕ) × (decode_frame tiny (0 ∷ 0 ∷ []) ≡ err (incomplete needed 2))
    × (2 < needed)
    × (needed ≤ 5)
decode_frame-prefix_example =
    decode_frame-prefix tiny 7 (frame 7) (0 ∷ 0 ∷ []) (0 ∷ 1 ∷ 7 ∷ []) (frame_lem 7) (omega arith)
      refl (cc)

decode_frame_sound_example :
    (4 ≤ 5)
    × (5 ≤ length (frame 7))
    × (5 ≤ 4 + max_frame_len)
    × (read_one (take (5 - 4) (drop 4 (frame 7))) ≡ ok 7)
decode_frame_sound_example =
    decode_frame_sound tiny (frame 7) {m = 7} {n = 5}
      (unfold decode_frame decode_body from_be_bytes in refl)

abbrev cut_up : List ReadResult
cut_up = received (0 ∷ 0 ∷ 0 ∷ []) ∷ received (1 ∷ 7 ∷ 0 ∷ 0 ∷ []) ∷ received (0 ∷ 1 ∷ 8 ∷ []) ∷ []

read_message_reassembles_example : Receives tiny cut_up [] (7 ∷ 8 ∷ [])
read_message_reassembles_example =
    read_message_reassembles tiny (7 ∷ 8 ∷ []) (frame 7 ++ frame 8) cut_up tiny-RoundTrips
      (
        frame 7,
        frame 8,
        refl,
        frame_lem 7,
        omega arith,
        (frame 8, [], refl, frame_lem 8, omega arith, refl),
      )
      refl tt

read_message-stopped_example :
    (read_message tiny (received (0 ∷ []) ∷ received (0 ∷ 0 ∷ 1 ∷ []) ∷ finished ∷ []) []).result
    ≡ err mid_frame
unfolding stop stopped cut_short
read_message-stopped_example =
    read_message-stopped tiny 7 (frame 7) (7 ∷ []) (frame_lem 7) (omega arith) (λ h. cc) false []
      (received (0 ∷ []) ∷ received (0 ∷ 0 ∷ 1 ∷ []) ∷ []) tt refl
