-- ===== src/Client/Links/Laws.antt =====
-- simulboot-client/src/conn.rs: what a link makes of the messages of its host, from the announce on.
use simulboot.Base.{
  ℕ, zero, suc, ◌<◌, ◌≡◌, refl, ap, ◌∙◌, Bool, true, false, none, some, List, [], ◌∷◌, arith,
  if◌then◌else◌, Bytes, length, ok,
}
use simulboot.Wire.{SurfaceAnnounce, StructureMessage, announce, suspend_ack}
use simulboot.Wire.Frame.{Postcard, RoundTrips}
use simulboot.Wire.Stream.{ReadResult, read_message}
use simulboot.Wire.Stream.Laws.{Flows, contents, Sends, Receives, read_message_reassembles}
use simulboot.Client.Links.{Link, Network, first_announce, nudge, connect, map_err}
use simulboot.Client.Links.Tasks.{closed, absorb, reader_loop, try_send_ack}

module _ {F E : Type 0} (pc : Postcard (StructureMessage F) E) where
  -- An acknowledgement is among the messages.
  unfoldable pub any_ack : List (StructureMessage F) → Bool
  any_ack [] = false
  any_ack (suspend_ack ∷ ms) = true
  any_ack (_ ∷ ms) = any_ack ms

  absorb_all : List (StructureMessage F) → ℕ → ℕ
  absorb_all [] acks = acks
  absorb_all (m ∷ ms) acks = absorb_all ms (absorb pc m acks)

  absorb_all_one : (ms : List (StructureMessage F)) → absorb_all ms 1 ≡ 1
  unfolding absorb_all absorb try_send_ack
  absorb_all_one [] = refl
  absorb_all_one (announce a ∷ ms) = absorb_all_one ms
  absorb_all_one (m ∷ ms) = absorb_all_one ms

  absorb_all-any_ack :
      (ms : List (StructureMessage F)) → absorb_all ms 0 ≡ (if any_ack ms then 1 else 0)
  unfolding absorb_all absorb any_ack try_send_ack
  absorb_all-any_ack [] = refl
  absorb_all-any_ack (suspend_ack ∷ ms) = absorb_all_one ms
  absorb_all-any_ack (m ∷ ms) = absorb_all-any_ack ms

  reader_goes :
      (fuel : ℕ) (stream : List ReadResult) (buf : Bytes) (acks : ℕ) {m : StructureMessage F}
      → (read_message pc stream buf).result ≡ ok (some m)
      → reader_loop pc (suc fuel) stream buf acks
        ≡ reader_loop pc fuel
            (read_message pc stream buf).stream
            (read_message pc stream buf).buf
            (absorb pc m acks)
  unfolding reader_loop
  reader_goes fuel stream buf acks got = ground arith

  reader_closed :
      (fuel : ℕ) (stream : List ReadResult) (buf : Bytes) (acks : ℕ)
      → (read_message pc stream buf).result ≡ ok none
      → reader_loop pc (suc fuel) stream buf acks ≡ (acks, closed)
  unfolding reader_loop
  reader_closed fuel stream buf acks got = ground arith

  reader_loop-Receives :
      (ms : List (StructureMessage F)) (fuel : ℕ) (stream : List ReadResult) (buf : Bytes)
      (acks : ℕ)
      → length ms < fuel
      → Receives pc stream buf ms
      → reader_loop pc fuel stream buf acks ≡ (absorb_all ms acks, closed)
  unfolding absorb_all
  reader_loop-Receives ms zero stream buf acks enough got = absurd (omega arith)
  reader_loop-Receives [] (suc fuel) stream buf acks enough got =
      reader_closed fuel stream buf acks got
  reader_loop-Receives (m ∷ ms) (suc fuel) stream buf acks enough got =
      reader_goes fuel stream buf acks (got.0)
      ∙ reader_loop-Receives ms fuel (read_message pc stream buf).stream
          (read_message pc stream buf).buf (absorb pc m acks) (omega arith) got.1

  module _ {A : Type 0} (net : Network F A E) where
    -- Where a host's stream carries an announce and then `ms`, however it is cut into reads, `connect`
    -- brings up a link to the surface announced, and the reader task, with more fuel than messages,
    -- absorbs exactly `ms` from where `connect` has stopped reading: the channel then holds an
    -- acknowledgement if and only if one is among them.
    pub connect-reader_loop :
        (addr : A) (stream : List ReadResult) (a : SurfaceAnnounce) (ms : List (StructureMessage F))
        (fuel : ℕ)
        → RoundTrips pc
        → net.dial addr ≡ ok stream
        → Sends pc (announce a ∷ ms) (contents stream)
        → Flows stream
        → length ms < fuel
        → (link : Link A) × (connect pc net addr none ≡ ok link)
          × (link.announce ≡ a)
          × (reader_loop pc fuel link.stream link.buf 0 ≡ (if any_ack ms then 1 else 0, closed))
    unfolding connect
    connect-reader_loop addr stream a ms fuel trip dialled sent flows enough =
        let got =
          read_message_reassembles pc (announce a ∷ ms) (contents stream) stream trip sent refl
            flows in
        let read =
          reader_loop-Receives ms fuel (read_message pc stream []).stream
            (read_message pc stream []).buf 0 enough (got.1) in
        (
          record {
            announce = a;
            host_addr = addr;
            stream = (read_message pc stream []).stream;
            buf = (read_message pc stream []).buf;
            written = [];
          },
          rw dialled (rw (got.0) (unfold first_announce nudge map_err in refl)),
          refl,
          read ∙ ap (λ n. (n, closed)) (absorb_all-any_ack ms),
        )
