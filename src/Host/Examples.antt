-- ===== src/Host/Examples.antt =====
-- The host's loop at a concrete exchange.
use simulboot.Base.{
  ℕ, ◌≡◌, refl, ◌≢◌, true, [], ◌∷◌, ◌++◌, arith, ◌==◌, if◌then◌else◌, Bytes, codes, bytes_eq,
  Result, ok, err,
}
use simulboot.Wire.{
  SurfaceAnnounce, key_down, StructureMessage, suspend_ack, reconnect_ok, input_event, suspend,
  disconnect, announce, linux, h265, reconnect, resize, reconnect_fail,
}
use simulboot.Wire.Frame.{Postcard, RoundTrips, encode_frame, to_be_bytes}
use simulboot.Wire.Stream.{received}
use simulboot.Host.{Peer, Connection, disconnected, out_of_fuel, control_loop, serve_connection}
use simulboot.Host.Termination.{serve_connection-ends}
use simulboot.Host.Laws.{run, control_loop-messages, run-answers, answers, events, ending}

abbrev own : SurfaceAnnounce
own = record {
  id = 7 ∷ [];
  name = codes "shell";
  width = 960;
  height = 540;
  codec = h265;
  provenance = record {
    os = linux;
    machine_name = codes "desk";
    tailscale_addr = codes "peer";
    capture_description = codes "display:0";
  };
}

-- Two messages have an encoding.
abbrev write : StructureMessage ℕ → Result (Unit {0}) Bytes
write suspend = ok (6 ∷ [])
write disconnect = ok (8 ∷ [])
write _ = err tt

abbrev read : Bytes → Result (Unit {0}) (StructureMessage ℕ)
read (c ∷ []) = if c == 6 then ok suspend else if c == 8 then ok disconnect else err tt
read _ = err tt

abbrev small : Postcard (StructureMessage ℕ) (Unit {0})
small = record { to_stdvec = write; from_bytes = read; take_from_bytes = λ s. err tt }

small-RoundTrips : RoundTrips small
small-RoundTrips suspend body h = let e : 6 ∷ [] ≡ body = ground arith in rw (← e) refl
small-RoundTrips disconnect body h = let e : 8 ∷ [] ≡ body = ground arith in rw (← e) refl
small-RoundTrips (announce a) body h = cc
small-RoundTrips suspend_ack body h = cc
small-RoundTrips (reconnect_ok a) body h = cc
small-RoundTrips (reconnect_fail a) body h = cc
small-RoundTrips (input_event sid e) body h = cc
small-RoundTrips (resize sid w k) body h = cc
small-RoundTrips (reconnect id) body h = cc

abbrev willing : Peer ℕ
willing = record { writes = λ sent frame. true; takes = λ taken. true }

abbrev fresh : Connection ℕ
fresh = record { written = []; routed = [] }

abbrev suspends : Bytes
suspends = 0 ∷ 0 ∷ 0 ∷ 1 ∷ 6 ∷ []

abbrev disconnects : Bytes
disconnects = 0 ∷ 0 ∷ 0 ∷ 1 ∷ 8 ∷ []

control_loop-messages_example :
    control_loop small willing 3 own
      (received (0 ∷ 0 ∷ []) ∷ received (0 ∷ 1 ∷ 6 ∷ 0 ∷ []) ∷ received (0 ∷ 0 ∷ 1 ∷ 8 ∷ []) ∷ [])
      []
      fresh
    ≡ run small willing own (suspend ∷ disconnect ∷ []) fresh
unfolding encode_frame to_be_bytes
control_loop-messages_example =
    control_loop-messages small willing own (suspend ∷ disconnect ∷ []) (suspends ++ disconnects)
      (received (0 ∷ 0 ∷ []) ∷ received (0 ∷ 1 ∷ 6 ∷ 0 ∷ []) ∷ received (0 ∷ 0 ∷ 1 ∷ 8 ∷ []) ∷ []) 3
      fresh small-RoundTrips
      (
        suspends,
        disconnects,
        refl,
        refl,
        omega arith,
        (disconnects, [], refl, refl, omega arith, refl),
      )
      refl tt (omega arith)

abbrev constant : Postcard (StructureMessage ℕ) (Unit {0})
constant = record { to_stdvec = λ m. ok (6 ∷ []); from_bytes = read; take_from_bytes = λ s. err tt }

run-answers_example :
    run constant willing own
      (suspend
        ∷ input_event (7 ∷ []) (key_down 30)
        ∷ input_event (9 ∷ []) (key_down 31)
        ∷ disconnect
        ∷ [])
      fresh
    ≡ (record { written = suspends; routed = key_down 30 ∷ [] }, disconnected)
unfolding encode_frame to_be_bytes answers events ending bytes_eq
run-answers_example =
    run-answers constant willing own suspends suspends (λ sent frame. refl) (λ taken. refl) refl
      refl
      (suspend
        ∷ input_event (7 ∷ []) (key_down 30)
        ∷ input_event (9 ∷ []) (key_down 31)
        ∷ disconnect
        ∷ [])
      fresh

serve_connection-ends_example :
    ((serve_connection constant willing 3 own (received suspends ∷ received disconnects ∷ [])).1
      ≢ out_of_fuel)
    × (serve_connection constant willing 9 own (received suspends ∷ received disconnects ∷ [])
        ≡ serve_connection constant willing 3 own (received suspends ∷ received disconnects ∷ []))
serve_connection-ends_example =
    serve_connection-ends constant willing own 3 9 (received suspends ∷ received disconnects ∷ [])
      (omega arith) (omega arith)
