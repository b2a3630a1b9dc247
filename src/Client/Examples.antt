-- ===== src/Client/Examples.antt =====
-- A resume at a concrete strip of one surface.
use simulboot.Base.{
  ℕ, ◌≡◌, refl, true, Option, none, some, List, [], ◌∷◌, arith, Bytes, codes, bytes_eq,
  bytes_eq_refl, ok, err,
}
use simulboot.Examples.Numbers.{naturals, naturals-Ordered, naturals-Linear}
use simulboot.Examples.Numbers.{Level, levels, levels-Printable, middle, high}
use simulboot.Base.Decimal.{to_string}
use simulboot.Client.Clock.{civil_from_days, format_epoch_utc, month_day, year_of_era, pad}
use simulboot.Client.Clock.Calendar.{calendar, civil_from_days-calendar}
use simulboot.Client.Config.{Config, live, from_args}
use simulboot.Client.Calls.{args_of, from_args-args_of}
use simulboot.Examples.Crates.{crates}
use simulboot.Wire.{
  SurfaceAnnounce, StructureMessage, announce, suspend_ack, reconnect_ok, suspend, linux, h265,
}
use simulboot.Wire.Frame.{
  Postcard, encode_frame, decode_frame, decode_body, to_be_bytes, from_be_bytes,
}
use simulboot.Wire.Stream.{ReadResult, received, read_message, on_decoded, at_end}
use simulboot.Strip.{Surface, Strip, any_id, clamp, max_scroll, new_strip}
use simulboot.Client.{resume}
use simulboot.Examples.Messages.{about, about-RoundTrips, same_announce, write_about, read_about}
use simulboot.Client.Links.Tasks.{is_disconnect, writer_loop, reader_loop, suspend_link}
use simulboot.Client.Handshake.{Framed, any_suspend, suspend_acknowledged}
use simulboot.Host.{Peer, serve_connection, control_loop, send_message, handle_message, reply}
use simulboot.Client.Links.{Link, Network, connect, first_announce, nudge, map_err}
use simulboot.Client.Resume.{
  saved, saved_id, refilled, announce_of, links_of, Back, resume-image_from_strip,
}

abbrev shell : Surface ℕ Bytes
shell = record {
  id = 7 ∷ [];
  name = codes "shell";
  order = 0;
  width = 480;
  height = 900;
  source_width = 960;
  source_height = 540;
  codec = h265;
  provenance = record {
    os = linux;
    machine_name = codes "desk";
    tailscale_addr = codes "peer";
    capture_description = codes "display:0";
  };
  host_addr = codes "peer:7001";
  last_pts = some 90;
  frames_received = 12;
}

abbrev strip : Strip ℕ Bytes
strip = record {
  surfaces = shell ∷ [];
  scroll_pos = 30;
  viewport_width = 1440;
  viewport_height = 900;
  focus = some (7 ∷ []);
}

-- Every body is one byte, and stands for the announce of the surface.
abbrev announces : Postcard (StructureMessage ℕ) (Unit {0})
announces = record {
  to_stdvec = λ m. ok (1 ∷ []);
  from_bytes = λ s. ok (announce (announce_of naturals shell));
  take_from_bytes = λ s. err tt;
}

abbrev network : Network ℕ Bytes (Unit {0})
network = record {
  dial = λ addr. ok (received (0 ∷ 0 ∷ 0 ∷ 1 ∷ 1 ∷ []) ∷ []);
  writes = λ addr s. true;
  show_addr = λ addr. addr;
  show_message = λ m. [];
  show_read = λ e. [];
  show_wire = λ e. [];
}

abbrev link : Link Bytes
link = record {
  announce = announce_of naturals shell;
  host_addr = codes "peer:7001";
  stream = [];
  buf = [];
  written = 0 ∷ 0 ∷ 0 ∷ 1 ∷ 1 ∷ [];
}

connected : (id : Bytes) → connect announces network (codes "peer:7001") (some id) ≡ ok link
unfolding connect first_announce nudge map_err read_message on_decoded at_end decode_frame
    decode_body from_be_bytes to_be_bytes encode_frame
connected id = refl

abbrev when : Bytes
when = codes "2026-06-28T19:44:09Z"

abbrev parse_any : Bytes → Option Bytes
parse_any s = some s

abbrev quotes : Bytes → Bytes
quotes s = s

abbrev session_id : Bytes
session_id =
    saved_id naturals announces network parse_any quotes naturals-Ordered refl naturals-Linear
      crates strip when

focused : (id : Bytes) → strip.focus ≡ some id → any_id id strip.surfaces ≡ true
unfolding any_id
focused id h =
    let same : 7 ∷ [] ≡ id = ground arith in rw (← same) (rw (bytes_eq_refl (7 ∷ [])) refl)

back : Back naturals announces network parse_any quotes session_id strip.surfaces
back = ((refl, link, connected session_id, refl), tt)

abbrev refilled_strip : Strip ℕ Bytes
refilled_strip =
    refilled naturals announces network parse_any quotes naturals-Ordered refl naturals-Linear
      crates strip 1440 900

resume-image_from_strip_example :
    resume naturals announces network parse_any quotes crates
      (saved naturals announces network parse_any quotes naturals-Ordered refl naturals-Linear
        crates strip when)
      (new_strip naturals 1440 900)
    ≡ ok (
      some (record refilled_strip {
        scroll_pos = clamp naturals 0 (max_scroll naturals refilled_strip) 30;
        focus = some (7 ∷ []);
      }),
      links_of naturals announces network parse_any quotes session_id strip.surfaces back,
    )
resume-image_from_strip_example =
    resume-image_from_strip naturals announces network parse_any quotes naturals-Ordered refl
      naturals-Linear crates strip when 1440 900 (refl, tt) focused back

abbrev own : SurfaceAnnounce
own = announce_of naturals shell

abbrev willing : Peer ℕ
willing = record { writes = λ sent frame. true; takes = λ taken. true }

abbrev message : ℕ → Bytes
message c = 0 ∷ 0 ∷ 0 ∷ 1 ∷ c ∷ []

-- An announce and an acknowledgement, the second cut in two.
abbrev down : List ReadResult
down = received (message 1) ∷ received (0 ∷ 0 ∷ []) ∷ received (0 ∷ 1 ∷ 3 ∷ []) ∷ []

abbrev up : List ReadResult
up = received (0 ∷ []) ∷ received (0 ∷ 0 ∷ 1 ∷ 4 ∷ []) ∷ []

abbrev down_network : Network ℕ Bytes (Unit {0})
down_network = record network { dial = λ addr. ok down }

own-Framed : Framed (about own) (announce own)
unfolding encode_frame to_be_bytes write_about same_announce bytes_eq
own-Framed = (message 1, refl, omega arith)

ack-Framed : Framed (about own) suspend_ack
unfolding encode_frame to_be_bytes write_about
ack-Framed = (message 3, refl, omega arith)

again-Framed : Framed (about own) (reconnect_ok own)
unfolding encode_frame to_be_bytes write_about same_announce bytes_eq
again-Framed = (message 2, refl, omega arith)

suspend-Framed : Framed (about own) suspend
unfolding encode_frame to_be_bytes write_about
suspend-Framed = (message 4, refl, omega arith)

suspend_acknowledged_example :
    (link : Link Bytes) × (connect (about own) down_network (codes "peer:7001") none ≡ ok link)
    × (link.announce ≡ own)
    × (suspend_link true (reader_loop (about own) 2 link.stream link.buf 0).0 ≡ true)
unfolding writer_loop serve_connection control_loop send_message is_disconnect read_about
    handle_message reply any_suspend encode_frame to_be_bytes write_about same_announce bytes_eq
    read_message on_decoded at_end decode_frame decode_body from_be_bytes
suspend_acknowledged_example =
    suspend_acknowledged (about own) own willing (λ sent frame. true) down_network
      (codes "peer:7001") (λ sent frame. refl) (λ taken. refl) (λ sent frame. refl)
      (about-RoundTrips own) own-Framed ack-Framed again-Framed (suspend ∷ []) (suspend-Framed, tt)
      (refl, tt) up down 2 tt refl tt refl refl (omega arith)

abbrev two_hosts : Config Level Bytes
two_hosts = record {
  mode = live (codes "peer:7001" ∷ codes "desk:7001" ∷ []);
  viewport = (middle, high);
  out = codes "kept.xml";
  broker_port = 7100;
}

from_args-args_of_example :
    from_args levels parse_any (args_of levels levels-Printable parse_any quotes two_hosts)
    ≡ ok two_hosts
from_args-args_of_example =
    from_args-args_of levels levels-Printable parse_any quotes two_hosts (refl, (refl, tt)) refl
      refl ((λ h. omega arith), tt) ((λ h. omega arith), tt) (omega arith)

-- As in the test of session/mod.rs.
format_epoch_utc_value : format_epoch_utc 1782675849 ≡ codes "2026-06-28T19:44:09Z"
unfolding format_epoch_utc civil_from_days month_day year_of_era pad to_string
format_epoch_utc_value = refl

civil_from_days-calendar_example : civil_from_days 59 ≡ calendar 59
civil_from_days-calendar_example = civil_from_days-calendar 59
