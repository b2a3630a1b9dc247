-- ===== src/Client/RoundTrip/Examples.antt =====
-- A session of one surface, suspended and resumed.
use simulboot.Base.{
  ℕ, ◌≡◌, refl, ap, true, Option, none, some, List, [], ◌∷◌, ◌++◌, arith, Bytes, codes, bytes_eq,
  bytes_eq_refl, Result, ok, err,
}
use simulboot.Examples.Numbers.{
  Level, middle, low, levels, levels-Ordered, levels-Linear, levels-Printable,
}
use simulboot.Examples.Crates.{crates, crates-HexLaws}
use simulboot.Wire.{StructureMessage, announce, linux, h265}
use simulboot.Wire.Frame.{
  Postcard, encode_frame, decode_frame, decode_body, to_be_bytes, from_be_bytes,
}
use simulboot.Wire.Stream.{ReadResult, received, read_message, on_decoded, at_end}
use simulboot.Session.{SessionImage, SessionError, Crypto, HexLaws, new_image}
use simulboot.Session.Parse.RoundTrip.{printed}
use simulboot.Base.Text.{trim}
use simulboot.Base.Decimal.{to_string}
use simulboot.Examples.Entities.{scan, unescape_laws}
use simulboot.Examples.Reader.{
  read_document, read_pieces, text_event, markup_event, tag_event, read_attrs, split, cut,
}
use simulboot.Session.{surface_id_to_str, os_to_str, codec_to_str}
use simulboot.Session.Escape.{escape_attr, escape_text}
use simulboot.Session.Write.{fmt_f32}
use simulboot.Session.Markup.{print, print_attrs, events_of, attr_events, Reads}
use simulboot.Session.Markup.Image.{
  document_markup, surfaces_markup, surface_markup, focus_markup, text_element, words_of,
}
use simulboot.Session.Markup.RoundTrip.{image_markup}
use simulboot.Strip.{Surface, Strip, any_id, new_strip}
use simulboot.Broker.{new_xml, handle_connection}
use simulboot.Fetch.{request, response_body}
use simulboot.Fetch.Image.{fetch_image}
use simulboot.Fetch.Url.{session_url}
use simulboot.Fetch.Lines.{ascii-IsAscii, lacks-Lacks, ascii, lacks}
use simulboot.Session.Write.{with_computed_id, compute_id}
use simulboot.Client.Checkpoint.{entry_of, image_from_strip}
use simulboot.Client.{resume}
use simulboot.Client.Links.{Link, Network, connect, first_announce, nudge, map_err}
use simulboot.Client.Links.Tasks.{suspend_link}
use simulboot.Client.Resume.{announce_of, Back, resumed}
use simulboot.Client.Suspend.{suspend_and_serve, futures_join_all, push_awaited, count_acked}
use simulboot.Client.Reload.{saved, saved_id, saved_xml}
use simulboot.Client.RoundTrip.{resume-suspend_and_serve}

-- Every text has the same digest.
abbrev sums : Crypto
sums = record crates { digest = λ s. 1 ∷ [] }

sums-HexLaws : HexLaws sums
sums-HexLaws = record {
  decode-encode = crates-HexLaws.decode-encode;
  encode-IsHexDigit = crates-HexLaws.encode-IsHexDigit;
}

abbrev eight : Bytes
eight = 1 ∷ 2 ∷ 3 ∷ 4 ∷ 5 ∷ 6 ∷ 7 ∷ 8 ∷ []

abbrev surface_id : Bytes
surface_id = eight ++ (eight ++ (eight ++ eight))

abbrev shell : Surface Level Bytes
shell = record {
  id = surface_id;
  name = codes "a<b> \"&\"";
  order = 0;
  width = middle;
  height = middle;
  source_width = 960;
  source_height = 540;
  codec = h265;
  provenance = record {
    os = linux;
    machine_name = codes "R&D desk";
    tailscale_addr = codes "peer";
    capture_description = codes "display:0";
  };
  host_addr = codes "peer:7001";
  last_pts = some 90;
  frames_received = 12;
}

abbrev strip : Strip Level Bytes
strip = record {
  surfaces = shell ∷ [];
  scroll_pos = middle;
  viewport_width = middle;
  viewport_height = middle;
  focus = some surface_id;
}

-- Every body is one byte, and stands for the announce of the surface.
abbrev announces : Postcard (StructureMessage Level) (Unit {0})
announces = record {
  to_stdvec = λ m. ok (1 ∷ []);
  from_bytes = λ s. ok (announce (announce_of levels shell));
  take_from_bytes = λ s. err tt;
}

abbrev network : Network Level Bytes (Unit {0})
network = record {
  dial = λ addr. ok (received (0 ∷ 0 ∷ 0 ∷ 1 ∷ 1 ∷ []) ∷ []);
  writes = λ addr s. true;
  show_addr = λ addr. addr;
  show_message = λ m. [];
  show_read = λ e. [];
  show_wire = λ e. [];
}

abbrev link : Link Bytes
link = record {
  announce = announce_of levels shell;
  host_addr = codes "peer:7001";
  stream = [];
  buf = [];
  written = 0 ∷ 0 ∷ 0 ∷ 1 ∷ 1 ∷ [];
}

connected : (id : Bytes) → connect announces network (codes "peer:7001") (some id) ≡ ok link
unfolding connect first_announce nudge map_err read_message on_decoded at_end decode_frame
    decode_body from_be_bytes to_be_bytes encode_frame
connected id = refl

abbrev when : Bytes
when = codes "2026-06-28T19:44:09Z"

abbrev host : Bytes
host = codes "desk"

abbrev parse_any : Bytes → Option Bytes
parse_any s = some s

abbrev same : Bytes → Bytes
same s = s

abbrev unread : SessionError → Bytes
unread e = []

focused : (id : Bytes) → strip.focus ≡ some id → any_id id strip.surfaces ≡ true
unfolding any_id
focused id h =
    let chosen : surface_id ≡ id = ground arith in
    rw (← chosen) (rw (bytes_eq_refl surface_id) refl)

abbrev session_id : Bytes
session_id = saved_id levels sums network.show_addr strip when

session_id_value : session_id ≡ codes "sha256:ab"
unfolding image_from_strip with_computed_id compute_id crates
session_id_value = refl

abbrev xml : Bytes
xml = saved_xml levels sums network.show_addr strip when

abbrev asked : List ReadResult
asked = received (request host (codes "/session/" ++ session_id)) ∷ []

abbrev stored : Bytes → Bytes → Result (Unit {0}) (Unit {0})
stored out text = ok tt

handled : Option Bytes → Result Bytes Bytes
handled none = err []
handled (some raw) = response_body same raw

-- What the client gets of the server.
get : Bytes → ℕ → Bytes → Result Bytes Bytes
unfolding handled
get at port path = handled (handle_connection same (new_xml session_id xml) asked)

delivered :
    (raw : Bytes)
    → handle_connection same (new_xml session_id xml) asked ≡ some raw
    → get host 7000 (codes "/session/" ++ session_id) ≡ response_body same raw
unfolding get handled
delivered raw h = ap handled h

back : Back levels announces network parse_any same session_id strip.surfaces
back = ((refl, link, connected session_id, refl), tt)

saved_read :
    Reads
      (scan none)
      read_document
      (image_markup levels sums (saved levels sums network.show_addr strip when))
unfolding read_document read_pieces text_event markup_event tag_event read_attrs split cut print
    print_attrs events_of attr_events document_markup surfaces_markup surface_markup focus_markup
    text_element words_of scan trim escape_attr escape_text to_string bytes_eq surface_id_to_str
    crates os_to_str codec_to_str fmt_f32 image_from_strip with_computed_id compute_id new_image
    entry_of
saved_read = refl

resume-suspend_and_serve_example :
    (suspend_and_serve levels sums network.show_addr same
        (λ l. (true, 1))
        stored
        (link ∷ [])
        strip
        when
        (codes "session.xml")
      ≡ ok (record { acked = 1; file = xml; served = new_xml session_id xml }))
    × (image : SessionImage Level) × (fetch_image levels sums same unread read_document some get
          (session_url host 7000 session_id)
        ≡ ok image)
    × (resume levels announces network parse_any same sums image (new_strip levels low middle)
        ≡ ok (
            resumed levels announces network parse_any same levels-Ordered refl levels-Linear sums
              strip session_id
              (printed levels sums same sums-HexLaws middle)
              low
              middle
              back))
unfolding image_from_strip with_computed_id compute_id crates request get suspend_link
    futures_join_all count_acked ascii lacks new_image entry_of push_awaited
resume-suspend_and_serve_example =
    resume-suspend_and_serve levels sums same sums-HexLaws levels-Ordered refl levels-Linear
      levels-Printable announces network parse_any unread read_document some same (scan none)
      unescape_laws same (λ s h. refl) strip when (codes "session.xml") host 7000 (link ∷ [])
      (λ l. (true, 1)) stored get asked low middle refl (ascii-IsAscii host refl)
      (lacks-Lacks b'\r' host refl) (lacks-Lacks b'/' host refl) (omega arith) tt refl (omega arith)
      delivered refl saved_read ((refl, omega arith, omega arith, omega arith), tt) refl refl
      (refl, tt) focused back
