-- ===== src/Fetch/Examples.antt =====
-- A request that arrives in three reads, and the client's view of the answers.
use simulboot.Base.{
  ℕ, ◌≡◌, refl, ◌⊎◌, none, some, List, [], ◌∷◌, arith, Bytes, codes, take, drop, bytes_eq,
  strip_prefix, Result, ok, err,
}
use simulboot.Base.Text.{is_whitespace}
use simulboot.Wire.Stream.{ReadResult, received}
use simulboot.Broker.{
  ServedImage, found, not_found, method_not_allowed, write_response, handle_connection,
}
use simulboot.Base.Decimal.{parse_uint}
use simulboot.Examples.Numbers.{levels, Level}
use simulboot.Session.{SessionImage, SessionError, Crypto}
use simulboot.Session.Write.{compute_id}
use simulboot.Session.Parse.{
  Event, start, local_name, parse_session, parse_attrs, set_attr, xml_err,
}
use simulboot.Session.Parse.Document.{
  from_xml, from_events, walk, on_event, on_start, open_named, finish, sort_by_order,
}
use simulboot.Broker.Http.{position}
use simulboot.Fetch.Image.{fetch_image, fetch_image_sound, check_url_id, bare, shown}
use simulboot.Fetch.{
  request, response_body, parse_http_url, split_authority, host_port, rsplit_colon, last_segment,
  contains,
}
use simulboot.Fetch.Lines.{ascii, ascii-IsAscii, lacks, lacks-Lacks}
use simulboot.Fetch.Laws.{response_body-write_response, fetch_served}

abbrev page : ServedImage
page = record {
  id = codes "sha256:ab12";
  body = codes "<session/>";
  content_type = codes "text/xml";
}

abbrev asked : Bytes
asked = request (codes "peer") (codes "/session/sha256:ab12")

abbrev reads : List ReadResult
reads =
    received (take 9 asked)
    ∷ received (take 40 (drop 9 asked))
    ∷ received (drop 40 (drop 9 asked))
    ∷ []

abbrev unchanged : Bytes → Bytes
unchanged s = s

fetch_served_example :
    (raw : Bytes) × (handle_connection unchanged page reads ≡ some raw)
    × (response_body unchanged raw ≡ ok (codes "<session/>"))
unfolding ascii lacks is_whitespace request
fetch_served_example =
    fetch_served unchanged (λ s h. refl) page (codes "peer") reads
      (ascii-IsAscii (codes "text/xml") refl) (lacks-Lacks b'\r' (codes "text/xml") refl)
      (ascii-IsAscii (codes "peer") refl) (lacks-Lacks b'\r' (codes "peer") refl)
      (ascii-IsAscii (codes "sha256:ab12") refl)
      (refl, (refl, (refl, (refl, (refl, (refl, (refl, (refl, (refl, (refl, (refl, tt)))))))))))
      (lacks-Lacks b'/' (codes "sha256:ab12") refl) tt refl (omega arith)

response_body-write_response_example :
    (response_body unchanged (write_response found page) ≡ ok page.body)
    × (response_body unchanged (write_response not_found page)
        ≡ err (codes "session image fetch failed: HTTP/1.1 404 Not Found"))
    × (response_body unchanged (write_response method_not_allowed page)
        ≡ err (codes "session image fetch failed: HTTP/1.1 405 Method Not Allowed"))
unfolding ascii lacks
response_body-write_response_example =
    response_body-write_response unchanged (λ s h. refl) page
      (ascii-IsAscii (codes "text/xml") refl) (lacks-Lacks b'\r' (codes "text/xml") refl)

-- A digest that is always the same, and a document of one element.
abbrev constant : Crypto
constant = record { digest = λ s. s; encode = λ s. codes "ab12"; decode = λ s. ok [] }

abbrev one_element : List (Result Bytes Event)
one_element =
    ok (
      start (record {
        name = codes "session";
        attributes = ok (record { key = codes "created"; value = ok (codes "now") }) ∷ [];
      }))
    ∷ []

abbrev created_now : SessionImage Level
created_now = record {
  id = none;
  created = codes "now";
  schema_version = 1;
  surfaces = [];
  layout = record { scroll_pos = levels.of_ℕ 0; focus = none };
}

abbrev url : Bytes
url = codes "http://peer:7000/session/ab12"

abbrev unread : SessionError → Bytes
unread e = []

fetch_image_sound_example :
    (host : Bytes) × (port : ℕ) × (path : Bytes) × (parse_http_url url ≡ ok (host, port, path))
    × ((last_segment path ≡ compute_id levels constant created_now)
        ⊎ (last_segment path
            ≡ bare levels constant unchanged unread (compute_id levels constant created_now)))
unfolding fetch_image parse_http_url split_authority host_port rsplit_colon last_segment contains
    position strip_prefix check_url_id bare compute_id bytes_eq from_xml from_events walk on_event
    on_start open_named local_name parse_session parse_attrs set_attr xml_err finish sort_by_order
    shown parse_uint
fetch_image_sound_example =
    fetch_image_sound levels constant unchanged unread (λ doc. one_element) (λ body. some body)
      (λ host port path. ok (codes "<session/>")) url {img = created_now} refl
