-- ===== src/Broker.antt =====
-- simulboot-broker/src/lib.rs: the HTTP server of one session image. A connection is the list of
-- what its reads bring; `lossy` is `String::from_utf8_lossy`. Http has the part of HTTP that the
-- client shares. Laws has what a request is answered.
pub mod Http
pub mod Laws
mod Examples
use simulboot.Base.{
  ℕ, ◌*◌, Bool, true, not, ◌&&◌, ◌||◌, Option, none, some, List, [], ◌∷◌, ◌++◌, ltb, ◌==◌,
  if◌then◌else◌, Bytes, codes, length, bytes_eq, strip_prefix,
}
use simulboot.Base.Decimal.{to_string}
use simulboot.Wire.Stream.{ReadResult, received, finished, failed}
use Http.{find_header_end, first_line, first_word, after_word, header_end}

pub record ServedImage : Type 0 where
  pub id : Bytes
  pub body : Bytes
  pub content_type : Bytes

unfoldable pub new_xml : Bytes → Bytes → ServedImage
new_xml id body = record {
  id = id;
  body = body;
  content_type = codes "application/xml; charset=utf-8";
}

-- `unwrap_or`
unfoldable pub unwrap_or : Bytes → Option Bytes → Bytes
unwrap_or default none = default
unwrap_or default (some s) = s

unfoldable pub bare_hex : ServedImage → Bytes
bare_hex image = unwrap_or image.id (strip_prefix (codes "sha256:") image.id)

unfoldable pub matches : ServedImage → Bytes → Bool
matches image requested = bytes_eq requested image.id || bytes_eq requested (bare_hex image)

-- `trim_end_matches('/')`
unfoldable pub trim_slashes : Bytes → Bytes
trim_slashes [] = []
trim_slashes (c ∷ s) =
    let rest = trim_slashes s in if c == b'/' && length rest == 0 then [] else c ∷ rest

pub data Route : Type 0 where
  found not_found method_not_allowed : Route

unfoldable pub route_session : ServedImage → Option Bytes → Route
route_session image none = not_found
route_session image (some id) = if matches image (trim_slashes id) then found else not_found

unfoldable pub route : Bytes → Bytes → ServedImage → Route
route method path image =
    if not (bytes_eq method (codes "GET"))
    then method_not_allowed
    else route_session image (strip_prefix (codes "/session/") path)

abbrev pub crlf : Bytes
crlf = b'\r' ∷ b'\n' ∷ []

-- The response's head, up to its blank line, with a body of this length.
abbrev pub head_of : Bytes → Bytes → ℕ → Bytes
head_of status content_type len =
    codes "HTTP/1.1 "
    ++ status
    ++ crlf
    ++ codes "Content-Type: "
    ++ content_type
    ++ crlf
    ++ codes "Content-Length: "
    ++ to_string len
    ++ crlf
    ++ codes "Connection: close"

unfoldable pub write_response : Route → ServedImage → Bytes
write_response found image =
    head_of (codes "200 OK") image.content_type (length image.body) ++ header_end ++ image.body
write_response not_found image =
    let body = codes "session not found" ++ b'\n' ∷ [] in
    head_of (codes "404 Not Found") (codes "text/plain") (length body) ++ header_end ++ body
write_response method_not_allowed image =
    let body = codes "method not allowed" ++ b'\n' ∷ [] in
    head_of (codes "405 Method Not Allowed" ++ crlf ++ codes "Allow: GET") (codes "text/plain")
      (length body)
    ++ header_end
    ++ body

-- `find_header_end(&buf).is_some() || buf.len() > 64 * 1024`
unfoldable pub head_complete : Bytes → Bool
head_complete buf = elim (find_header_end buf) [
  | some n ↦ true
  | none ↦ ltb (64 * 1024) (length buf)
]

-- The loop that reads the request's head; `none` is a failed read.
unfoldable pub read_head : List ReadResult → Bytes → Option Bytes
read_head [] buf = some buf
read_head (finished ∷ rest) buf = some buf
read_head (failed ∷ rest) buf = none
read_head (received [] ∷ rest) buf = some buf
read_head (received (c ∷ cs) ∷ rest) buf =
    let more = read_head rest (buf ++ c ∷ cs) in
    if head_complete (buf ++ c ∷ cs) then some (buf ++ c ∷ cs) else more

module _ (lossy : Bytes → Bytes) where
  -- The answer to a request's head.
  unfoldable pub answer : ServedImage → Bytes → Bytes
  answer image buf =
      let request_line = first_line (lossy buf) in
      let method = first_word request_line in
      let path = first_word (after_word request_line) in
      write_response (route method path image) image

  unfoldable pub handle_connection : ServedImage → List ReadResult → Option Bytes
  handle_connection image stream = elim (read_head stream []) [
    | none ↦ none
    | some buf ↦ some (answer image buf)
  ]
