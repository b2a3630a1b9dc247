-- ===== src/Fetch/Laws.antt =====
-- simulboot-client/src/session/mod.rs against simulboot-broker/src/lib.rs: what the client's request
-- is answered, however it arrives, and what the client makes of the answer.
use simulboot.Base.{
  ◌+◌, ◌*◌, ◌≤◌, ◌<◌, ◌≡◌, refl, sym, ap, ◌∙◌, inl, true, false, not, some, List, [], ◌∷◌, ◌++◌,
  append_assoc, arith, if◌then◌else◌, Bytes, codes, length, take, drop, length-append, take-append,
  drop-append, Lacks, All-append, All, strip_prefix, Result, ok, err,
}
use mathlib.Core.Path.{subst}
use simulboot.Base.Text.{is_whitespace}
use simulboot.Base.Decimal.{to_string, to_string-IsDigit, IsDigit}
use simulboot.Wire.Stream.{ReadResult}
use simulboot.Wire.Stream.Laws.{Flows, contents}
use simulboot.Broker.{
  ServedImage, found, not_found, method_not_allowed, route, read_head, head_of, write_response,
  crlf, answer, handle_connection,
}
use simulboot.Broker.Laws.{read_head_whole, route_iff}
use simulboot.Broker.Http.{position, header_end, find_header_end, first_line}
use simulboot.Fetch.{request, response_body, checked_body, contains}
use simulboot.Fetch.Lines.{
  find-join_lines, IsWord, lacks-Lacks, ascii-IsAscii, Lacks-append, request-find_header_end,
  request-first_line, request-words, trim_slashes-Lacks, get_line, lacks, ascii, join_lines, IsLine,
  IsAscii, KeepsAscii,
}

-- A literal behind what is ASCII.
then_literal : (x y : Bytes) → IsAscii x → ascii y ≡ true → IsAscii (x ++ y)
then_literal x y h k = All-append (λ c. c < 128) x y h (ascii-IsAscii y k)

request-IsAscii : (host path : Bytes) → IsAscii host → IsAscii path → IsAscii (request host path)
unfolding request ascii
request-IsAscii host path h k =
    let line =
      All-append (λ c. c < 128) (codes "GET ") path (ascii-IsAscii (codes "GET ") refl) k in
    let next =
      then_literal (codes "GET " ++ path) (codes " HTTP/1.1" ++ crlf ++ codes "Host: ") line refl in
    let front : Bytes = codes "GET " ++ path ++ (codes " HTTP/1.1" ++ crlf ++ codes "Host: ") in
    let named = All-append (λ c. c < 128) front host next h in
    let rest : Bytes =
      crlf ++ codes "Connection: close" ++ crlf ++ codes "Accept: */*" ++ header_end in
    let whole = then_literal (front ++ host) rest named refl in
    let form : front ++ host ++ rest ≡ request host path = simp append_assoc in
    subst IsAscii form whole

handle_connection_read :
    (lossy : Bytes → Bytes) (image : ServedImage) (stream : List ReadResult) {buf : Bytes}
    → read_head stream [] ≡ some buf
    → handle_connection lossy image stream ≡ some (answer lossy image buf)
unfolding handle_connection
handle_connection_read lossy image stream h = ground arith

digits-Lacks : (s : Bytes) → All IsDigit s → Lacks b'\r' s
digits-Lacks [] h = tt
digits-Lacks (c ∷ s) h = (λ same. omega arith, digits-Lacks s h.1)

digits-IsAscii : (s : Bytes) → All IsDigit s → IsAscii s
digits-IsAscii [] h = tt
digits-IsAscii (c ∷ s) h = (omega arith, digits-IsAscii s h.1)

module _ (lossy : Bytes → Bytes) (keeps : KeepsAscii lossy) where
  -- A request of at most 64 KiB for a path without whitespace gets the response of `route` for that
  -- path, however the stream cuts it into reads; host and path are ASCII, the host has no line end,
  -- and `from_utf8_lossy` leaves ASCII as it is.
  pub handle_connection-request :
      (image : ServedImage) (host path : Bytes) (stream : List ReadResult)
      → IsAscii host
      → Lacks b'\r' host
      → IsAscii (b'/' ∷ path)
      → IsWord (b'/' ∷ path)
      → Flows stream
      → contents stream ≡ request host (b'/' ∷ path)
      → length (request host (b'/' ∷ path)) ≤ 64 * 1024
      → handle_connection lossy image stream
        ≡ some (write_response (route (codes "GET") (b'/' ∷ path) image) image)
  unfolding answer
  handle_connection-request image host path stream ascii_host line ascii_path is_word flows whole
        short =
      let sent : Bytes = request host (b'/' ∷ path) in
      let read =
        read_head_whole sent [] stream flows whole short
          (request-find_header_end host (b'/' ∷ path) is_word line) in
      let plain : lossy sent ≡ sent =
        keeps sent (request-IsAscii host (b'/' ∷ path) ascii_host ascii_path) in
      let first : first_line (lossy sent) ≡ get_line (b'/' ∷ path) =
        ap first_line plain ∙ request-first_line host (b'/' ∷ path) is_word in
      let words = request-words path is_word in
      let answered : answer lossy image sent
          ≡ write_response (route (codes "GET") (b'/' ∷ path) image) image =
        rw first (rw (words.0) (rw (words.1) refl)) in
      handle_connection_read lossy image stream read ∙ ap some answered

  -- The response's head.
  ok_lines : ServedImage → List Bytes
  ok_lines image =
      (codes "Content-Type: " ++ image.content_type)
      ∷ (codes "Content-Length: " ++ to_string (length image.body))
      ∷ codes "Connection: close"
      ∷ []

  found-join_lines :
      (image : ServedImage)
      → write_response found image
        ≡ join_lines (codes "HTTP/1.1 200 OK") (ok_lines image) ++ header_end ++ image.body
  unfolding write_response join_lines ok_lines
  found-join_lines image = simp append_assoc

  found-find_header_end :
      (image : ServedImage)
      → Lacks b'\r' image.content_type
      → find_header_end (write_response found image)
        ≡ some (length (join_lines (codes "HTTP/1.1 200 OK") (ok_lines image)))
  unfolding ok_lines lacks
  found-find_header_end image line =
      let kind =
        Lacks-append b'\r' (codes "Content-Type: ") image.content_type
          (lacks-Lacks b'\r' (codes "Content-Type: ") refl) line in
      let number =
        Lacks-append b'\r' (codes "Content-Length: ") (to_string (length image.body))
          (lacks-Lacks b'\r' (codes "Content-Length: ") refl)
          (digits-Lacks (to_string (length image.body)) (to_string-IsDigit (length image.body))) in
      let lines : All IsLine (ok_lines image) =
        (kind, (number, (lacks-Lacks b'\r' (codes "Connection: close") refl, tt))) in
      ap find_header_end (found-join_lines image)
      ∙ find-join_lines (codes "HTTP/1.1 200 OK") (ok_lines image) image.body
          (lacks-Lacks b'\r' (codes "HTTP/1.1 200 OK") refl) lines

  found_head : ServedImage → Bytes
  found_head image = join_lines (codes "HTTP/1.1 200 OK") (ok_lines image)

  found_head-IsAscii :
      (image : ServedImage) → IsAscii image.content_type → IsAscii (found_head image)
  unfolding found_head ok_lines join_lines ascii
  found_head-IsAscii image plain =
      let front : Bytes = codes "HTTP/1.1 200 OK" ++ crlf ++ codes "Content-Type: " in
      let middle : Bytes = crlf ++ codes "Content-Length: " in
      let number : Bytes = to_string (length image.body) in
      let last : Bytes = crlf ++ codes "Connection: close" in
      let one =
        All-append (λ c. c < 128) front image.content_type (ascii-IsAscii front refl) plain in
      let two = then_literal (front ++ image.content_type) middle one refl in
      let three =
        All-append (λ c. c < 128) (front ++ image.content_type ++ middle) number two
          (digits-IsAscii number (to_string-IsDigit (length image.body))) in
      let four = then_literal (front ++ image.content_type ++ middle ++ number) last three refl in
      let form : front ++ image.content_type ++ middle ++ number ++ last ≡ found_head image =
        simp append_assoc in
      subst IsAscii form four

  found_head-first_line :
      (image : ServedImage) → first_line (found_head image) ≡ codes "HTTP/1.1 200 OK"
  unfolding found_head ok_lines join_lines first_line
  found_head-first_line image = refl

  -- A response with this head and body.
  by_status : Bytes → Bytes → Result Bytes Bytes
  by_status status body =
      if not (contains (codes " 200") status)
      then err (codes "session image fetch failed: " ++ status)
      else ok body

  response_body-head :
      (head body : Bytes)
      → find_header_end (head ++ header_end ++ body) ≡ some (length head)
      → IsAscii head
      → response_body lossy (head ++ header_end ++ body) ≡ by_status (first_line head) body
  unfolding response_body checked_body by_status
  response_body-head head body at plain =
      let front : take (length head) (head ++ header_end ++ body) ≡ head =
        ap (take (length head)) (append_assoc head header_end body)
        ∙ take-append head (header_end ++ body) in
      let long : length (head ++ header_end) ≡ length head + 4 = length-append head header_end in
      let back : drop (length head + 4) (head ++ header_end ++ body) ≡ body =
        ap (λ n. drop n (head ++ header_end ++ body)) (sym long)
        ∙ drop-append (head ++ header_end) body in
      rw at (rw front (rw (keeps head plain) (rw back refl)))

  -- The client makes of each response of the server: the body of the image that is served, or the
  -- status of the error, if the content type is ASCII and has no line end.
  pub response_body-write_response :
      (image : ServedImage)
      → IsAscii image.content_type
      → Lacks b'\r' image.content_type
      → (response_body lossy (write_response found image) ≡ ok image.body)
        × (response_body lossy (write_response not_found image)
            ≡ err (codes "session image fetch failed: HTTP/1.1 404 Not Found"))
        × (response_body lossy (write_response method_not_allowed image)
            ≡ err (codes "session image fetch failed: HTTP/1.1 405 Method Not Allowed"))
  unfolding by_status contains position write_response first_line find_header_end strip_prefix ascii
      found_head join_lines to_string
  response_body-write_response image plain line = (
    ap (response_body lossy) (found-join_lines image)
        ∙ response_body-head (found_head image) image.body
            (ap find_header_end (sym (found-join_lines image)) ∙ found-find_header_end image line)
            (found_head-IsAscii image plain)
        ∙ ap (λ status. by_status status image.body) (found_head-first_line image),
    response_body-head (head_of (codes "404 Not Found") (codes "text/plain") 18)
        (codes "session not found" ++ b'\n' ∷ []) refl
        (ascii-IsAscii (head_of (codes "404 Not Found") (codes "text/plain") 18) refl),
    response_body-head
        (head_of (codes "405 Method Not Allowed" ++ crlf ++ codes "Allow: GET") (codes "text/plain")
          19)
        (codes "method not allowed" ++ b'\n' ∷ []) refl
        (ascii-IsAscii
          (head_of (codes "405 Method Not Allowed" ++ crlf ++ codes "Allow: GET")
            (codes "text/plain") 19)
          refl),
  )

  -- What the client gets of an image that the server serves: for every cut of the request into reads,
  -- the path of the image's id yields its body. Host, id and content type are ASCII, host and content
  -- type have no line end, the id no whitespace and no slash, the request has at most 64 KiB, and
  -- `from_utf8_lossy` leaves ASCII as it is.
  pub fetch_served :
      (image : ServedImage) (host : Bytes) (stream : List ReadResult)
      → IsAscii image.content_type
      → Lacks b'\r' image.content_type
      → IsAscii host
      → Lacks b'\r' host
      → IsAscii image.id
      → IsWord image.id
      → Lacks b'/' image.id
      → Flows stream
      → contents stream ≡ request host (codes "/session/" ++ image.id)
      → length (request host (codes "/session/" ++ image.id)) ≤ 64 * 1024
      → (raw : Bytes) × (handle_connection lossy image stream ≡ some raw)
        × (response_body lossy raw ≡ ok image.body)
  unfolding is_whitespace ascii
  fetch_served image host stream plain line ascii_host host_line ascii_id is_word no_slash flows
        whole short =
      let path : Bytes = codes "session/" ++ image.id in
      let served =
        (route_iff (codes "GET") (b'/' ∷ path) image).1
          (refl, image.id, refl, inl (trim_slashes-Lacks image.id no_slash)) in
      let ascii_path =
        All-append (λ c. c < 128) (codes "/session/") image.id
          (ascii-IsAscii (codes "/session/") refl) ascii_id in
      let path_word =
        All-append (λ c. is_whitespace c ≡ false) (codes "/session/") image.id
          (refl, (refl, (refl, (refl, (refl, (refl, (refl, (refl, (refl, tt))))))))) is_word in
      (
        write_response found image,
        handle_connection-request image host path stream ascii_host host_line ascii_path path_word
              flows whole short
            ∙ ap (λ r. some (write_response r image)) served,
        (response_body-write_response image plain line).0,
      )
