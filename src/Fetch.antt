-- ===== src/Fetch.antt =====
-- simulboot-client/src/session/mod.rs: the client's side of HTTP. An error is the message of its
-- `anyhow` error; `lossy` is `String::from_utf8_lossy`. Lines has the lines of a head, Laws what comes back from the server, Image the check of a fetched image.
pub mod Lines
pub mod Laws
pub mod Image
pub mod Url
mod Examples
use simulboot.Base.{
  ℕ, ◌+◌, Bool, true, false, not, Option, none, some, [], ◌∷◌, ◌++◌, ◌==◌, if◌then◌else◌, Bytes,
  codes, take, drop, strip_prefix, Result, ok, err, ◌>>=◌, ok_or,
}
use simulboot.Base.Decimal.{parse_uint, u16_max, to_string}
use simulboot.Broker.{crlf}
use simulboot.Broker.Http.{find_header_end, first_line, header_end, position}

-- `rest.find('/')`, with the text before it and the text from it on; all and `/` where there is none.
unfoldable pub split_authority : Bytes → Bytes × Bytes
split_authority [] = ([], codes "/")
split_authority (c ∷ s) =
    let rest = split_authority s in if c == b'/' then ([], c ∷ s) else (c ∷ rest.0, rest.1)

-- `rsplit_once(':')`
unfoldable pub rsplit_colon : Bytes → Option (Bytes × Bytes)
rsplit_colon [] = none
rsplit_colon (c ∷ s) = elim (rsplit_colon s) [
  | some parts ↦ some (c ∷ parts.0, parts.1)
  | none ↦ if c == b':' then some ([], s) else none
]

unfoldable pub host_port : Bytes → Result Bytes (Bytes × ℕ)
host_port authority = elim (rsplit_colon authority) [
  | some parts ↦ ok_or (parse_uint u16_max parts.1) (codes "invalid port in URL") >>= λ port.
      ok (parts.0, port)
  | none ↦ ok (authority, 80)
]

unfoldable pub parse_http_url : Bytes → Result Bytes (Bytes × ℕ × Bytes)
parse_http_url url =
    ok_or (strip_prefix (codes "http://") url) (codes "resume URL must start with http://")
    >>= λ rest.
        let parts = split_authority rest in host_port parts.0 >>= λ at. ok (at.0, at.1, parts.1)

-- What `http_get` sends.
unfoldable pub request : Bytes → Bytes → Bytes
request host path =
    codes "GET "
    ++ path
    ++ codes " HTTP/1.1"
    ++ crlf
    ++ codes "Host: "
    ++ host
    ++ crlf
    ++ codes "Connection: close"
    ++ crlf
    ++ codes "Accept: */*"
    ++ header_end

-- `status.contains(" 200")`
unfoldable pub contains : Bytes → Bytes → Bool
contains p s = elim (position p s) [ some n ↦ true | none ↦ false ]

module _ (lossy : Bytes → Bytes) where
  unfoldable pub checked_body : Bytes → ℕ → Result Bytes Bytes
  checked_body raw split =
      let status = first_line (lossy (take split raw)) in
      if not (contains (codes " 200") status)
      then err (codes "session image fetch failed: " ++ status)
      else ok (drop (split + 4) raw)

  -- What `http_get` makes of the whole response.
  unfoldable pub response_body : Bytes → Result Bytes Bytes
  response_body raw =
      ok_or (find_header_end raw) (codes "malformed HTTP response (no header terminator)")
      >>= λ split. checked_body raw split

-- `path.rsplit('/').next()`
unfoldable pub last_segment : Bytes → Bytes
last_segment [] = []
last_segment (c ∷ s) =
    let rest = last_segment s in
    if contains (codes "/") (c ∷ s) then (if contains (codes "/") s then rest else s) else c ∷ s
