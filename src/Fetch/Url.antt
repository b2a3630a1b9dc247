-- ===== src/Fetch/Url.antt =====
-- simulboot-client/src/session/mod.rs: the URL that the client prints for a suspended session.
use simulboot.Base.{
  ℕ, ◌≤◌, ◌<◌, ◌≡◌, refl, ◌≢◌, ◌⊎◌, inl, inr, true, false, none, some, [], ◌∷◌, ◌++◌, arith, Bytes,
  codes, Lacks, All-append, All, strip_prefix, strip_prefix-append, ok,
}
use simulboot.Base.Decimal.{
  to_string, to_string-IsDigit, IsDigit, parse_uint, parse_uint-to_string, u16_max,
}
use simulboot.Base.Text.{is_whitespace}
use simulboot.Session.{Crypto, HexLaws, IsHexDigit}
use simulboot.Broker.Http.{position}
use simulboot.Fetch.{
  split_authority, rsplit_colon, host_port, parse_http_url, contains, last_segment,
}
use simulboot.Fetch.Lines.{IsWord, IsAscii, ascii, ascii-IsAscii, lacks, lacks-Lacks}

-- Where a text has a slash, what follows its first one starts the path.
split_authority-slash :
    (a s : Bytes) → Lacks b'/' a → split_authority (a ++ b'/' ∷ s) ≡ (a, b'/' ∷ s)
unfolding split_authority
split_authority-slash [] s h = refl
split_authority-slash (c ∷ a) s h = rw (split_authority-slash a s h.1) (ground arith)

no_colon : (s : Bytes) → Lacks b':' s → rsplit_colon s ≡ none
unfolding rsplit_colon
no_colon [] h = refl
no_colon (c ∷ s) h = rw (no_colon s h.1) (ground arith)

rsplit_colon-append :
    (host s : Bytes) → Lacks b':' s → rsplit_colon (host ++ b':' ∷ s) ≡ some (host, s)
unfolding rsplit_colon
rsplit_colon-append [] s h = rw (no_colon s h) refl
rsplit_colon-append (c ∷ host) s h = rw (rsplit_colon-append host s h) refl

digits-Lacks : (b : ℕ) → (b < b'0') ⊎ (b'9' < b) → (s : Bytes) → All IsDigit s → Lacks b s
digits-Lacks b above [] h = tt
digits-Lacks b above (c ∷ s) h = (λ same. ground arith, digits-Lacks b above s h.1)

no_slash : (s : Bytes) → Lacks b'/' s → position (codes "/") s ≡ none
unfolding position strip_prefix
no_slash [] h = refl
no_slash (c ∷ s) h = ground (arith, no_slash s h.1)

-- `http://`, the address, and the path of an image.
unfoldable pub session_url : Bytes → ℕ → Bytes → Bytes
session_url host port id =
    codes "http://" ++ ((host ++ b':' ∷ to_string port) ++ (codes "/session/" ++ id))

parse_rest :
    (rest : Bytes) {authority path host : Bytes} {port : ℕ}
    → split_authority rest ≡ (authority, path)
    → host_port authority ≡ ok (host, port)
    → parse_http_url (codes "http://" ++ rest) ≡ ok (host, port, path)
unfolding parse_http_url
parse_rest rest split at = rw (strip_prefix-append (codes "http://") rest) (rw split (rw at refl))

port_read :
    (authority : Bytes) {host digits : Bytes} {port : ℕ}
    → rsplit_colon authority ≡ some (host, digits)
    → parse_uint u16_max digits ≡ some port
    → host_port authority ≡ ok (host, port)
unfolding host_port
port_read authority split read = ground arith

host_port-digits :
    (host : Bytes) (port : ℕ)
    → port ≤ u16_max
    → host_port (host ++ b':' ∷ to_string port) ≡ ok (host, port)
host_port-digits host port small =
    let lacks_colon =
      digits-Lacks b':' (inr (omega arith)) (to_string port) (to_string-IsDigit port) in
    port_read (host ++ b':' ∷ to_string port)
      (rsplit_colon-append host (to_string port) lacks_colon)
      (parse_uint-to_string u16_max port small)

pub parse_http_url-session_url :
    (host : Bytes) (port : ℕ) (id : Bytes)
    → Lacks b'/' host
    → port ≤ u16_max
    → parse_http_url (session_url host port id) ≡ ok (host, port, codes "/session/" ++ id)
unfolding session_url
parse_http_url-session_url host port id h small =
    let digits = digits-Lacks b'/' (inl (omega arith)) (to_string port) (to_string-IsDigit port) in
    let address =
      All-append (λ c. c ≢ b'/') host (b':' ∷ to_string port) h ((λ same. omega arith), digits) in
    parse_rest _
      (split_authority-slash (host ++ b':' ∷ to_string port) (codes "session/" ++ id) address)
      (host_port-digits host port small)

has_slash : (p s : Bytes) → contains (codes "/") (p ++ b'/' ∷ s) ≡ true
unfolding contains position strip_prefix
has_slash [] s = refl
has_slash (c ∷ p) s = ground (arith, has_slash p s)

last_segment-slash : (p s : Bytes) → Lacks b'/' s → last_segment (p ++ b'/' ∷ s) ≡ s
unfolding last_segment contains
last_segment-slash [] s h = ground (arith, has_slash [] s, no_slash s h)
last_segment-slash (c ∷ p) s h =
    ground (arith, has_slash (c ∷ p) s, has_slash p s, last_segment-slash p s h)

pub last_segment-session :
    (id : Bytes) → Lacks b'/' id → last_segment (codes "/session/" ++ id) ≡ id
last_segment-session id h = last_segment-slash (codes "/session") id h

hex-IsAscii : (s : Bytes) → All IsHexDigit s → IsAscii s
hex-IsAscii [] h = tt
hex-IsAscii (c ∷ s) h = (ground arith, hex-IsAscii s h.1)

hex-IsWord : (s : Bytes) → All IsHexDigit s → IsWord s
unfolding is_whitespace
hex-IsWord [] h = tt
hex-IsWord (c ∷ s) h = (ground arith, hex-IsWord s h.1)

hex-Lacks : (s : Bytes) → All IsHexDigit s → Lacks b'/' s
hex-Lacks [] h = tt
hex-Lacks (c ∷ s) h = (λ same. ground arith, hex-Lacks s h.1)

-- What the server and the URL ask of a content id.
pub content_id_lem :
    (cr : Crypto)
    → HexLaws cr
    → (b : Bytes)
    → IsAscii (codes "sha256:" ++ cr.encode b)
      × IsWord (codes "sha256:" ++ cr.encode b)
      × Lacks b'/' (codes "sha256:" ++ cr.encode b)
unfolding ascii lacks is_whitespace
content_id_lem cr laws b =
    let hex = laws.encode-IsHexDigit b in
    (
      All-append (λ c. c < 128) (codes "sha256:") (cr.encode b)
          (ascii-IsAscii (codes "sha256:") refl) (hex-IsAscii (cr.encode b) hex),
      All-append (λ c. is_whitespace c ≡ false) (codes "sha256:") (cr.encode b)
          (refl, (refl, (refl, (refl, (refl, (refl, (refl, tt))))))) (hex-IsWord (cr.encode b) hex),
      All-append (λ c. c ≢ b'/') (codes "sha256:") (cr.encode b)
          (lacks-Lacks b'/' (codes "sha256:") refl) (hex-Lacks (cr.encode b) hex),
    )
