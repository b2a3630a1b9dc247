-- ===== src/Fetch/Lines.antt =====
-- The lines of an HTTP head, as simulboot-client/src/session/mod.rs and
-- simulboot-broker/src/lib.rs write them, and where a head ends.
use simulboot.Base.{
  ℕ, ◌+◌, ◌-◌, ◌<◌, ◌≡◌, refl, ap, ◌∙◌, ◌≢◌, Bool, true, false, not, ◌&&◌, Option, none, some, List,
  [], ◌∷◌, ◌++◌, append-nil, append_assoc, arith, ltb, ◌==◌, Bytes, codes, length, length-append,
  Lacks, All-append, All, strip_prefix,
}
use simulboot.Base.Text.{is_whitespace, trim_start}
use simulboot.Broker.{trim_slashes, crlf}
use simulboot.Broker.Http.{
  header_end, position, find_header_end, first_line, word, past_word, first_word, after_word,
}
use simulboot.Fetch.{request}

plus : ℕ → Option ℕ → Option ℕ
plus k none = none
plus k (some n) = some (n + k)

-- The blank line does not begin with another character.
find_past : (c : ℕ) (s : Bytes) → c ≢ b'\r' → find_header_end (c ∷ s) ≡ plus 1 (find_header_end s)
unfolding find_header_end position strip_prefix plus
find_past c s h = ground arith

find_past_crlf :
    (c : ℕ) (s : Bytes)
    → c ≢ b'\r'
    → find_header_end (b'\r' ∷ b'\n' ∷ c ∷ s) ≡ plus 2 (find_header_end (c ∷ s))
unfolding find_header_end position strip_prefix plus
find_past_crlf c s h = ground arith

plus-plus : (k m : ℕ) (o : Option ℕ) → plus k (plus m o) ≡ plus (k + m) o
unfolding plus
plus-plus k m none = refl
plus-plus k m (some n) = ap some (omega arith)

-- A line that is followed by another is passed over.
find_past_line :
    (l : Bytes) (c : ℕ) (s : Bytes)
    → Lacks b'\r' l
    → c ≢ b'\r'
    → find_header_end (l ++ crlf ++ c ∷ s) ≡ plus (length l + 2) (find_header_end (c ∷ s))
find_past_line [] c s h k = find_past_crlf c s k
find_past_line (d ∷ l) c s h k =
    find_past d (l ++ crlf ++ c ∷ s) h.0
    ∙ ap (plus 1) (find_past_line l c s h.1 k)
    ∙ plus-plus 1 (length l + 2) (find_header_end (c ∷ s))
    ∙ ap (λ n. plus n (find_header_end (c ∷ s))) (omega arith)

found_here : (s : Bytes) → find_header_end (header_end ++ s) ≡ some 0
unfolding find_header_end position strip_prefix
found_here s = refl

-- The blank line is behind the last line.
find_at_end :
    (l s : Bytes) → Lacks b'\r' l → find_header_end (l ++ header_end ++ s) ≡ some (length l)
unfolding plus
find_at_end [] s h = found_here s
find_at_end (d ∷ l) s h =
    find_past d (l ++ header_end ++ s) h.0
    ∙ ap (plus 1) (find_at_end l s h.1)
    ∙ ap some (omega arith)

pub first_line-crlf :
    (l s : Bytes) → Lacks b'\r' l → Lacks b'\n' l → first_line (l ++ crlf ++ s) ≡ l
unfolding first_line
first_line-crlf [] s h k = refl
first_line-crlf (c ∷ []) s h k = ground arith
first_line-crlf (c ∷ d ∷ l) s h k = ground (arith, first_line-crlf (d ∷ l) s)

-- No whitespace.
abbrev pub IsWord : Bytes → Type 0
IsWord s = All (λ c. is_whitespace c ≡ false) s

word-append : (w s : Bytes) → IsWord w → word (w ++ b' ' ∷ s) ≡ w
unfolding word is_whitespace
word-append [] s h = refl
word-append (c ∷ w) s h = rw (h.0) (ap (λ t. c ∷ t) (word-append w s h.1))

pub trim_slashes-Lacks : (s : Bytes) → Lacks b'/' s → trim_slashes s ≡ s
unfolding trim_slashes
trim_slashes-Lacks [] h = refl
trim_slashes-Lacks (c ∷ s) h = ground (arith, trim_slashes-Lacks s)

-- Lines of a head, one behind another, the last without its end.
unfoldable pub join_lines : Bytes → List Bytes → Bytes
join_lines l [] = l
join_lines l (m ∷ ls) = l ++ crlf ++ join_lines m ls

abbrev pub IsLine : Bytes → Type 0
IsLine [] = ⊥
IsLine (c ∷ l) = Lacks b'\r' (c ∷ l)

join_lines-cons :
    (c : ℕ) (l : Bytes) (ls : List Bytes) → (s : Bytes) × (join_lines (c ∷ l) ls ≡ c ∷ s)
unfolding join_lines
join_lines-cons c l [] = (l, refl)
join_lines-cons c l (m ∷ ls) = (l ++ crlf ++ join_lines m ls, refl)

-- A head ends behind its last line.
pub find-join_lines :
    (l : Bytes) (ls : List Bytes) (s : Bytes)
    → Lacks b'\r' l
    → All IsLine ls
    → find_header_end (join_lines l ls ++ header_end ++ s) ≡ some (length (join_lines l ls))
unfolding join_lines plus
find-join_lines l [] s h hs = find_at_end l s h
find-join_lines l ([] ∷ ls) s h hs = absurd (hs.0)
find-join_lines l ((c ∷ m) ∷ ls) s h hs =
    let (r, front) = join_lines-cons c m ls in
    let rest : Bytes = join_lines (c ∷ m) ls ++ header_end ++ s in
    let apart : join_lines l ((c ∷ m) ∷ ls) ++ header_end ++ s ≡ l ++ crlf ++ rest =
      simp append_assoc in
    let after = find-join_lines (c ∷ m) ls s hs.0 hs.1 in
    let start : rest ≡ c ∷ (r ++ header_end ++ s) = ap (λ t. t ++ header_end ++ s) front in
    let passed : find_header_end (l ++ crlf ++ rest) ≡ plus (length l + 2) (find_header_end rest) =
      rw start (find_past_line l c (r ++ header_end ++ s) h (hs.0).0) in
    let sum = length-append (l ++ crlf) (join_lines (c ∷ m) ls) in
    let line = length-append l crlf in
    ap find_header_end apart ∙ passed ∙ ap (plus (length l + 2)) after ∙ ap some (omega arith)

abbrev pub IsAscii : Bytes → Type 0
IsAscii s = All (λ c. c < 128) s

-- `from_utf8_lossy` leaves ASCII as it is.
abbrev pub KeepsAscii : (Bytes → Bytes) → Type 0
KeepsAscii lossy = (s : Bytes) → IsAscii s → lossy s ≡ s

unfoldable pub get_line : Bytes → Bytes
get_line path = codes "GET " ++ path ++ codes " HTTP/1.1"

request_lines : Bytes → List Bytes
request_lines host = (codes "Host: " ++ host) ∷ codes "Connection: close" ∷ codes "Accept: */*" ∷ []

request-join_lines :
    (host path : Bytes)
    → request host path ≡ join_lines (get_line path) (request_lines host) ++ header_end ++ []
unfolding request join_lines get_line request_lines
request-join_lines host path = simp append_assoc

pub IsWord-Lacks : (b : ℕ) (s : Bytes) → is_whitespace b ≡ true → IsWord s → Lacks b s
IsWord-Lacks b [] h k = tt
IsWord-Lacks b (c ∷ s) h k = (λ same. ground arith, IsWord-Lacks b s h k.1)

-- Tests of these on a literal.
unfoldable pub lacks : ℕ → Bytes → Bool
lacks b [] = true
lacks b (c ∷ s) = not (c == b) && lacks b s

pub lacks-Lacks : (b : ℕ) (s : Bytes) → lacks b s ≡ true → Lacks b s
unfolding lacks
lacks-Lacks b [] h = tt
lacks-Lacks b (c ∷ s) h = (λ same. ground arith, lacks-Lacks b s (ground arith))

unfoldable pub ascii : Bytes → Bool
ascii [] = true
ascii (c ∷ s) = ltb c 128 && ascii s

pub ascii-IsAscii : (s : Bytes) → ascii s ≡ true → IsAscii s
unfolding ascii
ascii-IsAscii [] h = tt
ascii-IsAscii (c ∷ s) h = (ground arith, ascii-IsAscii s (ground arith))

pub Lacks-append : (b : ℕ) (x y : Bytes) → Lacks b x → Lacks b y → Lacks b (x ++ y)
Lacks-append b = All-append (λ c. c ≢ b)

get_line-Lacks :
    (b : ℕ) (path : Bytes)
    → is_whitespace b ≡ true
    → lacks b (codes "GET ") ≡ true
    → lacks b (codes " HTTP/1.1") ≡ true
    → IsWord path
    → Lacks b (get_line path)
unfolding get_line
get_line-Lacks b path space front back h =
    Lacks-append b (codes "GET " ++ path) (codes " HTTP/1.1")
      (Lacks-append b (codes "GET ") path (lacks-Lacks b (codes "GET ") front)
        (IsWord-Lacks b path space h))
      (lacks-Lacks b (codes " HTTP/1.1") back)

-- The request ends with the only blank line in it.
pub request-find_header_end :
    (host path : Bytes)
    → IsWord path
    → Lacks b'\r' host
    → find_header_end (request host path) ≡ some (length (request host path) - 4)
unfolding request_lines lacks is_whitespace
request-find_header_end host path word_path one_line =
    let head : Bytes = join_lines (get_line path) (request_lines host) in
    let form = request-join_lines host path in
    let host_line =
      Lacks-append b'\r' (codes "Host: ") host (lacks-Lacks b'\r' (codes "Host: ") refl) one_line in
    let lines : All IsLine (request_lines host) = (
      host_line,
      (
        lacks-Lacks b'\r' (codes "Connection: close") refl,
        (lacks-Lacks b'\r' (codes "Accept: */*") refl, tt),
      ),
    ) in
    let at =
      find-join_lines (get_line path) (request_lines host) []
        (get_line-Lacks b'\r' path refl refl refl word_path) lines in
    let sum : length (head ++ header_end ++ []) ≡ length head + 4 =
      rw (append-nil (head ++ header_end)) (length-append head header_end) in
    ap find_header_end form ∙ at ∙ ap some (rw form (rw sum (omega arith)))

-- What the server reads of the request's head.
pub request-first_line :
    (host path : Bytes) → IsWord path → first_line (request host path) ≡ get_line path
unfolding request_lines join_lines lacks is_whitespace
request-first_line host path word_path =
    let rest : Bytes =
      join_lines (codes "Host: " ++ host) (codes "Connection: close" ∷ codes "Accept: */*" ∷ [])
      ++ header_end
      ++ [] in
    let form : request host path ≡ get_line path ++ crlf ++ rest =
      request-join_lines host path ∙ simp append_assoc in
    ap first_line form
    ∙ first_line-crlf (get_line path) rest (get_line-Lacks b'\r' path refl refl refl word_path)
        (get_line-Lacks b'\n' path refl refl refl word_path)

pub request-words :
    (path : Bytes)
    → IsWord (b'/' ∷ path)
    → (first_word (get_line (b'/' ∷ path)) ≡ codes "GET")
      × (first_word (after_word (get_line (b'/' ∷ path))) ≡ b'/' ∷ path)
unfolding get_line first_word after_word word past_word trim_start is_whitespace
request-words path h = (refl, ap (λ t. b'/' ∷ t) (word-append path (codes "HTTP/1.1") h.1))
