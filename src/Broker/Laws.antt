-- ===== src/Broker/Laws.antt =====
-- simulboot-broker/src/lib.rs: which requests are served, and that the way a request's head is cut
-- into reads does not matter.
use simulboot.Base.{
  ℕ, ◌+◌, ◌-◌, ◌*◌, ◌≤◌, ◌≡◌, refl, sym, ap, ◌∙◌, ◌↔◌, ◌⊎◌, inl, inr, true, Option, none, some,
  List, [], ◌∷◌, ◌++◌, append-nil, append_assoc, arith, Bool-cases, Option-cases, Bytes, codes,
  length, length-append, bytes_eq, bytes_eq_iff, bytes_eq_refl, strip_prefix, strip_prefix-append,
  strip_prefix_sound,
}
use simulboot.Wire.Stream.{ReadResult, received, finished, failed}
use simulboot.Wire.Stream.Laws.{Flows, contents}
use simulboot.Broker.{
  ServedImage, found, route, route_session, matches, bare_hex, trim_slashes, read_head,
  head_complete,
}
use simulboot.Broker.Http.{header_end, position, find_header_end}

-- The text names the image: its id, or its id without `sha256:`.
abbrev pub Names : ServedImage → Bytes → Type 0
Names image s = (s ≡ image.id) ⊎ (s ≡ bare_hex image)

matches_iff : (image : ServedImage) (s : Bytes) → (matches image s ≡ true) ↔ Names image s
unfolding matches
matches_iff image s = (
  λ h. ground (arith, bytes_eq_iff s image.id, bytes_eq_iff s (bare_hex image)),
  λ h. ground (arith, bytes_eq_iff s image.id, bytes_eq_iff s (bare_hex image)),
)

route_session-found :
    (image : ServedImage) (rest : Option Bytes)
    → route_session image rest ≡ found
    → (id : Bytes) × (rest ≡ some id) × Names image (trim_slashes id)
unfolding route_session
route_session-found image none h = cc
route_session-found image (some id) h = (
  id,
  refl,
  (matches_iff image (trim_slashes id)).0 (elim (Bool-cases (matches image (trim_slashes id))) [
    | inl same ↦ same
    | inr apart ↦ ground arith
  ]),
)

pub route_iff :
    (method path : Bytes) (image : ServedImage)
    → (route method path image ≡ found) ↔ (
        (method ≡ codes "GET")
        × (id : Bytes) × (path ≡ codes "/session/" ++ id)
        × Names image (trim_slashes id))
unfolding route route_session
route_iff method path image = (
  λ h. elim (Bool-cases (bytes_eq method (codes "GET"))) [
    | inl same ↦
        (let served : route_session image (strip_prefix (codes "/session/") path) ≡ found =
            ground arith in
          let parts = route_session-found image (strip_prefix (codes "/session/") path) served in
          (
            (bytes_eq_iff method (codes "GET")).0 same,
            parts.0,
            strip_prefix_sound (codes "/session/") path parts.1,
            parts.2,
          ))
    | inr apart ↦ ground arith
  ],
  λ h.
      let named = (matches_iff image (trim_slashes h.1)).1 h.3 in
      let under : strip_prefix (codes "/session/") path ≡ some h.1 =
        rw (h.2) (strip_prefix-append (codes "/session/") (h.1)) in
      rw (h.0) (rw (bytes_eq_refl (codes "GET")) (rw under (rw named refl))),
)

-- A text found in front is found where it was.
strip_prefix_more :
    (p x y : Bytes) {r : Bytes}
    → strip_prefix p x ≡ some r
    → strip_prefix p (x ++ y) ≡ some (r ++ y)
unfolding strip_prefix
strip_prefix_more [] x y h = ground arith
strip_prefix_more (c ∷ p) [] y h = cc
strip_prefix_more (c ∷ p) (d ∷ x) y {r} h = ground (arith, strip_prefix_more p x y {r = r})

strip_prefix_fits :
    (p x y : Bytes) → length p ≤ length x → strip_prefix p x ≡ none → strip_prefix p (x ++ y) ≡ none
unfolding strip_prefix
strip_prefix_fits [] x y k h = cc
strip_prefix_fits (c ∷ p) [] y k h = absurd (omega arith)
strip_prefix_fits (c ∷ p) (d ∷ x) y k h = ground (arith, strip_prefix_fits p x y)

position_le : (p x : Bytes) {n : ℕ} → position p x ≡ some n → n + length p ≤ length x
unfolding position
position_le p [] h = cc
position_le p (c ∷ x) h = elim (Option-cases (strip_prefix p (c ∷ x))) [
  | inl apart ↦ elim (Option-cases (position p x)) [
    | inl lost ↦ ground arith
    | inr (m, at) ↦ (let fits : m + length p ≤ length x = position_le p x at in ground arith)
  ]
  | inr (r, same) ↦
      (let all : length (c ∷ x) ≡ length p + length r =
          ap length (strip_prefix_sound p (c ∷ x) same) ∙ length-append p r in
        ground arith)
]

pub position-append : (p x y : Bytes) {n : ℕ} → position p x ≡ some n → position p (x ++ y) ≡ some n
unfolding position
position-append p [] y h = cc
position-append p (c ∷ x) y h = elim (Option-cases (strip_prefix p (c ∷ x))) [
  | inl apart ↦ elim (Option-cases (position p x)) [
    | inl lost ↦ ground arith
    | inr (n, at) ↦
        (let fits : n + length p ≤ length x = position_le p x at in
          let split = strip_prefix_fits p (c ∷ x) y (omega arith) apart in
          let behind = position-append p x y at in ground arith)
  ]
  | inr (r, same) ↦ let more = strip_prefix_more p (c ∷ x) y same in ground arith
]

nothing_left : (s : Bytes) → length s ≡ 0 → s ≡ []
nothing_left [] h = refl
nothing_left (c ∷ s) h = absurd (omega arith)

-- Every read brings the whole of the request, which ends with its blank line: the loop stops with it.
pub read_head_whole :
    (request buf : Bytes) (stream : List ReadResult)
    → Flows stream
    → buf ++ contents stream ≡ request
    → length request ≤ 64 * 1024
    → find_header_end request ≡ some (length request - 4)
    → read_head stream buf ≡ some request
unfolding read_head head_complete find_header_end
read_head_whole request buf [] flows whole short ends = ground (arith, append-nil buf)
read_head_whole request buf (received (c ∷ cs) ∷ rest) flows whole short ends =
    let new : Bytes = buf ++ c ∷ cs in
    let joined : new ++ contents rest ≡ request =
      append_assoc buf (c ∷ cs) (contents rest) ∙ whole in
    let sum : length new + length (contents rest) ≡ length request =
      sym (length-append new (contents rest)) ∙ ap length joined in
    let on = read_head_whole request new rest flows joined short ends in
    elim (Option-cases (position header_end new)) [
      | inl lost ↦ ground arith
      | inr (n, at) ↦
          (let fits = position_le header_end new at in
            let found_at : position header_end request ≡ some n =
              rw (← joined) (position-append header_end new (contents rest) at) in
            let empty : contents rest ≡ [] = nothing_left (contents rest) (ground arith) in
            let all : new ≡ request =
              sym (append-nil new) ∙ ap (λ t. new ++ t) (sym empty) ∙ joined in
            ground arith)
    ]
read_head_whole request buf (received [] ∷ rest) flows whole short ends = absurd flows
read_head_whole request buf (finished ∷ rest) flows whole short ends = absurd flows
read_head_whole request buf (failed ∷ rest) flows whole short ends = absurd flows
