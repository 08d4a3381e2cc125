-- ===== src/Mime/RoundTrip.antt =====
-- A message is parsed as it was serialized.
use xb.Common.{
  ℕ, zero, suc, ◌+◌, ◌≤◌, ◌<◌, List, [], ◌∷◌, ◌++◌, length, length-append, Bool, true, false,
  Option, none, some, ◌==◌, if◌then◌else◌, ◌≡◌, ◌∙◌, refl, sym, ap, arith, All, append_assoc,
}
use xb.Common.Text.{Bytes, codes}
use xb.Mime.Multipart.{
  MimePart, crlf, match_at, found_at, find_boundary, skip_byte, skip_crlf, drop_last, parse_part,
  part_text, is_closing, parse_parts, parts_from, parse_multipart, part_bytes, parts_bytes,
  serialize_multipart,
}
use xb.Mime.HeaderLaws.{InLine, IsPart, drop_last-append, parse_part-part_bytes}

match_at-append : (needle rest : Bytes) → match_at needle (needle ++ rest) ≡ some rest
unfolding match_at
match_at-append [] rest = refl
match_at-append (n ∷ needle) rest =
    let same : (n == n) ≡ true = ground arith in rw same (match_at-append needle rest)

same_test :
    (test : Bool) (a b : Option Bytes)
    → (a ≡ none → b ≡ none)
    → (if test then a else none) ≡ none
    → (if test then b else none) ≡ none
same_test true a b step h = step h
same_test false a b step h = refl

-- A text that is not there is not there when a line ends behind it.
match_at-line :
    (needle s rest : Bytes)
    → All InLine needle
    → match_at needle s ≡ none
    → match_at needle (s ++ (crlf ++ rest)) ≡ none
unfolding match_at
match_at-line [] s rest ok h = cc
match_at-line (n ∷ needle) [] rest ok h = rw ok.0.0 refl
match_at-line (n ∷ needle) (c ∷ s) rest ok h =
    same_test (n == c) (match_at needle s) (match_at needle (s ++ (crlf ++ rest)))
      (match_at-line needle s rest ok.1) h

found_at-none :
    (found : Option Bytes) (c : ℕ) (later : Option (Bytes × Bytes))
    → found_at found c later ≡ none
    → (found ≡ none) × (later ≡ none)
unfolding found_at
found_at-none none c none h = (refl, refl)
found_at-none none c (some split) h = cc
found_at-none (some rest) c later h = cc

find_boundary-here :
    (n : ℕ) (needle rest : Bytes)
    → find_boundary (n ∷ needle) ((n ∷ needle) ++ rest) ≡ some ([], rest)
unfolding find_boundary found_at
find_boundary-here n needle rest = rw (match_at-append (n ∷ needle) rest) refl

-- The boundary behind the line that ends a part is the first one, where the part has none.
find_boundary-part :
    (n : ℕ) (needle s rest : Bytes)
    → All InLine (n ∷ needle)
    → find_boundary (n ∷ needle) s ≡ none
    → find_boundary (n ∷ needle) (s ++ (crlf ++ ((n ∷ needle) ++ rest))) ≡ some (s ++ crlf, rest)
unfolding find_boundary match_at found_at
find_boundary-part n needle [] rest ok h =
    let delim = n ∷ needle in
    rw
      (
        not_at 13 (10 ∷ (delim ++ rest)) ok.0.0,
        not_at 10 (delim ++ rest) ok.0.1,
        find_boundary-here n needle rest,
      )
      refl
  where
    not_at : (c : ℕ) (s : Bytes) → (n == c) ≡ false → match_at (n ∷ needle) (c ∷ s) ≡ none
    not_at c s e = rw e refl
find_boundary-part n needle (c ∷ s) rest ok h =
    let (here, later) =
      found_at-none (match_at (n ∷ needle) (c ∷ s)) c (find_boundary (n ∷ needle) s) h in
    rw
      (
        match_at-line (n ∷ needle) (c ∷ s) ((n ∷ needle) ++ rest) ok here,
        find_boundary-part n needle s rest ok later,
      )
      refl

part_text-crlf : (s : Bytes) → part_text (s ++ crlf) ≡ s
unfolding part_text
part_text-crlf s =
    ap (λ t. drop_last 13 (drop_last 10 t)) (sym (append_assoc s (13 ∷ []) (10 ∷ [])))
    ∙ (ap (drop_last 13) (drop_last-append 10 (s ++ (13 ∷ []))) ∙ drop_last-append 13 s)

find_boundary-nil : (delim : Bytes) → find_boundary delim [] ≡ none
unfolding find_boundary
find_boundary-nil delim = refl

parse_parts-found :
    (f : ℕ) (delim s before rest : Bytes)
    → find_boundary delim s ≡ some (before, rest)
    → parse_parts (suc f) delim s
      ≡ parse_part (part_text before)
        ∷ (if is_closing rest then [] else parse_parts f delim (skip_crlf rest))
unfolding parse_parts
parse_parts-found f delim [] before rest h = cc (find_boundary-nil delim)
parse_parts-found f delim (c ∷ s) before rest h = rw (parse_parts, h) refl

-- What is behind a boundary in front of the parts.
abbrev behind : Bytes → List MimePart → Bytes
behind delim [] = codes "--" ++ crlf
behind delim (part ∷ parts) = crlf ++ (part_bytes part ++ (crlf ++ (delim ++ behind delim parts)))

parts_bytes-behind :
    (delim : Bytes) (parts : List MimePart) → parts_bytes delim parts ≡ delim ++ behind delim parts
unfolding parts_bytes
parts_bytes-behind delim [] = refl
parts_bytes-behind delim (part ∷ parts) = rw (parts_bytes-behind delim parts) refl

-- A part that can be sent with a boundary: the boundary line is nowhere in it.
abbrev pub CanBeSent : Bytes → MimePart → Type 0
CanBeSent boundary part =
    IsPart part × (find_boundary (b'-' ∷ b'-' ∷ boundary) (part_bytes part) ≡ none)

room_left : (a b d r : Bytes) → length r + 2 ≤ length (a ++ (crlf ++ (d ++ (crlf ++ r))))
room_left a b d r =
    omega (arith, length-append a (crlf ++ (d ++ (crlf ++ r))), length-append d (crlf ++ r))

first_part :
    (f : ℕ) (boundary : Bytes) (part : MimePart) (rest : Bytes)
    → All InLine boundary
    → CanBeSent boundary part
    → parse_parts
        (suc f)
        (b'-' ∷ b'-' ∷ boundary)
        (part_bytes part ++ (crlf ++ ((b'-' ∷ b'-' ∷ boundary) ++ rest)))
      ≡ part
        ∷ (if is_closing rest then [] else parse_parts f (b'-' ∷ b'-' ∷ boundary) (skip_crlf rest))
first_part f boundary part rest ok sent =
    let delim = b'-' ∷ b'-' ∷ boundary in
    let in_line : All InLine delim = ((refl, refl), ((refl, refl), ok)) in
    let more = if is_closing rest then [] else parse_parts f delim (skip_crlf rest) in
    parse_parts-found f delim (part_bytes part ++ (crlf ++ (delim ++ rest)))
      (part_bytes part ++ crlf) rest
      (find_boundary-part b'-' (b'-' ∷ boundary) (part_bytes part) rest in_line sent.1)
    ∙ (ap (λ t. parse_part t ∷ more) (part_text-crlf (part_bytes part))
        ∙ ap (λ p. p ∷ more) (parse_part-part_bytes part sent.0))

parse_parts-behind :
    (f : ℕ) (boundary : Bytes) (part : MimePart) (parts : List MimePart)
    → All InLine boundary
    → CanBeSent boundary part
    → All (CanBeSent boundary) parts
    → length (
        part_bytes part
        ++ (crlf ++ ((b'-' ∷ b'-' ∷ boundary) ++ behind (b'-' ∷ b'-' ∷ boundary) parts)))
      < f
    → parse_parts f (b'-' ∷ b'-' ∷ boundary) (
        part_bytes part
        ++ (crlf ++ ((b'-' ∷ b'-' ∷ boundary) ++ behind (b'-' ∷ b'-' ∷ boundary) parts)))
      ≡ part ∷ parts
unfolding is_closing skip_crlf skip_byte
parse_parts-behind zero boundary part parts ok sent all room = absurd (omega (arith, room))
parse_parts-behind (suc f) boundary part [] ok sent all room =
    first_part f boundary part (behind (b'-' ∷ b'-' ∷ boundary) []) ok sent
parse_parts-behind (suc f) boundary part (next ∷ parts) ok sent all room =
    let delim = b'-' ∷ b'-' ∷ boundary in
    let more = part_bytes next ++ (crlf ++ (delim ++ behind delim parts)) in
    first_part f boundary part (behind delim (next ∷ parts)) ok sent
    ∙ ap (λ ps. part ∷ ps)
        (parse_parts-behind f boundary next parts ok all.0 all.1
          (omega (arith, room, room_left (part_bytes part) [] delim more)))

-- `parse_multipart` returns the message that `serialize_multipart` wrote, if it has a part, its
-- boundary is on one line, the boundary line is nowhere in a part's headers and body, and the
-- header values are on one line each, the content type and the transfer encoding without a space
-- in front.
pub parse_multipart-serialize_multipart :
    (boundary : Bytes) (part : MimePart) (parts : List MimePart)
    → All InLine boundary
    → All (CanBeSent boundary) (part ∷ parts)
    → parse_multipart
        (serialize_multipart (record { boundary = boundary; parts = part ∷ parts }))
        boundary
      ≡ record { boundary = boundary; parts = part ∷ parts }
unfolding parse_multipart serialize_multipart parts_from skip_crlf skip_byte
parse_multipart-serialize_multipart boundary part parts ok sent =
    let delim = b'-' ∷ b'-' ∷ boundary in
    let first = part_bytes part ++ (crlf ++ (delim ++ behind delim parts)) in
    rw
      (
        parts_bytes-behind delim (part ∷ parts),
        find_boundary-here b'-' (b'-' ∷ boundary) (crlf ++ first),
      )
      (ap (λ ps. record { boundary = boundary; parts = ps })
        (parse_parts-behind _ boundary part parts ok sent.0 sent.1
          (omega (arith, length-append delim (crlf ++ first)))))
