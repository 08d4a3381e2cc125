-- ===== src/Mime/HeaderLaws.antt =====
-- The headers and the body of a part are read as they were written.
use xb.Common.{
  ℕ, zero, suc, ◌<◌, [], ◌∷◌, ◌++◌, length, length-append, Bool, true, false, not, ◌&&◌, ◌==◌, ◌≡◌,
  ◌∙◌, refl, ap, arith, All, append_assoc, append-nil, All-append,
}
use xb.Common.Text.{Bytes, codes}
use xb.Naming.Style.{to_lower, is_upper}
use xb.Naming.Identifier.{same_bytes}
use xb.Mime.Multipart.{
  MimePart, crlf, skip_byte, skip_crlf, read_line, Headers, drop_spaces, or_value, drop_last,
  ends_with, strip_brackets, store_header, split_colon, found_at, use_header, at_line,
  parse_part_headers, no_headers, part_of, parse_part, header_line, part_bytes,
}

-- A byte of a line: no carriage return and no line feed.
abbrev pub InLine : ℕ → Type 0
InLine c = ((c == 13) ≡ false) × ((c == 10) ≡ false)

-- A value that a header keeps: on one line, and not with a space in front.
abbrev pub IsHeaderValue : Bytes → Type 0
IsHeaderValue [] = Unit
IsHeaderValue (c ∷ value) = ((c == b' ') ≡ false) × All InLine (c ∷ value)

read_line-crlf :
    (line rest : Bytes)
    → All InLine line
    → read_line (line ++ (crlf ++ rest)) ≡ (line, crlf ++ rest)
unfolding read_line
read_line-crlf [] rest h = refl
read_line-crlf (c ∷ line) rest h = rw (h.0.0, h.0.1, read_line-crlf line rest h.1) refl

skip_crlf-crlf : (rest : Bytes) → skip_crlf (crlf ++ rest) ≡ rest
unfolding skip_crlf skip_byte
skip_crlf-crlf rest = refl

-- A line that is not empty, in front of more.
parse_part_headers-line :
    (f : ℕ) (h : Headers) (c : ℕ) (line rest : Bytes)
    → All InLine (c ∷ line)
    → parse_part_headers (suc f) h ((c ∷ line) ++ (crlf ++ rest))
      ≡ parse_part_headers f (use_header (split_colon (c ∷ line)) h) rest
unfolding parse_part_headers at_line
parse_part_headers-line f h c line rest ok =
    rw (read_line-crlf (c ∷ line) rest ok, skip_crlf-crlf rest) refl

-- The empty line in front of the body.
parse_part_headers-body :
    (f : ℕ) (h : Headers) (body : Bytes) → parse_part_headers (suc f) h (crlf ++ body) ≡ (h, body)
unfolding parse_part_headers at_line
parse_part_headers-body f h body = rw (read_line-crlf [] body tt, skip_crlf-crlf body) refl

drop_spaces-value :
    (value : Bytes)
    → IsHeaderValue value
    → or_value (drop_spaces (b' ' ∷ value)) (b' ' ∷ value) ≡ or_value value (b' ' ∷ value)
unfolding drop_spaces or_value
drop_spaces-value [] h = refl
drop_spaces-value (c ∷ value) h = rw h.0 refl

type_line :
    (c : ℕ) (value : Bytes) (h : Headers)
    → IsHeaderValue (c ∷ value)
    → use_header (split_colon (codes "Content-Type: " ++ (c ∷ value))) h ≡ record {
      content_type = c ∷ value;
      content_id = h.content_id;
      content_transfer_encoding = h.content_transfer_encoding;
    }
unfolding use_header split_colon found_at store_header same_bytes to_lower is_upper drop_spaces
    or_value
type_line c value h ok = rw ok.0 refl

encoding_line :
    (c : ℕ) (value : Bytes) (h : Headers)
    → IsHeaderValue (c ∷ value)
    → use_header (split_colon (codes "Content-Transfer-Encoding: " ++ (c ∷ value))) h ≡ record {
      content_type = h.content_type;
      content_id = h.content_id;
      content_transfer_encoding = c ∷ value;
    }
unfolding use_header split_colon found_at store_header same_bytes to_lower is_upper drop_spaces
    or_value
encoding_line c value h ok = rw ok.0 refl

ends_with-append : (b : ℕ) (s : Bytes) → ends_with b (s ++ (b ∷ [])) ≡ true
unfolding ends_with
ends_with-append b [] = ground arith
ends_with-append b (c ∷ []) = ends_with-append b []
ends_with-append b (c ∷ d ∷ s) = ends_with-append b (d ∷ s)

pub drop_last-append : (b : ℕ) (s : Bytes) → drop_last b (s ++ (b ∷ [])) ≡ s
unfolding drop_last
drop_last-append b [] = ground arith
drop_last-append b (c ∷ []) = ap (λ t. c ∷ t) (drop_last-append b [])
drop_last-append b (c ∷ d ∷ s) = ap (λ t. c ∷ t) (drop_last-append b (d ∷ s))

strip_brackets-value : (value : Bytes) → strip_brackets (b'<' ∷ (value ++ (b'>' ∷ []))) ≡ value
unfolding strip_brackets
strip_brackets-value value = rw (ends_with-append b'>' value, drop_last-append b'>' value) refl

id_line :
    (value : Bytes) (h : Headers)
    → use_header (split_colon (codes "Content-ID: <" ++ (value ++ codes ">"))) h ≡ record {
      content_type = h.content_type;
      content_id = value;
      content_transfer_encoding = h.content_transfer_encoding;
    }
unfolding use_header split_colon found_at store_header same_bytes to_lower is_upper drop_spaces
    or_value
id_line value h = rw (strip_brackets-value value) refl

in_line : Bytes → Bool
in_line [] = true
in_line (c ∷ s) = not (c == 13) && not (c == 10) && in_line s

in_line-InLine : (s : Bytes) → in_line s ≡ true → All InLine s
unfolding in_line
in_line-InLine [] h = tt
in_line-InLine (c ∷ s) h =
    let rest : in_line s ≡ true = ground (arith, h) in
    ((ground (arith, h), ground (arith, h)), in_line-InLine s rest)

regroup :
    (label value end rest : Bytes)
    → (label ++ (value ++ (end ++ crlf))) ++ rest ≡ (label ++ (value ++ end)) ++ (crlf ++ rest)
regroup label value end rest =
    rw
      (
        append_assoc label (value ++ (end ++ crlf)) rest,
        append_assoc value (end ++ crlf) rest,
        append_assoc end crlf rest,
        append_assoc label (value ++ end) (crlf ++ rest),
        append_assoc value end (crlf ++ rest),
      )
      refl

line_step :
    (f : ℕ) (h : Headers) (l : ℕ) (label value end rest : Bytes)
    → All InLine (l ∷ label)
    → All InLine value
    → All InLine end
    → parse_part_headers (suc f) h (((l ∷ label) ++ (value ++ (end ++ crlf))) ++ rest)
      ≡ parse_part_headers f (use_header (split_colon ((l ∷ label) ++ (value ++ end))) h) rest
line_step f h l label value end rest in_label in_value in_end =
    ap (parse_part_headers (suc f) h) (regroup (l ∷ label) value end rest)
    ∙ parse_part_headers-line f h l (label ++ (value ++ end)) rest (
        All-append InLine (l ∷ label) (value ++ end) in_label
          (All-append InLine value end in_value in_end))

longer : (l : ℕ) (label value rest : Bytes) → length rest < length (((l ∷ label) ++ value) ++ rest)
longer l label value rest = omega (arith, length-append (label ++ value) rest)

-- What is read behind a header, with fuel that is enough for the rest.
abbrev Continues : ℕ → Headers → Bytes → Headers → Bytes → Type 0
Continues f h s h' rest =
    (g : ℕ) × (length rest < g) × (parse_part_headers f h s ≡ parse_part_headers g h' rest)

after_type :
    (f : ℕ) (value rest : Bytes)
    → IsHeaderValue value
    → length (header_line (codes "Content-Type: ") value [] ++ rest) < f
    → Continues f no_headers
        (header_line (codes "Content-Type: ") value [] ++ rest)
        (record { content_type = value; content_id = []; content_transfer_encoding = [] })
        rest
unfolding header_line in_line
after_type f [] rest ok room = (f, room, refl)
after_type zero (c ∷ value) rest ok room = absurd (omega (arith, room))
after_type (suc f) (c ∷ value) rest ok room = (
  f,
  omega (arith, room, longer b'C' (codes "ontent-Type: ") ((c ∷ value) ++ crlf) rest),
  line_step f no_headers b'C' (codes "ontent-Type: ") (c ∷ value) [] rest
        (in_line-InLine (codes "Content-Type: ") refl) ok.1 tt
      ∙ ap (λ h. parse_part_headers f h rest)
          (ap (λ v. use_header (split_colon (codes "Content-Type: " ++ v)) no_headers)
              (append-nil (c ∷ value))
            ∙ type_line c value no_headers ok),
)

after_id :
    (f : ℕ) (content_type value rest : Bytes)
    → All InLine value
    → length (header_line (codes "Content-ID: <") value (codes ">") ++ rest) < f
    → Continues f
        (record { content_type = content_type; content_id = []; content_transfer_encoding = [] })
        (header_line (codes "Content-ID: <") value (codes ">") ++ rest)
        (record { content_type = content_type; content_id = value; content_transfer_encoding = [] })
        rest
unfolding header_line in_line
after_id f content_type [] rest ok room = (f, room, refl)
after_id zero content_type (c ∷ value) rest ok room = absurd (omega (arith, room))
after_id (suc f) content_type (c ∷ value) rest ok room =
    let h : Headers = record {
      content_type = content_type;
      content_id = [];
      content_transfer_encoding = [];
    } in
    (
      f,
      omega (
        arith,
        room,
        longer b'C' (codes "ontent-ID: <") ((c ∷ value) ++ (codes ">" ++ crlf)) rest,
      ),
      line_step f h b'C' (codes "ontent-ID: <") (c ∷ value) (codes ">") rest
            (in_line-InLine (codes "Content-ID: <") refl) ok (in_line-InLine (codes ">") refl)
          ∙ ap (λ h. parse_part_headers f h rest) (id_line (c ∷ value) h),
    )

after_encoding :
    (f : ℕ) (content_type content_id value rest : Bytes)
    → IsHeaderValue value
    → length (header_line (codes "Content-Transfer-Encoding: ") value [] ++ rest) < f
    → Continues f
        (record {
          content_type = content_type;
          content_id = content_id;
          content_transfer_encoding = [];
        })
        (header_line (codes "Content-Transfer-Encoding: ") value [] ++ rest)
        (record {
          content_type = content_type;
          content_id = content_id;
          content_transfer_encoding = value;
        })
        rest
unfolding header_line in_line
after_encoding f content_type content_id [] rest ok room = (f, room, refl)
after_encoding zero content_type content_id (c ∷ value) rest ok room = absurd (omega (arith, room))
after_encoding (suc f) content_type content_id (c ∷ value) rest ok room =
    let h : Headers = record {
      content_type = content_type;
      content_id = content_id;
      content_transfer_encoding = [];
    } in
    (
      f,
      omega (
        arith,
        room,
        longer b'C' (codes "ontent-Transfer-Encoding: ") ((c ∷ value) ++ crlf) rest,
      ),
      line_step f h b'C' (codes "ontent-Transfer-Encoding: ") (c ∷ value) [] rest
            (in_line-InLine (codes "Content-Transfer-Encoding: ") refl) ok.1 tt
          ∙ ap (λ h. parse_part_headers f h rest)
              (ap (λ v. use_header (split_colon (codes "Content-Transfer-Encoding: " ++ v)) h)
                  (append-nil (c ∷ value))
                ∙ encoding_line c value h ok),
    )

-- A part whose headers are on one line each, without a space in front.
abbrev pub IsPart : MimePart → Type 0
IsPart part =
    IsHeaderValue part.content_type
    × All InLine part.content_id
    × IsHeaderValue part.content_transfer_encoding

pub parse_part-part_bytes : (part : MimePart) → IsPart part → parse_part (part_bytes part) ≡ part
unfolding parse_part part_bytes part_of
parse_part-part_bytes part ok =
    let s3 = crlf ++ part.body in
    let s2 =
      header_line (codes "Content-Transfer-Encoding: ") part.content_transfer_encoding [] ++ s3 in
    let s1 = header_line (codes "Content-ID: <") part.content_id (codes ">") ++ s2 in
    let (g1, room1, e1) =
      after_type (suc (length (header_line (codes "Content-Type: ") part.content_type [] ++ s1)))
        part.content_type s1 ok.0 (omega arith) in
    let (g2, room2, e2) = after_id g1 part.content_type part.content_id s2 ok.1 room1 in
    let (g3, room3, e3) =
      after_encoding g2 part.content_type part.content_id part.content_transfer_encoding s3 ok.2
        room2 in
    ap part_of (
      e1
      ∙ (e2
          ∙ (e3
              ∙ ended g3
                  (record {
                    content_type = part.content_type;
                    content_id = part.content_id;
                    content_transfer_encoding = part.content_transfer_encoding;
                  })
                  part.body room3)))
  where
    ended :
        (g : ℕ) (h : Headers) (body : Bytes)
        → length (crlf ++ body) < g
        → parse_part_headers g h (crlf ++ body) ≡ (h, body)
    ended zero h body room = absurd (omega (arith, room))
    ended (suc g) h body room = parse_part_headers-body g h body
