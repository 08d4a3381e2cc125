-- ===== src/Mime/Multipart.antt =====
-- src/lib/mime_multipart.cpp. A pointer into the data is the data from there on.
use xb.Common.{
  ℕ, zero, suc, List, [], ◌∷◌, ◌++◌, map, length, Bool, false, ◌&&◌, ◌||◌, Option, none, some, ◌==◌,
  if◌then◌else◌,
}
use xb.Common.Text.{Bytes, codes}
use xb.Naming.Style.{to_lower}
use xb.Naming.Identifier.{same_bytes}

pub record MimePart : Type 0 where
  pub content_type : Bytes
  pub content_id : Bytes
  pub content_transfer_encoding : Bytes
  pub body : Bytes

pub record MultipartMessage : Type 0 where
  pub boundary : Bytes
  pub parts : List MimePart

abbrev pub crlf : Bytes
crlf = 13 ∷ 10 ∷ []

-- The bytes behind a text that the data begin with.
unfoldable pub match_at : Bytes → Bytes → Option Bytes
match_at [] s = some s
match_at (n ∷ needle) [] = none
match_at (n ∷ needle) (c ∷ s) = let rest = match_at needle s in if n == c then rest else none

unfoldable pub found_at : Option Bytes → ℕ → Option (Bytes × Bytes) → Option (Bytes × Bytes)
found_at (some rest) c later = some ([], rest)
found_at none c none = none
found_at none c (some split) = some (c ∷ split.0, split.1)

-- What is in front of the next boundary, and what is behind it. A boundary line is never empty.
unfoldable pub find_boundary : Bytes → Bytes → Option (Bytes × Bytes)
find_boundary boundary_line [] = none
find_boundary boundary_line (c ∷ s) =
    found_at (match_at boundary_line (c ∷ s)) c (find_boundary boundary_line s)

unfoldable pub skip_byte : ℕ → Bytes → Bytes
skip_byte b [] = []
skip_byte b (c ∷ s) = if c == b then s else c ∷ s

unfoldable pub skip_crlf : Bytes → Bytes
skip_crlf s = skip_byte 10 (skip_byte 13 s)

-- The line up to a carriage return or a line feed, and what is left from there.
unfoldable pub read_line : Bytes → Bytes × Bytes
read_line [] = ([], [])
read_line (c ∷ s) =
    let rest = read_line s in if c == 13 || c == 10 then ([], c ∷ s) else (c ∷ rest.0, rest.1)

pub record Headers : Type 0 where
  pub content_type : Bytes
  pub content_id : Bytes
  pub content_transfer_encoding : Bytes

-- `find_first_not_of(' ')`
unfoldable pub drop_spaces : Bytes → Bytes
drop_spaces [] = []
drop_spaces (c ∷ s) = let rest = drop_spaces s in if c == b' ' then rest else c ∷ s

-- A value of spaces only stays.
unfoldable pub or_value : Bytes → Bytes → Bytes
or_value [] value = value
or_value (c ∷ trimmed) value = c ∷ trimmed

unfoldable pub drop_last : ℕ → Bytes → Bytes
drop_last b [] = []
drop_last b (c ∷ []) = if c == b then [] else c ∷ []
drop_last b (c ∷ d ∷ s) = c ∷ drop_last b (d ∷ s)

unfoldable pub ends_with : ℕ → Bytes → Bool
ends_with b [] = false
ends_with b (c ∷ []) = c == b
ends_with b (c ∷ d ∷ s) = ends_with b (d ∷ s)

-- The angle brackets around an id.
unfoldable pub strip_brackets : Bytes → Bytes
strip_brackets [] = []
strip_brackets (c ∷ value) =
    if c == b'<' && ends_with b'>' value then drop_last b'>' value else c ∷ value

unfoldable pub store_header : Bytes → Bytes → Headers → Headers
store_header lower_name value h =
    if same_bytes lower_name (codes "content-type")
    then record {
      content_type = value;
      content_id = h.content_id;
      content_transfer_encoding = h.content_transfer_encoding;
    }
    else if same_bytes lower_name (codes "content-id")
    then record {
      content_type = h.content_type;
      content_id = strip_brackets value;
      content_transfer_encoding = h.content_transfer_encoding;
    }
    else if same_bytes lower_name (codes "content-transfer-encoding")
    then record {
      content_type = h.content_type;
      content_id = h.content_id;
      content_transfer_encoding = value;
    }
    else h

-- `line.find(':')`: the name and the value around it.
unfoldable pub split_colon : Bytes → Option (Bytes × Bytes)
split_colon [] = none
split_colon (c ∷ s) =
    let later = found_at none c (split_colon s) in if c == b':' then some ([], s) else later

unfoldable pub use_header : Option (Bytes × Bytes) → Headers → Headers
use_header none h = h
use_header (some split) h =
    store_header (map to_lower split.0) (or_value (drop_spaces split.1) split.1) h

-- An empty line ends the headers.
unfoldable pub at_line : Bytes → Headers × Bytes → Headers × Bytes → Headers × Bytes
at_line [] done more = done
at_line (c ∷ line) done more = more

-- The headers and the body. Each round reads a line that is not empty: fuel above the length is enough.
unfoldable pub parse_part_headers : ℕ → Headers → Bytes → Headers × Bytes
parse_part_headers zero h s = (h, [])
parse_part_headers (suc f) h [] = (h, [])
parse_part_headers (suc f) h (c ∷ s) =
    let line = read_line (c ∷ s) in
    let more = parse_part_headers f (use_header (split_colon line.0) h) (skip_crlf line.1) in
    at_line line.0 (h, skip_crlf line.1) more

abbrev pub no_headers : Headers
no_headers = record { content_type = []; content_id = []; content_transfer_encoding = [] }

unfoldable pub part_of : Headers × Bytes → MimePart
part_of parsed = record {
  content_type = parsed.0.content_type;
  content_id = parsed.0.content_id;
  content_transfer_encoding = parsed.0.content_transfer_encoding;
  body = parsed.1;
}

unfoldable pub parse_part : Bytes → MimePart
parse_part s = part_of (parse_part_headers (suc (length s)) no_headers s)

-- The part in front of a boundary, without the line end before it.
unfoldable pub part_text : Bytes → Bytes
part_text before = drop_last 13 (drop_last 10 before)

-- `--` behind a boundary, with the test that both bytes are there.
unfoldable pub is_closing : Bytes → Bool
is_closing (c ∷ d ∷ s) = c == b'-' && d == b'-'
is_closing _ = false

-- The parts, from the data behind a boundary line. Each round that goes on reads a boundary, so fuel above
-- the length is enough.
unfoldable pub parse_parts : ℕ → Bytes → Bytes → List MimePart
parse_parts zero delim s = []
parse_parts (suc f) delim [] = []
parse_parts (suc f) delim (c ∷ s) = elim (find_boundary delim (c ∷ s)) [
  | none ↦ parse_part (c ∷ s) ∷ []
  | some split ↦
      parse_part (part_text split.0)
      ∷ (if is_closing split.1 then [] else parse_parts f delim (skip_crlf split.1))
]

unfoldable pub parts_from : ℕ → Bytes → Option (Bytes × Bytes) → List MimePart
parts_from f delim none = []
parts_from f delim (some split) = parse_parts f delim (skip_crlf split.1)

unfoldable pub parse_multipart : Bytes → Bytes → MultipartMessage
parse_multipart bytes boundary =
    let delim = b'-' ∷ b'-' ∷ boundary in
    record {
      boundary = boundary;
      parts = parts_from (suc (length bytes)) delim (find_boundary delim bytes);
    }

-- A header with a value, on a line.
unfoldable pub header_line : Bytes → Bytes → Bytes → Bytes
header_line label [] end = []
header_line label (c ∷ value) end = label ++ ((c ∷ value) ++ (end ++ crlf))

unfoldable pub part_bytes : MimePart → Bytes
part_bytes part =
    header_line (codes "Content-Type: ") part.content_type []
    ++ (header_line (codes "Content-ID: <") part.content_id (codes ">")
        ++ (header_line (codes "Content-Transfer-Encoding: ") part.content_transfer_encoding []
            ++ (crlf ++ part.body)))

unfoldable pub parts_bytes : Bytes → List MimePart → Bytes
parts_bytes delim [] = delim ++ (codes "--" ++ crlf)
parts_bytes delim (part ∷ parts) =
    delim ++ (crlf ++ (part_bytes part ++ (crlf ++ parts_bytes delim parts)))

unfoldable pub serialize_multipart : MultipartMessage → Bytes
serialize_multipart msg = parts_bytes (b'-' ∷ b'-' ∷ msg.boundary) msg.parts
