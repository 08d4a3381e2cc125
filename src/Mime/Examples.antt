-- ===== src/Mime/Examples.antt =====
-- A message of two parts, and what becomes of one without parts.
use xb.Common.{[], ◌∷◌, ◌≡◌, refl}
use xb.Common.Text.{codes}
use xb.Mime.Multipart.{
  MimePart, match_at, found_at, find_boundary, skip_byte, skip_crlf, parse_parts, parts_from,
  parse_multipart, header_line, part_bytes, parts_bytes, serialize_multipart, parse_part, part_of,
  parse_part_headers, read_line, at_line, use_header, split_colon,
}
use xb.Mime.RoundTrip.{parse_multipart-serialize_multipart}
use xb.Mime.ContentType.{mtom_content_type, extract_boundary, extract_boundary-mtom_content_type}

abbrev root_part : MimePart
root_part = record {
  content_type = codes "text/xml";
  content_id = codes "root";
  content_transfer_encoding = [];
  body = codes "<a/>";
}

abbrev empty_part : MimePart
empty_part = record {
  content_type = [];
  content_id = [];
  content_transfer_encoding = [];
  body = [];
}

parse_multipart-serialize_multipart_example :
    parse_multipart
      (serialize_multipart (record { boundary = codes "b1"; parts = root_part ∷ empty_part ∷ [] }))
      (codes "b1")
    ≡ record { boundary = codes "b1"; parts = root_part ∷ empty_part ∷ [] }
unfolding part_bytes header_line find_boundary found_at match_at
parse_multipart-serialize_multipart_example =
    parse_multipart-serialize_multipart (codes "b1") root_part (empty_part ∷ [])
      ((refl, refl), ((refl, refl), tt))
      (
        (
          (
            (
              refl,
              (
                (refl, refl),
                (
                  (refl, refl),
                  (
                    (refl, refl),
                    (
                      (refl, refl),
                      ((refl, refl), ((refl, refl), ((refl, refl), ((refl, refl), tt)))),
                    ),
                  ),
                ),
              ),
            ),
            ((refl, refl), ((refl, refl), ((refl, refl), ((refl, refl), tt)))),
            tt,
          ),
          refl,
        ),
        (((tt, tt, tt), refl), tt),
      )

extract_boundary-mtom_content_type_example :
    extract_boundary (mtom_content_type (codes "b1") (codes "root")) ≡ codes "b1"
extract_boundary-mtom_content_type_example =
    extract_boundary-mtom_content_type (codes "b1") (codes "root") (refl, (refl, tt))

-- A message without parts is parsed as a message with one.
no_parts :
    parse_multipart
      (serialize_multipart (record { boundary = codes "b1"; parts = [] }))
      (codes "b1")
    ≡ record { boundary = codes "b1"; parts = empty_part ∷ [] }
unfolding parse_multipart serialize_multipart parts_bytes find_boundary found_at match_at parts_from
    parse_parts skip_crlf skip_byte parse_part part_of parse_part_headers read_line at_line
    use_header split_colon
no_parts = refl
