-- ===== src/Http/Response/Payload.antt =====
-- `HttpResponse::GetPayload` and `BuildResponseHead` of Src/Common/Http/HttpResponse.cpp.
use game_project_demo.Common.{
  ◌<◌, ◌^◌, ◌≡◌, refl, sym, ◌∙◌, ap, ap₂, Bytes, codes, List, [], ◌∷◌, ◌++◌, length, append_assoc,
  append-nil, pos, some, arith,
}
use game_project_demo.Util.{decimal, digits_from, from_string, unsigned_of, to_chars}
use game_project_demo.Util.Convert.{from_string-to_chars}
use game_project_demo.Http.{crlf, status_to_response_head, content_type_string}
use game_project_demo.Http.Response.{
  HttpResponse, ResponseHeader, with_host, with_page, content_length_text, header_lines, head_of,
  build_response_head, get_payload,
}

abbrev pub line : Bytes → Bytes → Bytes
line k v = k ++ (codes ":" ++ (v ++ crlf))

header_lines-append :
    (hs ks : List ResponseHeader) → header_lines (hs ++ ks) ≡ header_lines hs ++ header_lines ks
unfolding header_lines
header_lines-append [] ks = refl
header_lines-append ((k, v) ∷ hs) ks =
    ap (◌++◌ (line k v)) (header_lines-append hs ks)
    ∙ sym (append_assoc (line k v) (header_lines hs) (header_lines ks))

content_length_text-decimal : (body : Bytes) → content_length_text body ≡ decimal (length body)
unfolding content_length_text decimal digits_from
content_length_text-decimal [] = refl
content_length_text-decimal (c ∷ cs) = refl

header_lines-one : (k v : Bytes) → header_lines ((k, v) ∷ []) ≡ line k v
unfolding header_lines
header_lines-one k v = append-nil (line k v)

-- The header block, of the texts that are put together.
block :
    (hs : List ResponseHeader) (body date : Bytes)
    → header_lines (
        (hs ++ (codes "Content-Length", content_length_text body) ∷ [])
        ++ (codes "Date", date) ∷ [])
      ≡ header_lines hs
        ++ (line (codes "Content-Length") (decimal (length body)) ++ line (codes "Date") date)
block hs body date =
    header_lines-append (hs ++ (codes "Content-Length", content_length_text body) ∷ [])
      ((codes "Date", date) ∷ [])
    ∙ ap₂ ◌++◌
        (header_lines-append hs ((codes "Content-Length", content_length_text body) ∷ [])
          ∙ ap (◌++◌ (header_lines hs)) (
              header_lines-one (codes "Content-Length") (content_length_text body)
              ∙ ap (line (codes "Content-Length")) (content_length_text-decimal body)))
        (header_lines-one (codes "Date") date)
    ∙ append_assoc (header_lines hs) (line (codes "Content-Length") (decimal (length body)))
        (line (codes "Date") date)

-- The payload is what is in the head already, then the status line, the lines of the headers with a
-- `Host` among them, the length of the body in decimal, the date, the content type, an empty line
-- and the body, which ends with a page for the status if the status is an error of 404 or above.
pub get_payload_lem :
    (date : Bytes) (r : HttpResponse)
    → (get_payload date r).0
      ≡ ((r.head ++ status_to_response_head r.status)
          ++ (header_lines (with_host r.headers)
              ++ (line (codes "Content-Length") (decimal (length (with_page r.status r.content)))
                  ++ line (codes "Date") date)))
        ++ (content_type_string r.content_type ++ (crlf ++ with_page r.status r.content))
unfolding get_payload build_response_head head_of
get_payload_lem date r =
    let body = with_page r.status r.content in
    ap
      (λ ls.
        ((r.head ++ status_to_response_head r.status) ++ ls)
        ++ (content_type_string r.content_type ++ (crlf ++ body)))
      (block (with_host r.headers) body date)

-- The length that a payload announces is read back, as an unsigned number of 64 bits, as the length
-- of the body that follows.
content_length-from_string :
    (body : Bytes)
    → length body < 2 ^ 64
    → from_string (unsigned_of 8) 10 (content_length_text body) ≡ some (pos (length body))
unfolding to_chars
content_length-from_string body h =
    ap (from_string (unsigned_of 8) 10) (content_length_text-decimal body)
    ∙ from_string-to_chars (unsigned_of 8) (pos (length body)) (omega arith)

pub get_payload-prefix :
    (date : Bytes) (r : HttpResponse) → (rest : Bytes) × ((get_payload date r).0 ≡ r.head ++ rest)
get_payload-prefix date r =
    let status = status_to_response_head r.status in
    let body = with_page r.status r.content in
    let lines =
      header_lines (with_host r.headers)
      ++ (line (codes "Content-Length") (decimal (length body)) ++ line (codes "Date") date) in
    let end = content_type_string r.content_type ++ (crlf ++ body) in
    (
      (status ++ lines) ++ end,
      get_payload_lem date r
          ∙ ap (λ t. t ++ end) (append_assoc r.head status lines)
          ∙ append_assoc r.head (status ++ lines) end,
    )

pub get_payload-head :
    (date : Bytes) (r : HttpResponse) → ((get_payload date r).1).head ≡ (get_payload date r).0
unfolding get_payload
get_payload-head date r = refl
