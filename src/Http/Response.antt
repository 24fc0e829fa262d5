-- ===== src/Http/Response.antt =====
-- Src/Common/Http/HttpResponse.h and HttpResponse.cpp: `Http::HttpResponse`. The text of the date,
-- which the clock gives, is an argument.
pub mod Payload
use game_project_demo.Common.{
  ℕ, Bool, true, false, Bytes, codes, List, [], ◌∷◌, ◌++◌, if◌then◌else◌, leb, length, same_text,
}
use game_project_demo.Util.{decimal}
use game_project_demo.Http.{
  Status, not_found, ContentType, string, crlf, to_underlying, status_to_response_head,
  status_to_response_content, content_type_string,
}

abbrev pub ResponseHeader : Type 0
ResponseHeader = Bytes × Bytes

pub record HttpResponse : Type 0 where
  pub status : Status
  pub content_type : ContentType
  pub head : Bytes
  pub content : Bytes
  pub headers : List ResponseHeader

unfoldable pub new_response : HttpResponse
new_response = record {
  status = Status.unknown;
  content_type = string;
  head = [];
  content = [];
  headers = [];
}

unfoldable pub set_status_code : Status → HttpResponse → HttpResponse
set_status_code status r = record r { status = status }

unfoldable pub set_header : Bytes → Bytes → HttpResponse → HttpResponse
set_header field_name field_val r = record r { headers = r.headers ++ (field_name, field_val) ∷ [] }

unfoldable pub set_content_type : ContentType → HttpResponse → HttpResponse
set_content_type type r = record r { content_type = type }

unfoldable pub set_content : Bytes → HttpResponse → HttpResponse
set_content content r = record r { content = content }

unfoldable pub fill_response : Status → ContentType → Bytes → HttpResponse → HttpResponse
fill_response status type content r = record r {
  status = status;
  content_type = type;
  content = content;
}

unfoldable pub has_header : Bytes → List ResponseHeader → Bool
has_header name [] = false
has_header name ((n, v) ∷ hs) = if same_text n name then true else has_header name hs

-- `Host` is put behind the headers that are there, unless it is one of them.
unfoldable pub with_host : List ResponseHeader → List ResponseHeader
with_host hs =
    if has_header (codes "Host") hs then hs else hs ++ (codes "Host", codes "Harold") ∷ []

-- A page for the status goes behind the content of an error.
unfoldable pub with_page : Status → Bytes → Bytes
with_page status content =
    if leb (to_underlying not_found) (to_underlying status)
    then content ++ status_to_response_content status
    else content

unfoldable pub content_length_text : Bytes → Bytes
content_length_text [] = codes "0"
content_length_text (c ∷ cs) = decimal (length (c ∷ cs))

unfoldable pub header_lines : List ResponseHeader → Bytes
header_lines [] = []
header_lines ((k, v) ∷ hs) = (k ++ (codes ":" ++ (v ++ crlf))) ++ header_lines hs

unfoldable pub head_of : Status → Bytes → List ResponseHeader → Bytes
head_of status head hs = (head ++ status_to_response_head status) ++ header_lines hs

unfoldable pub build_response_head : Bytes → HttpResponse → HttpResponse
build_response_head date r =
    let body = with_page r.status r.content in
    let hs =
      (with_host r.headers ++ (codes "Content-Length", content_length_text body) ∷ [])
      ++ (codes "Date", date) ∷ [] in
    record r { content = body; headers = hs; head = head_of r.status r.head hs }

-- The payload is all of `_head`, which stays as it is.
unfoldable pub get_payload : Bytes → HttpResponse → Bytes × HttpResponse
get_payload date r =
    let built = build_response_head date r in
    let head = built.head ++ (content_type_string built.content_type ++ (crlf ++ built.content)) in
    (head, record built { head = head })
