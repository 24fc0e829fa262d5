-- ===== src/Http/Request.antt =====
-- Src/Common/Http/HttpRequest.h and HttpRequest.cpp: `Http::HttpRequest`, over the parser's state.
use game_project_demo.Common.{
  ℕ, suc, zero, Bytes, codes, [], ◌∷◌, ℤ, pos, negsuc, if◌then◌else◌, ◌==◌,
}
use game_project_demo.Http.{Status, ok, bad_request, internal_server_error}
use game_project_demo.Http.Parser.{HttpParser, fresh, PhrRequest, parse_request, get_header_value}

pub record HttpRequest : Type 0 where
  pub parser : HttpParser

unfoldable pub new_request : HttpRequest
new_request = record { parser = fresh }

-- By the length of the header that the parser returns.
unfoldable pub parse_status : ℕ → Status
parse_status zero = internal_server_error
parse_status (suc n) = ok

unfoldable pub parse : (Bytes → PhrRequest) → Bytes → HttpRequest → Status × HttpRequest
parse phr [] r = (bad_request, r)
parse phr (c ∷ cs) r =
    let step = parse_request phr (c ∷ cs) r.parser in
    (parse_status (step.0), record r { parser = step.1 })

abbrev pub get_method : HttpRequest → Bytes
get_method r = r.parser.method

abbrev pub get_path : HttpRequest → Bytes
get_path r = r.parser.path

unfoldable pub version_of : ℤ → Bytes
version_of (pos n) = if n == 1 then codes "HTTP/1.1" else codes "HTTP/1.0"
version_of (negsuc n) = codes "HTTP/1.0"

abbrev pub get_version : HttpRequest → Bytes
get_version r = version_of r.parser.minor_version

abbrev pub get_header : Bytes → HttpRequest → Bytes
get_header header_type r = get_header_value header_type r.parser.headers
