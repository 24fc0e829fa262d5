-- ===== src/Http.antt =====
-- Src/Common/Http/HttpCommon.h and HttpUtil.hpp: the enumerations of the HTTP classes and their
-- texts. `magic_enum::enum_name` gives an enumerator's name as it is spelled in the source.
pub mod Method
pub mod Parser
pub mod Request
pub mod Response
pub mod Router
pub mod Connection
mod Tests
use game_project_demo.Common.{
  ℕ, Bool, true, false, List, [], ◌∷◌, ◌++◌, leb, ltb, ◌==◌, if◌then◌else◌, length, Bytes, codes,
  same_text,
}
use game_project_demo.Util.{decimal}

pub data Status : Type 0 where
  unknown switching_protocols : Status
  ok created accepted no_content partial_content : Status
  multiple_choices moved_permanently moved_temporarily not_modified temporary_redirect : Status
  bad_request unauthorized forbidden not_found conflict : Status
  internal_server_error not_implemented bad_gateway service_unavailable : Status

-- `Util::ToUnderlying(status)`.
unfoldable pub to_underlying : Status → ℕ
to_underlying unknown = 0
to_underlying switching_protocols = 101
to_underlying ok = 200
to_underlying created = 201
to_underlying accepted = 202
to_underlying no_content = 204
to_underlying partial_content = 206
to_underlying multiple_choices = 300
to_underlying moved_permanently = 301
to_underlying moved_temporarily = 302
to_underlying not_modified = 304
to_underlying temporary_redirect = 307
to_underlying bad_request = 400
to_underlying unauthorized = 401
to_underlying forbidden = 403
to_underlying not_found = 404
to_underlying conflict = 409
to_underlying internal_server_error = 500
to_underlying not_implemented = 501
to_underlying bad_gateway = 502
to_underlying service_unavailable = 503

unfoldable pub status_name : Status → Bytes
status_name unknown = codes "Unknown"
status_name switching_protocols = codes "SwitchingProtocols"
status_name ok = codes "Ok"
status_name created = codes "Created"
status_name accepted = codes "Accepted"
status_name no_content = codes "NoContent"
status_name partial_content = codes "PartialContent"
status_name multiple_choices = codes "MultipleChoices"
status_name moved_permanently = codes "MovedPermanently"
status_name moved_temporarily = codes "MovedTemporarily"
status_name not_modified = codes "NotModified"
status_name temporary_redirect = codes "TemporaryRedirect"
status_name bad_request = codes "BadRequest"
status_name unauthorized = codes "Unauthorized"
status_name forbidden = codes "Forbidden"
status_name not_found = codes "NotFound"
status_name conflict = codes "Conflict"
status_name internal_server_error = codes "InternalServerError"
status_name not_implemented = codes "NotImplemented"
status_name bad_gateway = codes "BadGateway"
status_name service_unavailable = codes "ServiceUnavailable"

pub data ContentType : Type 0 where
  string html json : ContentType

pub data HttpMethod : Type 0 where
  unknown delete get head post put patch connect options : HttpMethod

-- "\r\n"
abbrev pub crlf : Bytes
crlf = 13 ∷ 10 ∷ []

unfoldable pub status_to_response_head : Status → Bytes
status_to_response_head status =
    codes "HTTP/1.1 "
    ++ (decimal (to_underlying status) ++ (codes " " ++ (status_name status ++ crlf)))

unfoldable pub content_type_string : ContentType → Bytes
content_type_string string = codes "Content-Type: text/plain; charset=UTF-8" ++ crlf
content_type_string html = codes "Content-Type: text/html; charset=UTF-8" ++ crlf
content_type_string json = codes "Content-Type: application/json; charset=UTF-8" ++ crlf

-- A line break of the raw literal, with its indentation.
abbrev new_line : Bytes
new_line = 10 ∷ codes "                "

unfoldable pub status_to_response_content : Status → Bytes
status_to_response_content status =
    new_line
    ++ (codes "<html>"
        ++ (new_line
            ++ (codes "<head><title>"
                ++ (status_name status
                    ++ (codes "</title></head>"
                        ++ (new_line
                            ++ (codes "<body><h1>"
                                ++ (decimal (to_underlying status)
                                    ++ (codes " "
                                        ++ (status_name status
                                            ++ (codes "</h1></body>"
                                                ++ (new_line ++ codes "</html>"))))))))))))

unfoldable pub http_method_to_string : HttpMethod → Bytes
http_method_to_string unknown = codes "UNKNOWN"
http_method_to_string delete = codes "DELETE"
http_method_to_string get = codes "GET"
http_method_to_string head = codes "HEAD"
http_method_to_string post = codes "POST"
http_method_to_string put = codes "PUT"
http_method_to_string patch = codes "PATCH"
http_method_to_string connect = codes "CONNECT"
http_method_to_string options = codes "OPTIONS"

-- `if (mtd == word) return found;` then `break`.
unfoldable pub method_if : Bytes → Bytes → HttpMethod → HttpMethod
unfolding same_text
method_if mtd word found = if same_text mtd word then found else HttpMethod.unknown

-- The inner `switch`, on what follows a `P`; it is never empty, since the whole text has three
-- characters or more.
unfoldable pub p_method : Bytes → HttpMethod
unfolding method_if
p_method [] = HttpMethod.unknown
p_method (c ∷ mtd) =
    if c == b'A'
    then method_if mtd (codes "TCH") patch
    else if c == b'O'
    then method_if mtd (codes "ST") post
    else if c == b'U'
    then method_if mtd (codes "T") put
    else HttpMethod.unknown

unfoldable pub method_from : Bytes → HttpMethod
unfolding p_method
method_from [] = HttpMethod.unknown
method_from (c ∷ mtd) =
    if c == b'C'
    then method_if mtd (codes "ONNECT") connect
    else if c == b'D'
    then method_if mtd (codes "ELETE") delete
    else if c == b'G'
    then method_if mtd (codes "ET") get
    else if c == b'H'
    then method_if mtd (codes "EAD") head
    else if c == b'O'
    then method_if mtd (codes "PTIONS") options
    else if c == b'P'
    then p_method mtd
    else HttpMethod.unknown

unfoldable pub string_to_http_method : Bytes → HttpMethod
unfolding method_from
string_to_http_method mtd = if ltb (length mtd) 3 then HttpMethod.unknown else method_from mtd
