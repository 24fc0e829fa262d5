-- ===== src/Http/Tests.antt =====
-- Runs of the classes of Src/Common/Http on small inputs.
use game_project_demo.Common.{
  same_text, sym, ◌++◌, ◌≡◌, ◌≢◌, refl, false, some, List, [], ◌∷◌, length, Bytes, codes, negsuc,
  arith, All,
}
use game_project_demo.Util.{digits_from, decimal}
use game_project_demo.Buffer.Invariant.{IsValid, contents}
use game_project_demo.Session.Stream.{InStep, stream}
use game_project_demo.Http.{
  HttpMethod, get, http_method_to_string, ok, not_found, html, content_type_string,
  status_to_response_head, internal_server_error, status_to_response_content, to_underlying,
  status_name,
}
use game_project_demo.Http.Parser.{PhrRequest, fresh, parse_request, request_result}
use game_project_demo.Http.Request.{HttpRequest, new_request, parse}
use game_project_demo.Http.Response.{
  build_response_head, has_header, head_of, HttpResponse, new_response, get_payload, header_lines,
  with_host, with_page, content_length_text, set_content, set_status_code,
}
use game_project_demo.Http.Router.{
  HttpHandlerFunc, returned, threw, new_router, route, call_handler, find_handler, whole_name,
}
use game_project_demo.Http.Router.Routes.{
  NotSpace, Registration, add_all, first_of, method_no_space, route-add_all,
}
use game_project_demo.Http.Connection.{HttpSession, read_handler}
use game_project_demo.Http.Connection.Refused.{refused_text_is_answered}
use game_project_demo.Http.Connection.Repeats.{IsReady, second_answer_repeats}
use game_project_demo.Http.Connection.Answers.{request_for, payload_for, read_handler_answers}

get_known : get ≢ HttpMethod.unknown
get_known e = cc

abbrev page : HttpResponse
page = record {
  status = not_found;
  content_type = html;
  head = [];
  content = codes "x";
  headers = [];
}

-- A handler that answers with a text, and one that throws.
abbrev hello : HttpHandlerFunc
hello req resp = returned (set_status_code ok (set_content (codes "hello") resp))

abbrev throws : HttpHandlerFunc
throws req resp = threw resp

abbrev registered : List Registration
registered = (get, codes "/", hello) ∷ (get, codes "/x", throws) ∷ (get, codes "/", throws) ∷ []

abbrev request : HttpRequest
request = record { parser = record fresh { method = codes "GET"; path = codes "/" } }

get_is_word : All NotSpace (codes "GET")
unfolding http_method_to_string
get_is_word = method_no_space get

route-add_all_example :
    route (add_all registered new_router) request new_response
    ≡ call_handler (first_of (codes "GET") (codes "/") registered) request new_response
route-add_all_example = route-add_all registered request new_response get_is_word

-- A session that has read "GET".
abbrev reading : HttpSession
reading = record {
  base = record {
    read_buffer = record { read_index = 0; write_index = 3; buffer = codes "GET" };
    write_queue = [];
    closed = false;
    closing = false;
    pending_reads = [];
    pending_writes = [];
    peer = [];
    shutdowns = 0;
  };
  req = new_request;
  rep = new_response;
  router = new_router;
}

abbrev refuse : Bytes → PhrRequest
refuse text = record {
  result = negsuc 0;
  method = [];
  url = [];
  minor_version = negsuc 0;
  headers = [];
}

reading-IsValid : IsValid reading.base.read_buffer
reading-IsValid = omega arith

reading-InStep : InStep reading.base
reading-InStep = record { waiting = tt; request = refl }

payload-length : length ((payload_for refuse (codes "now") (codes "GET") reading).0) ≡ 260
unfolding get_payload build_response_head route find_handler call_handler parse parse_request
    request_result with_host has_header with_page content_length_text header_lines head_of
    content_type_string status_to_response_head status_to_response_content decimal digits_from
    to_underlying new_response new_request new_router set_status_code whole_name fresh status_name
payload-length = refl

read_handler_answers_example :
    (t : HttpSession) × (read_handler refuse (codes "now") reading ≡ some t)
    × InStep t.base
    × (stream t.base ≡ (payload_for refuse (codes "now") (codes "GET") reading).0)
    × (contents t.base.read_buffer ≡ [])
    × (t.req ≡ request_for refuse (codes "GET") reading)
    × (t.rep ≡ (payload_for refuse (codes "now") (codes "GET") reading).1)
read_handler_answers_example =
    read_handler_answers refuse (codes "now") reading reading-IsValid (omega arith) reading-InStep
      refl (omega (arith, payload-length))

-- The same session when it has read "GET" again, with the response that the first answer has left.
abbrev reading_again : HttpSession
reading_again = record reading { rep = (payload_for refuse (codes "now") (codes "GET") reading).1 }

second-length : length ((payload_for refuse (codes "later") (codes "GET") reading_again).0) ≡ 703
unfolding get_payload build_response_head route find_handler call_handler parse parse_request
    request_result with_host has_header with_page content_length_text header_lines head_of
    content_type_string status_to_response_head status_to_response_content decimal digits_from
    to_underlying new_response new_request new_router set_status_code whole_name fresh status_name
    same_text
second-length = refl

reading-IsReady : IsReady refuse (codes "now") reading
reading-IsReady = record {
  valid = reading-IsValid;
  filled = omega arith;
  in_step = reading-InStep;
  idle = refl;
  fits = omega (arith, payload-length);
}

again-IsReady : IsReady refuse (codes "later") reading_again
again-IsReady = record {
  valid = reading-IsValid;
  filled = omega arith;
  in_step = reading-InStep;
  idle = refl;
  fits = omega (arith, second-length);
}

first_answer :
    (t : HttpSession) × (read_handler refuse (codes "now") reading ≡ some t)
    × InStep t.base
    × (stream t.base ≡ (payload_for refuse (codes "now") (codes "GET") reading).0)
    × (contents t.base.read_buffer ≡ [])
    × (t.req ≡ request_for refuse (codes "GET") reading)
    × (t.rep ≡ (payload_for refuse (codes "now") (codes "GET") reading).1)
first_answer =
    read_handler_answers refuse (codes "now") reading reading-IsValid (omega arith) reading-InStep
      refl (omega (arith, payload-length))

second_answer_repeats_example :
    (v : HttpSession) × (rest : Bytes) × (read_handler refuse (codes "later") reading_again
      ≡ some v)
    × (stream v.base ≡ (payload_for refuse (codes "now") (codes "GET") reading).0 ++ rest)
unfolding new_router
second_answer_repeats_example =
    second_answer_repeats refuse (codes "now") (codes "later") reading (first_answer.0)
      reading_again reading-IsReady (first_answer.1) again-IsReady (sym (first_answer.6)) tt

-- The same session with handlers, which has read nothing before.
abbrev reading_first : HttpSession
reading_first = record reading { router = add_all registered new_router }

not_found-length :
    length ((get_payload (codes "now") (set_status_code not_found new_response)).0) ≡ 260
unfolding get_payload build_response_head with_host has_header with_page content_length_text
    header_lines head_of content_type_string status_to_response_head status_to_response_content
    decimal digits_from to_underlying new_response set_status_code status_name
not_found-length = refl

refused_text_is_answered_example :
    ((parse refuse (codes "GET") reading_first.req).0 ≡ internal_server_error)
    × ((t : HttpSession) × (read_handler refuse (codes "now") reading_first ≡ some t)
        × InStep t.base
        × (stream t.base ≡ (get_payload (codes "now") (set_status_code not_found new_response)).0)
        × (contents t.base.read_buffer ≡ []))
refused_text_is_answered_example =
    refused_text_is_answered refuse (codes "now") 0 registered reading_first reading-IsValid
      (omega arith) (record { waiting = tt; request = refl }) refl refl refl refl
      (omega (arith, not_found-length))
