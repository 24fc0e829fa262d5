-- ===== src/Http/Parser.antt =====
-- Src/Common/Http/HttpParser.h and HttpParser.cpp: `Http::HttpParser`. The header parser that it
-- calls, `phr_parse_request` and `phr_parse_response` of Src/Common/Http/picohttpparser.c, is a copy
-- of another project's and enters as a function from the text to what it stores.
-- A `string_view` is the bytes that it shows.
pub mod Trim
pub mod Query
pub mod Headers
pub mod Requests
mod Tests
use game_project_demo.Common.{
  ℕ, zero, suc, ◌+◌, ◌-◌, ◌%◌, ◌^◌, Bool, true, false, Option, none, some, List, [], ◌∷◌, ◌++◌, ltb,
  leb, ◌==◌, if◌then◌else◌, length, take, drop, replicate, min, map, Bytes, codes, same_text, ℤ,
  pos, negsuc,
}
use game_project_demo.Buffer.{sub_size}
use game_project_demo.Util.{string_equal, from_string, signed_of}

-- `std::string_view::npos`.
abbrev pub npos : ℕ
npos = 2 ^ 64 - 1

-- The index of the first character that is not `c`, from index `i` on.
unfoldable pub first_not_of : ℕ → ℕ → Bytes → ℕ
first_not_of c i [] = npos
first_not_of c i (x ∷ xs) = if x == c then first_not_of c (suc i) xs else i

-- The index of the last character that is not `c`, or `best`.
unfoldable pub last_not_of : ℕ → ℕ → ℕ → Bytes → ℕ
last_not_of c i best [] = best
last_not_of c i best (x ∷ xs) = last_not_of c (suc i) (if x == c then best else i) xs

abbrev pub remove_prefix : ℕ → Bytes → Bytes
remove_prefix = drop

abbrev pub remove_suffix : ℕ → Bytes → Bytes
remove_suffix n s = take (length s - n) s

unfoldable pub trim_end : Bytes → Bytes
trim_end s =
    remove_suffix (min (sub_size (sub_size (length s) (last_not_of b' ' 0 npos s)) 1) (length s)) s

unfoldable pub trim_space : Bytes → Bytes
trim_space s = trim_end (remove_prefix (min (first_not_of b' ' 0 s) (length s)) s)

-- `_queries`, an `unordered_map`.
abbrev pub Queries : Type 0
Queries = List (Bytes × Bytes)

-- `emplace` and `try_emplace`: a key that is there keeps its value.
unfoldable pub emplace : Bytes → Bytes → Queries → Queries
emplace k v [] = (k, v) ∷ []
emplace k v ((j, w) ∷ m) = if same_text j k then (j, w) ∷ m else (j, w) ∷ emplace k v m

-- `{&str[pos], n}`.
abbrev pub slice : ℕ → ℕ → Bytes → Bytes
slice p n str = take n (drop p str)

-- What the loop of `ParseQuery` keeps.
pub record QueryState : Type 0 where
  pub begin : ℕ
  pub key : Bytes
  pub found : Queries

unfoldable pub query_step : Bytes → ℕ → ℕ → QueryState → QueryState
query_step str i c q =
    if c == b'='
    then record q { begin = suc i; key = trim_space (slice q.begin (i - q.begin) str) }
    else if c == b'&'
    then record q {
      begin = suc i;
      found = emplace q.key (trim_space (slice q.begin (i - q.begin) str)) q.found;
    }
    else q

-- The loop from index `i` on, over the characters that are left.
unfoldable pub query_loop : Bytes → ℕ → Bytes → QueryState → QueryState
query_loop str i [] q = q
query_loop str i (c ∷ cs) q = query_loop str (suc i) cs (query_step str i c q)

-- What follows the loop.
unfoldable pub query_end : Bytes → QueryState → Queries
query_end str q =
    if q.begin == 0
    then q.found
    else if ltb 0 (length str - q.begin)
    then emplace q.key (trim_space (slice q.begin (length str - q.begin) str)) q.found
    else emplace q.key [] q.found

unfoldable pub parse_query : Bytes → Queries → Queries
parse_query [] old = old
parse_query (c ∷ cs) old =
    let start : QueryState = record { begin = 0; key = []; found = old } in
    query_end (c ∷ cs) (query_loop (c ∷ cs) 0 (c ∷ cs) start)

abbrev pub HttpHeader : Type 0
HttpHeader = Bytes × Bytes

abbrev pub max_header_field_num : ℕ
max_header_field_num = 100

pub record HttpParser : Type 0 where
  pub method : Bytes
  pub original_url : Bytes
  pub path : Bytes
  pub queries : Queries
  pub headers : List HttpHeader
  pub minor_version : ℤ
  pub header_len : ℤ
  pub body_len : ℤ
  pub num_headers : ℕ
  pub status : ℤ
  pub msg : Bytes

unfoldable pub fresh : HttpParser
fresh = record {
  method = [];
  original_url = [];
  path = [];
  queries = [];
  headers = replicate max_header_field_num ([], []);
  minor_version = negsuc 0;
  header_len = pos 0;
  body_len = pos 0;
  num_headers = 0;
  status = pos 0;
  msg = [];
}

unfoldable pub get_header_value : Bytes → List HttpHeader → Bytes
get_header_value key [] = []
get_header_value key ((name, val) ∷ hs) =
    if string_equal name key then val else get_header_value key hs

-- What `phr_parse_request` returns and stores: the length of the header, or a negative number.
pub record PhrRequest : Type 0 where
  pub result : ℤ
  pub method : Bytes
  pub url : Bytes
  pub minor_version : ℤ
  pub headers : List HttpHeader

pub record PhrResponse : Type 0 where
  pub result : ℤ
  pub status : ℤ
  pub msg : Bytes
  pub minor_version : ℤ
  pub headers : List HttpHeader

-- `static_cast<int8_t>` of an `int`.
unfoldable pub to_int8 : ℤ → ℤ
to_int8 (pos n) = if ltb (n % 256) 128 then pos (n % 256) else negsuc (255 - n % 256)
to_int8 (negsuc n) = if ltb (n % 256) 128 then negsuc (n % 256) else pos (255 - n % 256)

-- The array of headers, which was zeroed before the call.
abbrev pub header_array : List HttpHeader → List HttpHeader
header_array hs = hs ++ replicate (max_header_field_num - length hs) ([], [])

abbrev pub or_zero : Option ℤ → ℤ
or_zero none = pos 0
or_zero (some z) = z

unfoldable pub content_length : List HttpHeader → ℤ
content_length hs =
    or_zero (from_string (signed_of 4) 10 (get_header_value (codes "content-length") hs))

-- `find('?')`, as the text before the mark and the one behind it.
unfoldable pub split_url : Bytes → Option (Bytes × Bytes)
split_url [] = none
split_url (c ∷ cs) =
    if c == b'?'
    then some ([], cs)
    else elim (split_url cs) [ none ↦ none | some (p, q) ↦ some (c ∷ p, q) ]

-- The last part of `ParseRequest`.
unfoldable pub take_query : Option (Bytes × Bytes) → HttpParser → HttpParser
take_query none p = p
take_query (some (path, query)) p = record p { path = path; queries = parse_query query p.queries }

unfoldable pub store_request : Bytes → ℕ → PhrRequest → HttpParser → ℕ × HttpParser
store_request original_url len r p = (
  len,
  take_query (split_url r.url) (record p {
    method = r.method;
    path = r.url;
    minor_version = to_int8 r.minor_version;
    original_url = original_url;
    headers = header_array r.headers;
    header_len = r.result;
    num_headers = length r.headers;
    body_len = content_length (header_array r.headers);
  }),
)

-- A failed parse stores its result and the number of headers, and nothing else.
unfoldable pub request_result : Bytes → ℤ → PhrRequest → HttpParser → ℕ × HttpParser
request_result original_url (negsuc n) r p =
    (0, record p { header_len = negsuc n; num_headers = length r.headers })
request_result original_url (pos n) r p = store_request original_url n r p

-- `ParseRequest`: the length of the header, 0 for a failure, and the new state.
unfoldable pub parse_request : (Bytes → PhrRequest) → Bytes → HttpParser → ℕ × HttpParser
parse_request phr [] p = (0, p)
parse_request phr (c ∷ cs) p = let r = phr (c ∷ cs) in request_result (c ∷ cs) r.result r p

-- `ParseResponse`: the headers that were read are not stored, and `Content-Length` is looked up
-- among those of an earlier request.
unfoldable pub response_result : ℤ → PhrResponse → HttpParser → ℕ × HttpParser
response_result (negsuc n) r p = (
  0,
  record p {
    header_len = negsuc n;
    num_headers = length r.headers;
    status = r.status;
    msg = r.msg;
    body_len = content_length p.headers;
  },
)
response_result (pos n) r p = (
  n,
  record p {
    header_len = pos n;
    num_headers = length r.headers;
    status = r.status;
    msg = r.msg;
    body_len = content_length p.headers;
    minor_version = to_int8 r.minor_version;
  },
)

unfoldable pub parse_response : (Bytes → PhrResponse) → Bytes → HttpParser → ℕ × HttpParser
parse_response phr [] p = (0, p)
parse_response phr (c ∷ cs) p = let r = phr (c ∷ cs) in response_result r.result r p
