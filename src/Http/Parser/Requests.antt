-- ===== src/Http/Parser/Requests.antt =====
-- `HttpParser::ParseRequest` of Src/Common/Http/HttpParser.cpp: what a request leaves behind.
use game_project_demo.Common.{
  ℕ, ◌≡◌, ◌≢◌, refl, Option, none, some, List, [], ◌∷◌, ◌++◌, All, Bytes, not_equal, length, pos,
  negsuc,
}
use game_project_demo.Http.Parser.{
  HttpParser, PhrRequest, parse_request, request_result, store_request, take_query, split_url,
}
use game_project_demo.Http.Parser.Query.{
  print_query, emplace_all, PlainPair, parse_query-print_query,
}
use game_project_demo.Http.Parser.{npos}
use game_project_demo.Common.{◌<◌}

abbrev pub NotMark : ℕ → Type 0
NotMark c = c ≢ b'?'

split_url-mark :
    (path query : Bytes) → All NotMark path → split_url (path ++ b'?' ∷ query) ≡ some (path, query)
unfolding split_url
split_url-mark [] query h = refl
split_url-mark (c ∷ cs) query (h, hs) = rw (not_equal c b'?' h, split_url-mark cs query hs) refl

split_url-none : (path : Bytes) → All NotMark path → split_url path ≡ none
unfolding split_url
split_url-none [] h = refl
split_url-none (c ∷ cs) (h, hs) = rw (not_equal c b'?' h, split_url-none cs hs) refl

take_query-path : (o : Option (Bytes × Bytes)) (p : HttpParser) → (take_query o p).method ≡ p.method
unfolding take_query
take_query-path none p = refl
take_query-path (some (a, q)) p = refl

-- Without a `?` in its url a request changes no query.
parse_request-no_query :
    (phr : Bytes → PhrRequest) (text : Bytes) (n : ℕ) (p : HttpParser)
    → text ≢ []
    → (phr text).result ≡ pos n
    → All NotMark ((phr text).url)
    → (n ≡ (parse_request phr text p).0)
      × ((parse_request phr text p).1.path ≡ (phr text).url)
      × ((parse_request phr text p).1.queries ≡ p.queries)
unfolding parse_request request_result store_request take_query
parse_request-no_query phr [] n p nonempty e h = absurd (nonempty refl)
parse_request-no_query phr (c ∷ cs) n p nonempty e h =
    rw (e, split_url-none ((phr (c ∷ cs)).url) h) (refl, refl, refl)

-- A request whose url is a path, a `?` and a query of plain pairs has that path; its pairs are added
-- to the queries of the earlier requests, which keep their values.
pub parse_request-query :
    (phr : Bytes → PhrRequest) (text path : Bytes) (n : ℕ) (p : HttpParser) (q : Bytes × Bytes)
    (qs : List (Bytes × Bytes))
    → text ≢ []
    → (phr text).result ≡ pos n
    → (phr text).url ≡ path ++ b'?' ∷ print_query (q ∷ qs)
    → All NotMark path
    → All PlainPair (q ∷ qs)
    → length (print_query (q ∷ qs)) < npos
    → ((parse_request phr text p).0 ≡ n)
      × ((parse_request phr text p).1.path ≡ path)
      × ((parse_request phr text p).1.queries ≡ emplace_all (q ∷ qs) p.queries)
unfolding parse_request request_result store_request take_query
parse_request-query phr [] path n p q qs nonempty e url h plain short = absurd (nonempty refl)
parse_request-query phr (c ∷ cs) path n p q qs nonempty e url h plain short =
    rw (e, url, split_url-mark path (print_query (q ∷ qs)) h)
      (refl, refl, parse_query-print_query q qs p.queries plain short)

-- A text that the header parser refuses gives 0 and leaves the method, the path, the queries and the
-- headers of the request before.
pub parse_request-failed :
    (phr : Bytes → PhrRequest) (text : Bytes) (n : ℕ) (p : HttpParser)
    → text ≢ []
    → (phr text).result ≡ negsuc n
    → ((parse_request phr text p).0 ≡ 0)
      × ((parse_request phr text p).1.method ≡ p.method)
      × ((parse_request phr text p).1.path ≡ p.path)
      × ((parse_request phr text p).1.queries ≡ p.queries)
      × ((parse_request phr text p).1.headers ≡ p.headers)
unfolding parse_request request_result
parse_request-failed phr [] n p nonempty e = absurd (nonempty refl)
parse_request-failed phr (c ∷ cs) n p nonempty e = rw e (refl, refl, refl, refl, refl)
