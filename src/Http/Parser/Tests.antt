-- ===== src/Http/Parser/Tests.antt =====
-- Runs of Src/Common/Http/HttpParser.cpp on small inputs.
use game_project_demo.Common.{
  ◌++◌, replicate, ℕ, ◌≡◌, ◌≢◌, refl, [], ◌∷◌, length, Bytes, codes, same_text, pos, arith, All,
}
use game_project_demo.Http.Parser.{
  trim_space, trim_end, first_not_of, last_not_of, emplace, parse_query, query_loop, query_step,
  query_end, PhrRequest,
}
use game_project_demo.Http.Parser.Trim.{NoLead, NoTrail, trim_space_lem}
use game_project_demo.Http.Parser.Query.{
  IsPlain, PlainPair, print_query, emplace_all, parse_query-print_query,
}

one_char : (c : ℕ) → c ≢ b'=' → c ≢ b'&' → c ≢ b' ' → IsPlain (c ∷ [])
one_char c e a s = record { inside = ((e, a), tt); front = s; back = s }

IsPlain-k : IsPlain (codes "k")
IsPlain-k = one_char b'k' (λ e. omega (arith, e)) (λ e. omega (arith, e)) (λ e. omega (arith, e))

IsPlain-v : IsPlain (codes "v")
IsPlain-v = one_char b'v' (λ e. omega (arith, e)) (λ e. omega (arith, e)) (λ e. omega (arith, e))

IsPlain-empty : IsPlain []
IsPlain-empty = record { inside = tt; front = tt; back = tt }

plain_pairs : All PlainPair ((codes "k", codes "v") ∷ (codes "v", []) ∷ [])
plain_pairs = (
  record { name = IsPlain-k; val = IsPlain-v },
  (record { name = IsPlain-v; val = IsPlain-empty }, tt),
)

parse_query-print_query_example :
    parse_query (print_query ((codes "k", codes "v") ∷ (codes "v", []) ∷ [])) []
    ≡ emplace_all ((codes "k", codes "v") ∷ (codes "v", []) ∷ []) []
unfolding print_query
parse_query-print_query_example =
    parse_query-print_query (codes "k", codes "v") ((codes "v", []) ∷ []) [] plain_pairs
      (omega arith)

query-run : parse_query (codes "a=1&b=&a=2") [] ≡ (codes "a", codes "1") ∷ (codes "b", []) ∷ []
unfolding parse_query query_loop query_step query_end emplace trim_space trim_end first_not_of
    last_not_of same_text
query-run = refl

-- A header parser that takes a whole text as the url of a `GET`.
abbrev whole_url : Bytes → PhrRequest
whole_url text = record {
  result = pos (length text);
  method = codes "GET";
  url = text;
  minor_version = pos 1;
  headers = [];
}

trim_space_lem_example :
    (m n : ℕ) × (codes "  a b "
      ≡ replicate m b' ' ++ (trim_space (codes "  a b ") ++ replicate n b' '))
    × NoLead b' ' (trim_space (codes "  a b "))
    × NoTrail b' ' (trim_space (codes "  a b "))
trim_space_lem_example = trim_space_lem (codes "  a b ") (omega arith)
