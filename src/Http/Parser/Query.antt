-- ===== src/Http/Parser/Query.antt =====
-- `HttpParser::ParseQuery` of Src/Common/Http/HttpParser.cpp.
use game_project_demo.Common.{
  not_equal, ℕ, suc, ◌+◌, ◌-◌, ◌<◌, ◌≡◌, ◌≢◌, refl, sym, ◌∙◌, ap, List, [], ◌∷◌, ◌++◌, lt→ltb,
  le→ltb_false, length, length-append, take, take-append, drop-append, All, Bytes, arith,
  append-nil, append_assoc,
}
use game_project_demo.Http.Parser.{
  npos, trim_space, Queries, emplace, slice, QueryState, query_step, query_loop, query_end,
  parse_query,
}
use game_project_demo.Http.Parser.Trim.{NoLead, NoTrail, trim_space_none}

abbrev pub NotSeparator : ℕ → Type 0
NotSeparator c = (c ≢ b'=') × (c ≢ b'&')

-- A text that stands for itself in a query: no separator in it, and no space at its ends.
pub record IsPlain (s : Bytes) : Type 0 where
  pub inside : All NotSeparator s
  pub front : NoLead b' ' s
  pub back : NoTrail b' ' s

-- `k=v&k=v`.
unfoldable pub print_query : List (Bytes × Bytes) → Bytes
print_query [] = []
print_query ((k, v) ∷ []) = k ++ b'=' ∷ v
print_query ((k, v) ∷ p ∷ ps) = k ++ b'=' ∷ (v ++ b'&' ∷ print_query (p ∷ ps))

-- The pairs put in one after the other: the first value of a key stays.
unfoldable pub emplace_all : List (Bytes × Bytes) → Queries → Queries
emplace_all [] q = q
emplace_all ((k, v) ∷ ps) q = emplace_all ps (emplace k v q)

query_loop-plain :
    (str : Bytes) (i : ℕ) (seg rest : Bytes) (q : QueryState)
    → All NotSeparator seg
    → query_loop str i (seg ++ rest) q ≡ query_loop str (i + length seg) rest q
unfolding query_loop query_step
query_loop-plain str i [] rest q h = ap (λ k. query_loop str k rest q) (omega arith)
query_loop-plain str i (c ∷ cs) rest q ((e, a), h) =
    ap (query_loop str (suc i) (cs ++ rest)) step
    ∙ query_loop-plain str (suc i) cs rest q h
    ∙ ap (λ k. query_loop str k rest q) next
  where
    step : query_step str i c q ≡ q
    step = rw (not_equal c b'=' e, not_equal c b'&' a) refl

    next : suc i + length cs ≡ i + suc (length cs)
    next = omega arith

slice_lem :
    (pre seg rest : Bytes) (i n : ℕ)
    → i ≡ length pre
    → n ≡ length seg
    → slice i n (pre ++ (seg ++ rest)) ≡ seg
slice_lem pre seg rest i n e f =
    ap (take n) (drop-append i pre (seg ++ rest) e) ∙ take-append n seg rest f

abbrev at_key : ℕ → Bytes → Queries → QueryState
at_key i k f = record { begin = i; key = k; found = f }

-- The text from a segment on.
module _ (str pre seg rest : Bytes) (i : ℕ) (start : i ≡ length pre) (plain : IsPlain seg)
    (short : length str < npos) where
  trimmed : str ≡ pre ++ (seg ++ rest) → trim_space (slice i (i + length seg - i) str) ≡ seg
  trimmed whole =
      ap (λ s. trim_space (slice i (i + length seg - i) s)) whole
      ∙ ap trim_space (slice_lem pre seg rest i (i + length seg - i) start (omega arith))
      ∙ trim_space_none seg fits plain.front plain.back
    where
      fits : length seg < npos
      fits = omega (arith, ap length whole, length-append pre (seg ++ rest), length-append seg rest)

key_lem :
    (str pre k rest x : Bytes) (i : ℕ) (f : Queries)
    → i ≡ length pre
    → IsPlain k
    → length str < npos
    → str ≡ pre ++ (k ++ b'=' ∷ rest)
    → query_loop str i (k ++ b'=' ∷ rest) (at_key i x f)
      ≡ query_loop str (suc (i + length k)) rest (at_key (suc (i + length k)) k f)
unfolding query_loop query_step
key_lem str pre k rest x i f e p h w =
    query_loop-plain str i k (b'=' ∷ rest) (at_key i x f) p.inside
    ∙ ap (λ t. query_loop str (suc (i + length k)) rest (at_key (suc (i + length k)) t f))
        (trimmed str pre k (b'=' ∷ rest) i e p h w)

value_lem :
    (str pre v rest k : Bytes) (i : ℕ) (f : Queries)
    → i ≡ length pre
    → IsPlain v
    → length str < npos
    → str ≡ pre ++ (v ++ b'&' ∷ rest)
    → query_loop str i (v ++ b'&' ∷ rest) (at_key i k f)
      ≡ query_loop str (suc (i + length v)) rest (at_key (suc (i + length v)) k (emplace k v f))
unfolding query_loop query_step
value_lem str pre v rest k i f e p h w =
    query_loop-plain str i v (b'&' ∷ rest) (at_key i k f) p.inside
    ∙ ap
        (λ t.
          query_loop str (suc (i + length v)) rest (at_key (suc (i + length v)) k (emplace k t f)))
        (trimmed str pre v (b'&' ∷ rest) i e p h w)

query_end_lem :
    (str v k : Bytes) (i : ℕ) (f : Queries)
    → length str - suc i ≡ length v
    → trim_space (slice (suc i) (length str - suc i) str) ≡ v
    → query_end str (at_key (suc i) k f) ≡ emplace k v f
unfolding query_end
query_end_lem str [] k i f n t =
    rw (not_equal (suc i) 0 (omega arith), le→ltb_false 0 (length str - suc i) (omega arith))
query_end_lem str (a ∷ as') k i f n t =
    rw (not_equal (suc i) 0 (omega arith), lt→ltb 0 (length str - suc i) (omega arith), t)

-- The last value has no separator behind it.
end_lem :
    (str pre v k : Bytes) (i : ℕ) (f : Queries)
    → suc i ≡ length pre
    → IsPlain v
    → length str < npos
    → str ≡ pre ++ v
    → query_end str (query_loop str (suc i) v (at_key (suc i) k f)) ≡ emplace k v f
unfolding query_loop
end_lem str pre v k i f e p h w =
    ap (λ s. query_end str (query_loop str (suc i) s (at_key (suc i) k f))) (sym (append-nil v))
    ∙ ap (query_end str) (query_loop-plain str (suc i) v [] (at_key (suc i) k f) p.inside)
    ∙ query_end_lem str v k i f count (
        ap (λ n. trim_space (slice (suc i) n str)) same
        ∙ trimmed str pre v [] (suc i) e p h (w ∙ ap (◌++◌ pre) (sym (append-nil v))))
  where
    count : length str - suc i ≡ length v
    count = omega (arith, ap length w, length-append pre v)

    same : length str - suc i ≡ suc i + length v - suc i
    same = omega (arith, ap length w, length-append pre v)

pub record PlainPair (p : Bytes × Bytes) : Type 0 where
  pub name : IsPlain p.0
  pub val : IsPlain p.1

-- Behind a part of the text and a separator.
behind :
    (str pre seg rest : Bytes) (c : ℕ)
    → str ≡ pre ++ (seg ++ c ∷ rest)
    → str ≡ (pre ++ (seg ++ c ∷ [])) ++ rest
behind str pre seg rest c e =
    e
    ∙ ap (◌++◌ pre) (sym (append_assoc seg (c ∷ []) rest))
    ∙ sym (append_assoc pre (seg ++ c ∷ []) rest)

behind-length :
    (pre seg : Bytes) (c i : ℕ)
    → i ≡ length pre
    → suc (i + length seg) ≡ length (pre ++ (seg ++ c ∷ []))
behind-length pre seg c i e =
    omega (arith, length-append pre (seg ++ c ∷ []), length-append seg (c ∷ []))

pairs_lem :
    (ps : List (Bytes × Bytes)) (p : Bytes × Bytes) (str pre x : Bytes) (i : ℕ) (f : Queries)
    → All PlainPair (p ∷ ps)
    → i ≡ length pre
    → length str < npos
    → str ≡ pre ++ print_query (p ∷ ps)
    → query_end str (query_loop str i (print_query (p ∷ ps)) (at_key i x f))
      ≡ emplace_all (p ∷ ps) f
unfolding print_query emplace_all
pairs_lem [] (k, v) str pre x i f (h, _) e l w =
    ap (query_end str) (key_lem str pre k v x i f e h.name l w)
    ∙ end_lem str (pre ++ (k ++ b'=' ∷ [])) v k (i + length k) f (behind-length pre k b'=' i e)
        h.val l (behind str pre k v b'=' w)
pairs_lem (p ∷ ps) (k, v) str pre x i f (h, hs) e l w =
    let rest = print_query (p ∷ ps) in
    let pre' = pre ++ (k ++ b'=' ∷ []) in
    let i' = suc (i + length k) in
    let e' = behind-length pre k b'=' i e in
    let w' = behind str pre k (v ++ b'&' ∷ rest) b'=' w in
    ap (query_end str) (key_lem str pre k (v ++ b'&' ∷ rest) x i f e h.name l w)
    ∙ ap (query_end str) (value_lem str pre' v rest k i' f e' h.val l w')
    ∙ pairs_lem ps p str (pre' ++ (v ++ b'&' ∷ [])) k (suc (i' + length v)) (emplace k v f) hs
        (behind-length pre' v b'&' i' e') l (behind str pre' v rest b'&' w')

parse_query-nonempty :
    (str : Bytes) (f : Queries)
    → 0 < length str
    → parse_query str f ≡ query_end str (query_loop str 0 str (at_key 0 [] f))
unfolding parse_query
parse_query-nonempty [] f h = absurd (omega arith)
parse_query-nonempty (c ∷ cs) f h = refl

print_query-nonempty :
    (p : Bytes × Bytes) (ps : List (Bytes × Bytes)) → 0 < length (print_query (p ∷ ps))
unfolding print_query
print_query-nonempty (k, v) [] = omega (arith, length-append k (b'=' ∷ v))
print_query-nonempty (k, v) (p ∷ ps) =
    omega (arith, length-append k (b'=' ∷ (v ++ b'&' ∷ print_query (p ∷ ps))))

-- A query of plain names and values, `k=v&k=v`, is read as its pairs in order, added to what was
-- there: a name that is there already, from this query or an earlier one, keeps its first value.
-- Values may be empty. (The bound on the length is that of any text in memory.)
pub parse_query-print_query :
    (p : Bytes × Bytes) (ps : List (Bytes × Bytes)) (f : Queries)
    → All PlainPair (p ∷ ps)
    → length (print_query (p ∷ ps)) < npos
    → parse_query (print_query (p ∷ ps)) f ≡ emplace_all (p ∷ ps) f
parse_query-print_query p ps f h l =
    parse_query-nonempty (print_query (p ∷ ps)) f (print_query-nonempty p ps)
    ∙ pairs_lem ps p (print_query (p ∷ ps)) [] [] 0 f h refl l refl
