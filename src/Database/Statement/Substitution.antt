-- ===== src/Database/Statement/Substitution.antt =====
-- `GetSqlString` of Src/Common/Database/MySqlPreparedStatement.cpp against a substitution in one pass.
use game_project_demo.Common.{
  ℕ, suc, ◌+◌, ◌==◌, ◌<◌, ◌≡◌, refl, sym, Option-cases, length-take, ap, ◌∙◌, Bool-cases, inl, inr,
  Option, none, some, List, [], ◌∷◌, ◌++◌, map, Bytes, length, take, drop, if◌then◌else◌, ◌>>=◌,
  append_assoc, drop-append, length-append, arith,
}
use game_project_demo.Database.Statement.{StatementData}
use game_project_demo.Database.Statement.Bind.{MySqlPreparedStatement}
use game_project_demo.Database.Statement.SqlText.{
  to_string, find_mark, find_mark_from, replace_one, replace_marks, sql_of, get_sql_string,
}

-- The marks of a text, from the left, each replaced by the next of the values; `none` if there are
-- more values than marks.
abbrev pub substitute : Bytes → List Bytes → Option Bytes
substitute sql [] = some sql
substitute [] (v ∷ vs) = none
substitute (b ∷ sql) (v ∷ vs) =
    let here = substitute sql vs in
    let later = substitute sql (v ∷ vs) in
    if b == 63 then (do t ← here; some (v ++ t)) else (do t ← later; some (b ∷ t))

-- Up to a mark the text stays as it is.
replaced_at : Bytes → Bytes → List Bytes → Option ℕ → Option Bytes
replaced_at sql v vs none = none
replaced_at sql v vs (some i) = do t ← substitute (drop (suc i) sql) vs; some (take i sql ++ v ++ t)

map_map :
    {A B C : Type 0} (o : Option A) (f : A → B) (g : B → C)
    → ((o >>= λ a. some (f a)) >>= λ b. some (g b)) ≡ (o >>= λ a. some (g (f a)))
map_map none f g = refl
map_map (some a) f g = refl

later_mark :
    (b : ℕ) (sql v : Bytes) (vs : List Bytes) (o : Option ℕ)
    → (replaced_at sql v vs o >>= λ t. some (b ∷ t))
      ≡ replaced_at (b ∷ sql) v vs (o >>= λ i. some (suc i))
unfolding replaced_at
later_mark b sql v vs none = refl
later_mark b sql v vs (some i) =
    map_map (substitute (drop (suc i) sql) vs) (λ t. take i sql ++ v ++ t) (◌∷◌ b)

substitute-mark :
    (sql v : Bytes) (vs : List Bytes)
    → substitute sql (v ∷ vs) ≡ replaced_at sql v vs (find_mark sql)
unfolding find_mark replaced_at
substitute-mark [] v vs = refl
substitute-mark (b ∷ sql) v vs = elim (Bool-cases (b == 63)) [
  | inl e ↦ rw e refl
  | inr e ↦ rw (e, substitute-mark sql v vs) (later_mark b sql v vs (find_mark sql))
]

find_mark-lt : (sql : Bytes) (i : ℕ) → find_mark sql ≡ some i → i < length sql
unfolding find_mark
find_mark-lt [] i e = cc
find_mark-lt (b ∷ sql) i e = elim (Option-cases (find_mark sql)) [
  | inl f ↦ ground (arith, f)
  | inr (j, f) ↦ ground (arith, f, find_mark-lt sql j f)
]

zero_plus : (i : ℕ) → 0 + i ≡ i
zero_plus i = omega arith

suc_plus : (m i : ℕ) → suc m + i ≡ suc (m + i)
suc_plus m i = omega arith

take-done : (done sql : Bytes) (i : ℕ) → take (length done + i) (done ++ sql) ≡ done ++ take i sql
take-done [] sql i = ap (λ k. take k sql) (zero_plus i)
take-done (b ∷ done) sql i =
    ap (λ k. take k (b ∷ done ++ sql)) (suc_plus (length done) i)
    ∙ ap (◌∷◌ b) (take-done done sql i)

drop-done : (done sql : Bytes) (i : ℕ) → drop (length done + i) (done ++ sql) ≡ drop i sql
drop-done [] sql i = ap (λ k. drop k sql) (zero_plus i)
drop-done (b ∷ done) sql i =
    ap (λ k. drop k (b ∷ done ++ sql)) (suc_plus (length done) i) ∙ drop-done done sql i

-- The text behind a mark that was replaced, and its position.
abbrev so_far : Bytes → Bytes → ℕ → Bytes → Bytes
so_far done sql i v = (done ++ take i sql) ++ v

replace_one-done :
    (done sql : Bytes) (i : ℕ) (v : Bytes)
    → replace_one (done ++ sql) (length done + i) v ≡ so_far done sql i v ++ drop (suc i) sql
unfolding replace_one
replace_one-done done sql i v =
    rw
      (
        take-done done sql i,
        sym (suc_plus (length done) i),
        plus_suc (length done) i,
        drop-done done sql (suc i),
      )
      refl
  where
    plus_suc : (m k : ℕ) → suc m + k ≡ m + suc k
    plus_suc m k = omega arith

length-so_far :
    (done sql : Bytes) (i : ℕ) (v : Bytes)
    → i < length sql
    → length done + i + length v ≡ length (so_far done sql i v)
length-so_far done sql i v h = omega (
  arith,
  length-append (done ++ take i sql) v,
  length-append done (take i sql),
  length-take i sql,
)

module _ (done sql v : Bytes) (vs : List Bytes) (i : ℕ) where
  -- The rest of the text is put behind what is done.
  put_behind :
      (o : Option Bytes)
      → (o >>= λ t. some (so_far done sql i v ++ t))
        ≡ ((o >>= λ t. some (take i sql ++ v ++ t)) >>= λ t. some (done ++ t))
  put_behind none = refl
  put_behind (some t) =
      ap some (
        ap (λ x. x ++ t) (append_assoc done (take i sql) v) ∙ append_assoc done (take i sql ++ v) t)

module _ (d : StatementData) (ds : List StatementData) (done sql : Bytes) where
  -- The loop after a mark was looked for.
  after_mark : Option ℕ → Option Bytes
  after_mark o = (o >>= λ i. some (length done + i)) >>= λ mark.
      replace_marks ds (mark + length (to_string d)) (replace_one (done ++ sql) mark (to_string d))

  after_mark-replaced_at :
      (o : Option ℕ)
      → ((i : ℕ) → o ≡ some i → i < length sql)
      → ((done' rest : Bytes)
          → replace_marks ds (length done') (done' ++ rest)
            ≡ (substitute rest (map to_string ds) >>= λ t. some (done' ++ t)))
      → after_mark o
        ≡ (replaced_at sql (to_string d) (map to_string ds) o >>= λ t. some (done ++ t))
  unfolding after_mark replaced_at
  after_mark-replaced_at none h again = refl
  after_mark-replaced_at (some i) h again =
      rw
        (
          replace_one-done done sql i (to_string d),
          length-so_far done sql i (to_string d) (h i refl),
        )
        (again (so_far done sql i (to_string d)) (drop (suc i) sql)
          ∙ put_behind done sql (to_string d) (map to_string ds) i
              (substitute (drop (suc i) sql) (map to_string ds)))

replace_marks-from :
    (ds : List StatementData) (done sql : Bytes)
    → replace_marks ds (length done) (done ++ sql)
      ≡ (substitute sql (map to_string ds) >>= λ t. some (done ++ t))
unfolding replace_marks find_mark_from after_mark
replace_marks-from [] done sql = refl
replace_marks-from (d ∷ ds) done sql =
    rw
      (
        drop-append (length done) done sql refl,
        substitute-mark sql (to_string d) (map to_string ds),
      )
      (after_mark-replaced_at d ds done sql (find_mark sql) (find_mark-lt sql)
        (replace_marks-from ds))

-- On a statement that was bound before, `GetSqlString` gives its text with the question marks replaced, from the left, by
-- the texts of the parameters, as by one pass that never looks at what it has put in, and throws exactly where
-- there are more parameters than question marks. On a statement that was never bound it is undefined.
pub get_sql_string-substitute :
    (s : MySqlPreparedStatement)
    → get_sql_string s
      ≡ (do p ← s.stmt; some (substitute s.sql_string (map to_string p.statement_data)))
unfolding get_sql_string sql_of
get_sql_string-substitute s = elim (Option-cases s.stmt) [
  | inl e ↦ rw e refl
  | inr (p, e) ↦ rw e (
      ap some (
        replace_marks-from p.statement_data [] s.sql_string
        ∙ same (substitute s.sql_string (map to_string p.statement_data))))
]
  where
    same : (o : Option Bytes) → (o >>= λ t. some ([] ++ t)) ≡ o
    same none = refl
    same (some t) = refl
