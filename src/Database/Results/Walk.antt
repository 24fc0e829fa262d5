-- ===== src/Database/Results/Walk.antt =====
-- A loop over all the rows of a `PreparedResultSet`, Src/Common/Database/QueryResult.cpp.
use game_project_demo.Common.{
  ℕ, zero, suc, ◌^◌, ◌<◌, ◌≡◌, refl, sym, ap, ap₂, subst, ◌∙◌, Bool, true, false, ltb, lt→ltb,
  le→ltb_false, get_elem?-append, some, List, [], ◌∷◌, ◌++◌, map, All, Bytes, length, take,
  length-append, append_assoc, arith,
}
use native.Mathlib.Nat.{mod-eq_of_lt}
use game_project_demo.Database.{Run, unfinished, finished, ◌>>=◌}
use game_project_demo.Database.Results.{Row}
use game_project_demo.Database.Results.Buffered.{
  Cell, StmtLibrary, Memory, row_size, RowField, PreparedResultSet, columns_from, fetch_rows,
  with_rows, result_bound, result_stored, new_prepared_result_set, fetch, row_or_stop,
  next_position,
}
use game_project_demo.Database.Results.Block.{IsLaid}
use game_project_demo.Database.Results.Kept.{Fits, cell_value}
use game_project_demo.Database.Results.Rows.{
  values, GivesCells, ReadsAs, reading, fetch_rows-kept, columns-IsLaid,
}
use game_project_demo.Database.Results.Shown.{shown_row, RowsHold, shown_rows}

unfoldable pub walked :
    (PreparedResultSet → Run (List Row)) → Row → Bool × PreparedResultSet → Run (List Row)
walked go_on row (false, s) = finished (row ∷ [])
walked go_on row (true, s) = do rest ← go_on s; finished (row ∷ rest)

-- `do { ... } while (result.NextRow())`, with what the fields of each row show.
unfoldable pub walk : ℕ → PreparedResultSet → Run (List Row)
walk zero s = unfinished
walk (suc fuel) s = do row ← fetch s; walked (walk fuel) (shown_row s.memory row) (next_position s)

module _ (field_count : ℕ) (m : Memory) where
  abbrev at_row : List (List RowField) → ℕ → PreparedResultSet
  at_row rows position = record {
    rows = rows;
    row_count = length rows;
    row_position = position;
    field_count = field_count;
    memory = m;
  }

  fetch-row :
      (done : List (List RowField)) (row : List RowField) (rest : List (List RowField))
      → fetch (at_row (done ++ row ∷ rest) (length done)) ≡ finished row
  unfolding fetch row_or_stop
  fetch-row done row rest =
      rw
        (
          lt→ltb (length done) (length (done ++ row ∷ rest))
              (omega (arith, length-append done (row ∷ rest))),
          get_elem?-append done rest row (length done) refl,
        )
        refl

  next_position-row :
      (rows : List (List RowField)) (position : ℕ)
      → suc position < 2 ^ 64
      → next_position (at_row rows position)
        ≡ (ltb (suc position) (length rows), at_row rows (suc position))
  unfolding next_position
  next_position-row rows position h =
      ap (λ p. (ltb p (length rows), at_row rows p)) (mod-eq_of_lt h)

  walk-rows :
      (rest : List (List RowField)) (done : List (List RowField)) (row : List RowField)
      → length (done ++ row ∷ rest) < 2 ^ 64
      → walk (suc (length rest)) (at_row (done ++ row ∷ rest) (length done))
        ≡ finished (map (shown_row m) (row ∷ rest))
  unfolding walk walked ◌>>=◌
  walk-rows [] done row h =
      let l = length-append done (row ∷ []) in
      rw
        (
          fetch-row done row [],
          next_position-row (done ++ row ∷ []) (length done) (omega (arith, l)),
          le→ltb_false (suc (length done)) (length (done ++ row ∷ [])) (omega (arith, l)),
        )
        refl
  walk-rows (row' ∷ rest) done row h =
      let l = length-append done (row ∷ row' ∷ rest) in
      rw
        (
          fetch-row done row (row' ∷ rest),
          next_position-row (done ++ row ∷ row' ∷ rest) (length done) (omega (arith, l)),
          lt→ltb (suc (length done)) (length (done ++ row ∷ row' ∷ rest)) (omega (arith, l)),
        )
        (ap (λ k. k >>= (λ vs. finished (shown_row m row ∷ vs)))
          (ap₂ (λ rows p. walk (suc (length rest)) (at_row rows p)) (sym moved) one_more
            ∙ walk-rows rest (done ++ row ∷ []) row'
                (subst (λ rows. length rows < 2 ^ 64) (sym moved) h)))
    where
      moved : (done ++ row ∷ []) ++ row' ∷ rest ≡ done ++ row ∷ row' ∷ rest
      moved = append_assoc done (row ∷ []) (row' ∷ rest)

      one_more : suc (length done) ≡ length (done ++ row ∷ [])
      one_more = omega (arith, length-append done (row ∷ []))

length-RowsHold :
    (P : ℕ → ℕ → Type 0) (rows : List (List RowField)) (vs : List Row)
    → RowsHold P rows vs
    → length rows ≡ length vs
length-RowsHold P [] [] h = refl
length-RowsHold P [] (v ∷ vs) h = absurd h
length-RowsHold P (r ∷ rows) [] h = absurd h
length-RowsHold P (r ∷ rows) (v ∷ vs) (h, hs) = ap suc (length-RowsHold P rows vs hs)

walk-held :
    (field_count : ℕ) (m : Memory) (rows : List (List RowField)) (v : Row) (vs : List Row)
    → suc (length vs) < 2 ^ 64
    → RowsHold (λ a b. m a ≡ b) rows (v ∷ vs)
    → walk (suc (length vs)) (record {
      rows = rows;
      row_count = suc (length vs);
      row_position = 0;
      field_count = field_count;
      memory = m;
    })
      ≡ finished (v ∷ vs)
walk-held field_count m [] v vs h held = absurd held
walk-held field_count m (row ∷ rest) v vs h held =
    let same : length rest ≡ length vs =
      omega (arith, length-RowsHold (λ a b. m a ≡ b) (row ∷ rest) (v ∷ vs) held) in
    subst
      (λ k.
        walk (suc k) (record {
          rows = row ∷ rest;
          row_count = suc k;
          row_position = 0;
          field_count = field_count;
          memory = m;
        })
        ≡ finished (v ∷ vs))
      same
      (walk-rows field_count m rest [] row (omega (arith, same, h))
        ∙ ap finished (shown_rows m (row ∷ rest) (v ∷ vs) held))

-- A prepared statement's result of at least one row, whose storing and binding succeed: a loop over
-- `Fetch` and `NextRow` sees every row once and in order, and each field shows the value that the library
-- gave, NULL included, although all the rows were written into one block of memory with texts ended by a
-- NUL. The values fit the buffers of their columns, and a row and the number of rows are within the range
-- of their types.
pub prepared_rows :
    {W R : Type 0} (lib : StmtLibrary W R) (stmt : Bytes) (m : Memory) (r : R) (row_count n : ℕ)
    (w w1 w2 : W) (cells : List Cell) (more : List (List Cell))
    → lib.mysql_stmt_store_result stmt w ≡ (true, w1)
    → lib.mysql_stmt_num_rows stmt w1 ≡ suc (length more)
    → lib.mysql_stmt_bind_result stmt w1 ≡ (true, w2)
    → row_size (columns_from lib.mysql_time 0 0 (take n (lib.mysql_fetch_fields r))) < 2 ^ 32
    → suc (length more) < 2 ^ 64
    → All
        (Fits (columns_from lib.mysql_time 0 0 (take n (lib.mysql_fetch_fields r))))
        (cells ∷ more)
    → GivesCells lib stmt (cells ∷ more) w2
    → walk (suc (length more)) ((new_prepared_result_set lib stmt m (some r) row_count n w).0)
      ≡ finished (map (map cell_value) (cells ∷ more))
unfolding new_prepared_result_set result_stored result_bound with_rows
prepared_rows lib stmt m r row_count n w w1 w2 cells more stored counted bound narrow short fits
      gives =
    let cs = columns_from lib.mysql_time 0 0 (take n (lib.mysql_fetch_fields r)) in
    let laid : IsLaid (row_size cs) 0 cs =
      columns-IsLaid lib.mysql_time 0 0 (row_size cs) (take n (lib.mysql_fetch_fields r))
        (omega arith) narrow in
    let done =
      fetch_rows lib stmt (suc (length more)) (row_size cs)
        (reading lib stmt cs [] (suc (length more)) n m w2) in
    let held : ReadsAs lib stmt (values lib stmt (cells ∷ more)) done =
      fetch_rows-kept lib stmt (row_size cs) n (cells ∷ more) cs [] [] m w2 laid fits gives tt in
    rw (stored, counted, bound)
      (subst
        (λ k.
          walk (suc k) (record {
            rows = done.rows;
            row_count = suc k;
            row_position = 0;
            field_count = n;
            memory = done.memory;
          })
          ≡ finished (map (map cell_value) (cells ∷ more)))
        (length-map more)
        (walk-held n done.memory done.rows (map cell_value cells) (map (map cell_value) more)
          (omega (arith, length-map more, short)) held))
  where
    length-map : (given : List (List Cell)) → length (map (map cell_value) given) ≡ length given
    length-map [] = refl
    length-map (g ∷ given) = ap suc (length-map given)
