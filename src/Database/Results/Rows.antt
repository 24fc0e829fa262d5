-- ===== src/Database/Results/Rows.antt =====
-- All the rows of a `PreparedResultSet`, Src/Common/Database/QueryResult.cpp, as its constructor leaves them.
use game_project_demo.Common.{
  ℕ, suc, ◌+◌, ◌%◌, ◌^◌, ◌<◌, ◌≡◌, refl, sym, ap, ap₂, subst, ◌∙◌, none, some, List, [], ◌∷◌, ◌++◌,
  map, All, Bytes, length, replicate, set-append, length-append, append_assoc, append-nil, arith,
}
use native.Mathlib.Nat.{mod-eq_of_lt}
use game_project_demo.Database.Columns.{size_for_type}
use game_project_demo.Database.Results.{MySqlField, Row}
use game_project_demo.Database.Results.Buffered.{
  Cell, fetched, StmtLibrary, Memory, Column, row_size, RowField, no_value, columns_from,
  write_cells, terminate_cells, fields_of, advanced, Reading, take_row, row_fetched, fetch_rows,
}
use game_project_demo.Database.Results.Block.{
  IsPassed, IsLaid, write_cells-other, terminate_cells-other, advanced-IsPassed, advanced-IsLaid,
}
use game_project_demo.Database.Results.Kept.{
  RowHolds, RowHolds-map, Fits, cell_value, IsNew-row, IsNew,
}
use game_project_demo.Database.Results.Shown.{RowsHold, RowsHold-map, RowsHold-append}

-- The byte is there, and no column writes there again.
abbrev pub IsKept : ℕ → List Column → Memory → ℕ → ℕ → Type 0
IsKept size cs m a b = (m a ≡ b) × IsPassed size a cs

advanced-Fits :
    (size : ℕ) (cs : List Column) (cells more : List Cell)
    → Fits cs more
    → Fits (advanced size cs cells) more
unfolding advanced
advanced-Fits size [] cells more h = h
advanced-Fits size (c ∷ cs) [] more h = h
advanced-Fits size (c ∷ cs) (none ∷ cells) [] h = h
advanced-Fits size (c ∷ cs) (none ∷ cells) (none ∷ more) (h, hs) =
    (h, advanced-Fits size cs cells more hs)
advanced-Fits size (c ∷ cs) (none ∷ cells) (some v ∷ more) (h, hs) =
    (h, advanced-Fits size cs cells more hs)
advanced-Fits size (c ∷ cs) (some w ∷ cells) [] h = h
advanced-Fits size (c ∷ cs) (some w ∷ cells) (none ∷ more) (h, hs) =
    (h, advanced-Fits size cs cells more hs)
advanced-Fits size (c ∷ cs) (some w ∷ cells) (some v ∷ more) (h, hs) =
    (h, advanced-Fits size cs cells more hs)

all-Fits :
    (size : ℕ) (cs : List Column) (cells : List Cell) (given : List (List Cell))
    → All (Fits cs) given
    → All (Fits (advanced size cs cells)) given
all-Fits size cs cells [] h = tt
all-Fits size cs cells (more ∷ given) (h, hs) =
    (advanced-Fits size cs cells more h, all-Fits size cs cells given hs)

module _ {W R : Type 0} (lib : StmtLibrary W R) (stmt : Bytes) where
  -- The library gives these rows, one after the other.
  abbrev pub GivesCells : List (List Cell) → W → Type 0
  GivesCells [] w = Unit
  GivesCells (cells ∷ given) w =
      (w' : W) × (lib.mysql_stmt_fetch stmt w ≡ (fetched cells, w')) × GivesCells given w'

  abbrev pub values : List (List Cell) → List Row
  values = map (map cell_value)

  -- The loop with some rows done.
  abbrev pub reading : List Column → List (List RowField) → ℕ → ℕ → Memory → W → Reading W
  reading columns done left fields m w = record {
    columns = columns;
    rows = done ++ replicate left (replicate fields no_value);
    position = length done;
    memory = m;
    world = w;
  }

  abbrev pub ReadsAs : List Row → Reading W → Type 0
  ReadsAs vs r = RowsHold (λ a b. r.memory a ≡ b) r.rows vs

  taken :
      (size fields left : ℕ) (cells : List Cell) (columns : List Column)
      (done : List (List RowField)) (m : Memory) (w w' : W)
      → take_row lib stmt size cells
          (record (reading columns done (suc left) fields m w) { world = w' })
        ≡ reading
            (advanced size columns cells)
            (done ++ fields_of columns cells ∷ [])
            left
            fields
            (terminate_cells columns cells (write_cells columns cells m))
            w'
  unfolding take_row
  taken size fields left cells columns done m w w' =
      let blank = replicate fields no_value in
      let cs = advanced size columns cells in
      let m' = terminate_cells columns cells (write_cells columns cells m) in
      ap₂ (λ rows n. record { columns = cs; rows = rows; position = n; memory = m'; world = w' })
        (set-append done (replicate left blank) blank (fields_of columns cells) (length done) refl
          ∙ sym (append_assoc done (fields_of columns cells ∷ []) (replicate left blank)))
        next
    where
      next : suc (length done) ≡ length (done ++ fields_of columns cells ∷ [])
      next = omega (arith, length-append done (fields_of columns cells ∷ []))

  IsKept-after :
      (size : ℕ) (columns : List Column) (cells : List Cell) (m : Memory) (a b : ℕ)
      → IsKept size columns m a b
      → IsKept size
          (advanced size columns cells)
          (terminate_cells columns cells (write_cells columns cells m))
          a
          b
  IsKept-after size columns cells m a b (here, passed) = (
    terminate_cells-other size a columns cells (write_cells columns cells m) passed
        ∙ write_cells-other size a columns cells m passed
        ∙ here,
    advanced-IsPassed size a columns cells passed,
  )

  pub fetch_rows-kept :
      (size fields : ℕ) (given : List (List Cell)) (columns : List Column)
      (done : List (List RowField)) (vs : List Row) (m : Memory) (w : W)
      → IsLaid size 0 columns
      → All (Fits columns) given
      → GivesCells given w
      → RowsHold (IsKept size columns m) done vs
      → ReadsAs
          (vs ++ values given)
          (fetch_rows lib stmt (length given) size (reading columns done (length given) fields m w))
  unfolding fetch_rows row_fetched
  fetch_rows-kept size fields [] columns done vs m w laid fit gives kept =
      rw (append-nil done, append-nil vs)
        (RowsHold-map (IsKept size columns m) (λ a b. m a ≡ b) (λ a b k. k.0) done vs kept)
  fetch_rows-kept size fields (cells ∷ given) columns done vs m w laid (fit, fits) (w', e, gives)
        kept =
      let cs = advanced size columns cells in
      let m' = terminate_cells columns cells (write_cells columns cells m) in
      let new : RowHolds (IsKept size cs m') (fields_of columns cells) (map cell_value cells) =
        RowHolds-map (IsNew size cs 0 m') (IsKept size cs m') (λ a b k. (k.0, k.1))
          (fields_of columns cells) (map cell_value cells)
          (IsNew-row size 0 columns cells m laid fit) in
      let again =
        fetch_rows-kept size fields given cs (done ++ fields_of columns cells ∷ [])
          (vs ++ map cell_value cells ∷ []) m' w' (advanced-IsLaid size 0 columns cells laid)
          (all-Fits size columns cells given fits) gives
          (RowsHold-append (IsKept size cs m') done vs (fields_of columns cells)
            (map cell_value cells)
            (RowsHold-map (IsKept size columns m) (IsKept size cs m')
              (IsKept-after size columns cells m) done vs kept)
            new) in
      let step : fetch_rows lib stmt (suc (length given)) size
            (reading columns done (suc (length given)) fields m w)
          ≡ fetch_rows lib stmt (length given) size
              (reading cs (done ++ fields_of columns cells ∷ []) (length given) fields m' w') =
        ap
          (λ p.
            row_fetched lib stmt size (fetch_rows lib stmt (length given) size) p
              (reading columns done (suc (length given)) fields m w))
          e
        ∙ ap (fetch_rows lib stmt (length given) size)
            (taken size fields (length given) cells columns done m w w') in
      subst (ReadsAs (vs ++ values (cells ∷ given))) (sym step) (
        subst
          (λ l. ReadsAs l (
            fetch_rows lib stmt (length given) size
              (reading cs (done ++ fields_of columns cells ∷ []) (length given) fields m' w')))
          (append_assoc vs (map cell_value cells ∷ []) (values given)) again)

pub columns-IsLaid :
    (mysql_time index offset size : ℕ) (fs : List MySqlField)
    → offset + row_size (columns_from mysql_time index offset fs) ≡ size
    → size < 2 ^ 32
    → IsLaid size offset (columns_from mysql_time index offset fs)
unfolding columns_from row_size
columns-IsLaid mysql_time index offset size [] e h = omega (arith, e)
columns-IsLaid mysql_time index offset size (f ∷ fs) e h = (
  (0, omega arith),
  subst (λ o. IsLaid size o (columns_from mysql_time (suc index) next fs)) small
      (columns-IsLaid mysql_time (suc index) next size fs (omega (arith, e, small)) h),
)
  where
    width : ℕ
    width = size_for_type mysql_time f.max_length f.type

    next : ℕ
    next = (offset + width) % 2 ^ 32

    small : next ≡ offset + width
    small = mod-eq_of_lt (omega (arith, e, h))
