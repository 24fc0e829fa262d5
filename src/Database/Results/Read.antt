-- ===== src/Database/Results/Read.antt =====
-- Reading all the rows of a `ResultSet` of Src/Common/Database/QueryResult.cpp.
use game_project_demo.Common.{
  ℕ, zero, suc, ◌^◌, ◌<◌, ◌≤◌, ◌≡◌, refl, sym, ap, ◌∙◌, Bool, true, false, Option, none, some, List,
  [], ◌∷◌, map, All, Bytes, length, take, take_all, arith,
}
use native.Mathlib.Nat.{mod-eq_of_lt}
use game_project_demo.Database.{Run, unfinished, finished, ◌>>=◌}
use game_project_demo.Database.Field.{Field, set_value}
use game_project_demo.Database.Results.{
  MySqlField, metadata_from, fields_with, Row, ResultLibrary, ResultSet, new_result_set, cut,
  set_values, fields_or_stop, with_lengths, with_row, next_of, next_row,
}

abbrev pub lengths_of : Row → List ℕ
lengths_of [] = []
lengths_of (none ∷ row) = 0 ∷ lengths_of row
lengths_of (some bytes ∷ row) = length bytes ∷ lengths_of row

abbrev pub values : List Field → Row
values [] = []
values (f ∷ fs) = f.value ∷ values fs

abbrev pub IsShort : Option Bytes → Type 0
IsShort none = Unit
IsShort (some bytes) = length bytes < 2 ^ 32

module _ {R : Type 0} (lib : ResultLibrary R) where
  -- A result that gives these rows, in this order, and their lengths after each.
  abbrev pub Gives : List Row → R → Type 0
  Gives [] r = (lib.mysql_fetch_row r).0 ≡ none
  Gives (row ∷ rows) r =
      (r' : R) × (lib.mysql_fetch_row r ≡ (some row, r'))
      × (lib.mysql_fetch_lengths r' ≡ some (lengths_of row))
      × Gives rows r'

  abbrev row_of : Option (List Field) → Option Row
  row_of none = none
  row_of (some fs) = some (values fs)

  abbrev collected :
      (ResultSet R → Run (List (Option Row))) → Bool × ResultSet R → Run (List (Option Row))
  collected go_on (false, s) = finished []
  collected go_on (true, s) = do rows ← go_on s; finished (row_of s.current_row ∷ rows)

  -- `while (result.NextRow())`, with the values that the current row shows each time.
  unfoldable pub collect : ℕ → ResultSet R → Run (List (Option Row))
  collect zero s = unfinished
  collect (suc fuel) s = next_row lib s >>= collected (collect fuel)

abbrev filled : List Field → Row → List Field
filled [] row = []
filled (f ∷ fs) [] = []
filled (f ∷ fs) (v ∷ row) = set_value v f ∷ filled fs row

cut_whole : (bytes : Bytes) → length bytes < 2 ^ 32 → cut (length bytes) (some bytes) ≡ some bytes
cut_whole bytes h =
    ap some (ap (λ n. take n bytes) (mod-eq_of_lt h) ∙ take_all (length bytes) bytes (omega arith))

set_values-filled :
    (fs : List Field) (row : Row)
    → length row ≡ length fs
    → All IsShort row
    → set_values fs row (lengths_of row) ≡ finished (filled fs row)
unfolding set_values ◌>>=◌
set_values-filled [] [] e h = refl
set_values-filled [] (v ∷ row) e h = absurd (omega arith)
set_values-filled (f ∷ fs) [] e h = absurd (omega arith)
set_values-filled (f ∷ fs) (none ∷ row) e (h, hs) =
    rw (set_values-filled fs row (omega arith) hs) refl
set_values-filled (f ∷ fs) (some bytes ∷ row) e (h, hs) =
    rw (set_values-filled fs row (omega arith) hs, cut_whole bytes h) refl

values-filled :
    (fs : List Field) (row : Row) → length row ≡ length fs → values (filled fs row) ≡ row
unfolding set_value
values-filled [] [] e = refl
values-filled [] (v ∷ row) e = absurd (omega arith)
values-filled (f ∷ fs) [] e = absurd (omega arith)
values-filled (f ∷ fs) (v ∷ row) e = ap (◌∷◌ v) (values-filled fs row (omega arith))

length-filled :
    (fs : List Field) (row : Row) → length row ≡ length fs → length (filled fs row) ≡ length fs
length-filled [] row e = refl
length-filled (f ∷ fs) [] e = absurd (omega arith)
length-filled (f ∷ fs) (v ∷ row) e = ap suc (length-filled fs row (omega arith))

-- Rows of `n` columns that a row of fields can hold.
abbrev pub IsRow : ℕ → Row → Type 0
IsRow n row = (length row ≡ n) × All IsShort row

abbrev current : {R : Type 0} → ResultSet R → List Field → R → ResultSet R
current s fs r = record s { current_row = some fs; result = some r }

module _ {R : Type 0} (lib : ResultLibrary R) (n : ℕ) where
  last_row :
      (go_on : ResultSet R → Run (List (Option Row))) (p : Option Row × R) (s : ResultSet R)
      → p.0 ≡ none
      → (with_row lib p s >>= collected lib go_on) ≡ finished []
  unfolding with_row ◌>>=◌
  last_row go_on (none, r) s e = refl
  last_row go_on (some row, r) s e = cc

  collect-current :
      (rows : List Row) (s : ResultSet R) (fs : List Field) (r : R)
      → length fs ≡ n
      → All (IsRow n) rows
      → Gives lib rows r
      → collect lib (suc (length rows)) (current s fs r) ≡ finished (map some rows)
  unfolding collect next_row next_of with_row with_lengths fields_or_stop ◌>>=◌
  collect-current [] s fs r e all ends =
      last_row (λ x. unfinished) (lib.mysql_fetch_row r) (current s fs r) ends
  collect-current (row ∷ rows) s fs r e ((wide, short), all) (r', fetched, lengths, gives) =
      rw (fetched, lengths, set_values-filled fs row (wide ∙ sym e) short)
        (ap (λ k. k >>= (λ more. finished (some (values (filled fs row)) ∷ more)))
            (collect-current rows s (filled fs row) r' (length-filled fs row (wide ∙ sym e) ∙ e) all
              gives)
          ∙ ap (λ v. finished (some v ∷ map some rows)) (values-filled fs row (wide ∙ sym e)))

length-fields :
    (n index : ℕ) (fields : List MySqlField)
    → n ≤ length fields
    → length (fields_with (metadata_from index false (take n fields))) ≡ n
unfolding fields_with metadata_from
length-fields zero index fields h = refl
length-fields (suc n) index [] h = absurd (omega arith)
length-fields (suc n) index (f ∷ fields) h =
    ap suc (length-fields n (suc index) fields (omega arith))

-- A loop over `NextRow` of a new `ResultSet` sees every row of its result once and in order, each with
-- the values that the library gives, NULL included, and ends after the last one; the rows have as
-- many values as the set has fields, and each value is shorter than 2 ^ 32 bytes.
pub collect_all :
    {R : Type 0} (lib : ResultLibrary R) (rows : List Row) (r : R) (fields : List MySqlField)
    (row_count n : ℕ)
    → n ≤ length fields
    → All (IsRow n) rows
    → Gives lib rows r
    → collect lib (suc (length rows)) (new_result_set r fields row_count n)
      ≡ finished (map some rows)
unfolding new_result_set
collect_all lib rows r fields row_count n enough all gives =
    let metadata = metadata_from 0 false (take n fields) in
    collect-current lib n rows (new_result_set r fields row_count n) (fields_with metadata) r
      (length-fields n 0 fields enough) all gives
