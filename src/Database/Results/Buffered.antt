-- ===== src/Database/Results/Buffered.antt =====
-- `PreparedResultSet` of Src/Common/Database/QueryResult.h and QueryResult.cpp: all the rows of a prepared
-- statement, in one block of memory that the columns move through. What is released, and what is told to
-- the log, is left out.
use game_project_demo.Common.{
  ℕ, zero, suc, ◌+◌, ◌%◌, ◌^◌, ◌==◌, Bool, true, false, ◌&&◌, Option, none, some, List, [], ◌∷◌,
  Bytes, ltb, replicate, set, take, get_elem?, if◌then◌else◌,
}
use game_project_demo.Database.{Run, stopped, finished}
use game_project_demo.Database.Columns.{
  MysqlType, tiny_blob, medium_blob, long_blob, blob, var_string, size_for_type,
}
use game_project_demo.Database.Results.{MySqlField, QueryResultFieldMetadata, initialize_metadata}

-- What `mysql_stmt_fetch` comes to: for each column NULL, or the length of its value and the bytes of it.
abbrev pub Cell : Type 0
Cell = Option (ℕ × Bytes)

pub data Fetched : Type 0 where
  fetched truncated : List Cell → Fetched
  no_row : Fetched

-- The functions of the client library for the results of a statement, which is known by its text; a
-- result true is a success.
pub record StmtLibrary (W R : Type 0) : Type 0 where
  -- the size of a `MYSQL_TIME`
  pub mysql_time : ℕ
  pub mysql_fetch_fields : R → List MySqlField
  pub mysql_stmt_store_result : Bytes → W → Bool × W
  pub mysql_stmt_num_rows : Bytes → W → ℕ
  pub mysql_stmt_bind_result : Bytes → W → Bool × W
  pub mysql_stmt_fetch : Bytes → W → Fetched × W
  pub mysql_stmt_free_result : Bytes → W → W

-- `pDataBuffer`, by its offsets.
abbrev pub Memory : Type 0
Memory = ℕ → ℕ

unfoldable pub write_byte : ℕ → ℕ → Memory → Memory
write_byte a b m = λ x. if x == a then b else m x

unfoldable pub write_at : ℕ → Bytes → Memory → Memory
write_at a [] m = m
write_at a (b ∷ bs) m = write_at (suc a) bs (write_byte a b m)

-- An element of `_pBind`, with the metadata of its column; its buffer is an offset.
pub record Column : Type 0 where
  pub metadata : QueryResultFieldMetadata
  pub buffer_type : MysqlType
  pub buffer_length : ℕ
  pub buffer : ℕ

-- A `Field` of `_rows`: where its value begins and how long it is, and its metadata.
pub record RowField : Type 0 where
  pub value : Option (ℕ × ℕ)
  pub metadata : Option QueryResultFieldMetadata

abbrev pub no_value : RowField
no_value = record { value = none; metadata = none }

pub record PreparedResultSet : Type 0 where
  pub rows : List (List RowField)
  pub row_count : ℕ
  pub row_position : ℕ
  pub field_count : ℕ
  pub memory : Memory

-- The columns, each with its buffer behind those before it in the first row;
-- the offset has 32 bits.
unfoldable pub columns_from : ℕ → ℕ → ℕ → List MySqlField → List Column
columns_from mysql_time index offset [] = []
columns_from mysql_time index offset (f ∷ fs) =
    let size = size_for_type mysql_time f.max_length f.type in
    record {
      metadata = initialize_metadata f index true;
      buffer_type = f.type;
      buffer_length = size;
      buffer = offset;
    }
    ∷ columns_from mysql_time (suc index) ((offset + size) % 2 ^ 32) fs

-- `rowSize`.
unfoldable pub row_size : List Column → ℕ
row_size [] = 0
row_size (c ∷ cs) = c.buffer_length + row_size cs

-- What the library writes: no more than a buffer takes, and nothing for NULL.
unfoldable pub write_cells : List Column → List Cell → Memory → Memory
write_cells [] cells m = m
write_cells (c ∷ cs) [] m = m
write_cells (c ∷ cs) (none ∷ cells) m = write_cells cs cells m
write_cells (c ∷ cs) (some (n, bytes) ∷ cells) m =
    write_cells cs cells (write_at c.buffer (take c.buffer_length bytes) m)

-- The types of the `switch`.
unfoldable pub is_text : MysqlType → Bool
is_text tiny_blob = true
is_text medium_blob = true
is_text long_blob = true
is_text blob = true
is_text var_string = true
is_text MysqlType.string = true
is_text _ = false

-- The NUL behind a text that is shorter than its buffer.
unfoldable pub terminated : Column → ℕ → Memory → Memory
terminated c n m =
    if is_text c.buffer_type && ltb n c.buffer_length then write_byte (c.buffer + n) 0 m else m

unfoldable pub terminate_cells : List Column → List Cell → Memory → Memory
terminate_cells [] cells m = m
terminate_cells (c ∷ cs) [] m = m
terminate_cells (c ∷ cs) (none ∷ cells) m = terminate_cells cs cells m
terminate_cells (c ∷ cs) (some (n, bytes) ∷ cells) m = terminate_cells cs cells (terminated c n m)

-- The fields of the row; a length has 32 bits.
unfoldable pub fields_of : List Column → List Cell → List RowField
fields_of [] cells = []
fields_of (c ∷ cs) [] = []
fields_of (c ∷ cs) (none ∷ cells) =
    record { value = none; metadata = some c.metadata } ∷ fields_of cs cells
fields_of (c ∷ cs) (some (n, bytes) ∷ cells) =
    record { value = some (c.buffer, n % 2 ^ 32); metadata = some c.metadata } ∷ fields_of cs cells

-- The buffers move on by a row, but for those of a NULL.
unfoldable pub advanced : ℕ → List Column → List Cell → List Column
advanced size [] cells = []
advanced size (c ∷ cs) [] = c ∷ cs
advanced size (c ∷ cs) (none ∷ cells) = c ∷ advanced size cs cells
advanced size (c ∷ cs) (some v ∷ cells) =
    record c { buffer = c.buffer + size } ∷ advanced size cs cells

-- The variables of the loop over the rows.
pub record Reading (W : Type 0) : Type 0 where
  pub columns : List Column
  pub rows : List (List RowField)
  pub position : ℕ
  pub memory : Memory
  pub world : W

module _ {W R : Type 0} (lib : StmtLibrary W R) (stmt : Bytes) where
  unfoldable pub take_row : ℕ → List Cell → Reading W → Reading W
  take_row size cells r = record r {
    columns = advanced size r.columns cells;
    rows = set r.rows r.position (fields_of r.columns cells);
    position = suc r.position;
    memory = terminate_cells r.columns cells (write_cells r.columns cells r.memory);
  }

  unfoldable pub row_fetched : ℕ → (Reading W → Reading W) → Fetched × W → Reading W → Reading W
  row_fetched size go_on (fetched cells, w) r = go_on (take_row size cells (record r { world = w }))
  row_fetched size go_on (truncated cells, w) r =
      go_on (take_row size cells (record r { world = w }))
  row_fetched size go_on (no_row, w) r = record r { world = w }

  -- The loop over `FetchNextRow`, with the number of rows that are left.
  unfoldable pub fetch_rows : ℕ → ℕ → Reading W → Reading W
  fetch_rows zero size r = r
  fetch_rows (suc left) size r =
      row_fetched size (fetch_rows left size) (lib.mysql_stmt_fetch stmt r.world) r

  unfoldable pub without_rows : ℕ → ℕ → W → PreparedResultSet × W
  without_rows row_count field_count w = (
    record {
      rows = [];
      row_count = row_count;
      row_position = 0;
      field_count = field_count;
      memory = λ x. 0;
    },
    w,
  )

  unfoldable pub with_rows : ℕ → ℕ → Reading W → PreparedResultSet × W
  with_rows row_count field_count r = (
    record {
      rows = r.rows;
      row_count = row_count;
      row_position = 0;
      field_count = field_count;
      memory = r.memory;
    },
    lib.mysql_stmt_free_result stmt r.world,
  )

  -- After `mysql_stmt_bind_result`; the block begins with the bytes `m`.
  unfoldable pub result_bound : Memory → ℕ → ℕ → List Column → Bool × W → PreparedResultSet × W
  result_bound m row_count field_count columns (false, w) =
      without_rows row_count field_count (lib.mysql_stmt_free_result stmt w)
  result_bound m row_count field_count columns (true, w) = with_rows row_count field_count (
      fetch_rows row_count (row_size columns) (record {
        columns = columns;
        rows = replicate row_count (replicate field_count no_value);
        position = 0;
        memory = m;
        world = w;
      }))

  unfoldable pub result_stored : Memory → R → ℕ → ℕ → Bool × W → PreparedResultSet × W
  result_stored m metadata row_count field_count (false, w) = without_rows row_count field_count w
  result_stored m metadata row_count field_count (true, w) =
      result_bound m (lib.mysql_stmt_num_rows stmt w) field_count
        (columns_from lib.mysql_time 0 0 (take field_count (lib.mysql_fetch_fields metadata)))
        (lib.mysql_stmt_bind_result stmt w)

  -- The constructor.
  unfoldable pub new_prepared_result_set : Memory → Option R → ℕ → ℕ → W → PreparedResultSet × W
  new_prepared_result_set m none row_count field_count w = without_rows row_count field_count w
  new_prepared_result_set m (some metadata) row_count field_count w =
      result_stored m metadata row_count field_count (lib.mysql_stmt_store_result stmt w)

-- `NextRow`.
unfoldable pub next_position : PreparedResultSet → Bool × PreparedResultSet
next_position s =
    let position = suc s.row_position % 2 ^ 64 in
    (ltb position s.row_count, record s { row_position = position })

-- `Fetch`; a row that `_rows` does not have is read behind its end.
unfoldable pub row_or_stop : Option (List RowField) → Run (List RowField)
row_or_stop none = stopped
row_or_stop (some row) = finished row

unfoldable pub fetch : PreparedResultSet → Run (List RowField)
fetch s =
    if ltb s.row_position s.row_count
    then row_or_stop (get_elem? s.rows s.row_position)
    else stopped
