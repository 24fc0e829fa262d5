-- ===== src/Log.antt =====
-- Src/Common/Util/Log.hpp: `HtmlFormatSink`, a log file that is rotated by its size. The file and the names
-- of the file system are those of the spdlog library: `FileLibrary` has its functions, over a state `F`.
-- A message comes as its formatted text.
pub mod Failure
pub mod Rotation
pub mod Setup
pub mod Size
mod Tests
use game_project_demo.Common.{
  ℕ, zero, suc, ◌+◌, ◌*◌, ◌%◌, ◌^◌, Bool, true, false, ◌&&◌, ◌||◌, Option, none, some, List, [],
  ◌++◌, Bytes, codes, ltb, ◌==◌, length, if◌then◌else◌,
}

pub record FileLibrary (F : Type 0) : Type 0 where
  -- of `file_helper`
  pub open_file : Bytes → F → F
  pub write : Bytes → F → F
  pub size : F → ℕ
  pub flush : F → F
  pub close_file : F → F
  pub reopen : Bool → F → F
  pub split_by_extension : Bytes → Bytes × Bytes
  -- of `details::os`; a renaming tells whether it was done
  pub path_exists : Bytes → F → Bool
  pub remove : Bytes → F → F
  pub rename : Bytes → Bytes → F → Bool × F
  -- a number in decimal
  pub number_text : ℕ → Bytes

pub record HtmlFormatSink (F : Type 0) : Type 0 where
  pub base_filename : Bytes
  pub max_size : ℕ
  pub max_files : ℕ
  pub current_size : ℕ
  pub files : F

-- `spdlog::level::level_enum`.
pub data Level : Type 0 where
  trace debug info warn err critical off n_levels : Level

-- `GetLogLevelHtmlPrefix`.
unfoldable pub level_prefix : Level → Bytes
level_prefix trace = codes "<font color=\" #DCDFE4\">"
level_prefix debug = codes "<font color=\" #56B6C2\">"
level_prefix info = codes "<font color=\" #98C379\">"
level_prefix warn = codes "<font color=\" #E5C07B\">"
level_prefix err = codes "<font color=\" #E06C75\">"
level_prefix critical = codes "<font color=\" #DCDFE4\" style=\"background-color:#E06C75;\">"
level_prefix off = []
level_prefix n_levels = []

abbrev pub suffix : Bytes
suffix = codes "<br></font>"

-- The text that is written for a message.
unfoldable pub formatted : Level → Bytes → Bytes
formatted level message = level_prefix level ++ message ++ suffix

-- What every file begins with.
unfoldable pub html_header : Bytes
html_header =
    codes "<html>\n"
    ++ codes "                <head>\n"
    ++ codes
        "                <meta http-equiv=\"content-type\" content=\"text/html; charset-gb2312\">\n"
    ++ codes "                <title>Html Output</title>\n"
    ++ codes "                </head>\n"
    ++ codes "                <body>\n"
    ++ codes "                <font face=\"Fixedsys\" size=\"2\" color=\"#0000FF\">"

module _ {F : Type 0} (lib : FileLibrary F) where
  -- `calc_filename`, for the text of the time at which it is called.
  unfoldable pub calc_filename : Bytes → Bytes → ℕ → Bytes
  calc_filename time file_name index =
      let (basename, ext) = lib.split_by_extension file_name in
      basename ++ time ++ codes "." ++ lib.number_text index ++ ext

  -- `rename_file_`.
  unfoldable pub rename_file : Bytes → Bytes → F → Bool × F
  rename_file src target files = lib.rename src target (lib.remove target files)

  -- A second attempt. When it fails too, the file is emptied and an exception is thrown: `none`, with the
  -- files as they are left.
  unfoldable pub renamed_again : Bool × F → Bool × F
  renamed_again (true, files) = (true, files)
  renamed_again (false, files) = (false, lib.reopen true files)

  unfoldable pub renamed : Bytes → Bytes → Bool × F → Bool × F
  renamed src target (true, files) = (true, files)
  renamed src target (false, files) = renamed_again (rename_file src target files)

  -- One turn of the loop of `rotate_`, for the names that it calculates.
  unfoldable pub move_file : Bytes → Bytes → F → Bool × F
  move_file src target files =
      if lib.path_exists src files
      then renamed src target (rename_file src target files)
      else (true, files)

  -- What follows a step, unless the step has thrown.
  unfoldable pub and_then : {A : Type 0} → Bool × A → (A → Bool × A) → Bool × A
  and_then (true, a) next = next a
  and_then (false, a) next = (false, a)

  -- The loop from a number of files down; `src_time` and `target_time` are the readings of the clock.
  unfoldable pub move_files : (ℕ → Bytes) → (ℕ → Bytes) → Bytes → ℕ → F → Bool × F
  move_files src_time target_time base zero files = (true, files)
  move_files src_time target_time base (suc i) files =
      and_then
        (move_file (calc_filename (src_time i) base i) (calc_filename (target_time i) base (suc i))
          files)
        (move_files src_time target_time base i)

  -- What `rotate_` does after its loop, or, for a file that could not be moved, the throw with the size reset.
  unfoldable pub fresh_file : HtmlFormatSink F → Bool × F → Bool × HtmlFormatSink F
  fresh_file s (true, files) =
      (true, record s { files = lib.write html_header (lib.reopen true files) })
  fresh_file s (false, files) = (false, record s { files = files; current_size = 0 })

  -- `rotate_`; `false` is an exception.
  unfoldable pub rotate : (ℕ → Bytes) → (ℕ → Bytes) → HtmlFormatSink F → Bool × HtmlFormatSink F
  rotate src_time target_time s =
      fresh_file s
        (move_files src_time target_time s.base_filename s.max_files (lib.close_file s.files))

  -- `sink_it_` from the size that the file would have.
  unfoldable pub written : Bytes → ℕ → HtmlFormatSink F → Bool × HtmlFormatSink F
  written text new_size s =
      (true, record s { files = lib.write text s.files; current_size = new_size })

  -- The part for a message that does not fit: the rotation is left out for an empty file.
  unfoldable pub make_room :
      (ℕ → Bytes) → (ℕ → Bytes) → Bytes → ℕ → HtmlFormatSink F → Bool × HtmlFormatSink F
  make_room src_time target_time text new_size s =
      let flushed = record s { files = lib.flush s.files } in
      if ltb 0 (lib.size flushed.files)
      then and_then (rotate src_time target_time flushed) (written text (length text))
      else written text new_size flushed

  -- `sink_it_` for a message whose text is already formatted, and a new size below 2 ^ 64.
  unfoldable pub sink_text :
      (ℕ → Bytes) → (ℕ → Bytes) → Bytes → HtmlFormatSink F → Bool × HtmlFormatSink F
  sink_text src_time target_time text s =
      let new_size = s.current_size + length text in
      if ltb s.max_size new_size
      then make_room src_time target_time text new_size s
      else written text new_size s

  -- `sink_it_`.
  unfoldable pub sink_it :
      (ℕ → Bytes) → (ℕ → Bytes) → Level → Bytes → HtmlFormatSink F → Bool × HtmlFormatSink F
  sink_it src_time target_time level message =
      sink_text src_time target_time (formatted level message)

  -- The end of the constructor: the first rotation, when it is asked for.
  unfoldable pub on_open :
      (ℕ → Bytes) → (ℕ → Bytes) → Bool → HtmlFormatSink F → Bool × HtmlFormatSink F
  on_open src_time target_time rotate_on_open s =
      if rotate_on_open && ltb 0 s.current_size
      then and_then (rotate src_time target_time s) (λ r. (true, record r { current_size = 0 }))
      else (true, s)

  -- The file of a new sink, which is opened under the name of the time; then the header.
  unfoldable pub opened : Bytes → Bytes → ℕ → ℕ → F → HtmlFormatSink F
  opened time base max_size max_files files =
      let files' = lib.write html_header (lib.open_file (calc_filename time base 0) files) in
      record {
        base_filename = base;
        max_size = max_size;
        max_files = max_files;
        current_size = lib.size files';
        files = files';
      }

  unfoldable pub built : Bool × HtmlFormatSink F → Option (HtmlFormatSink F)
  built (true, s) = some s
  built (false, s) = none

  -- The constructor: `none` where it throws.
  unfoldable pub new_sink :
      Bytes → (ℕ → Bytes) → (ℕ → Bytes) → Bytes → ℕ → ℕ → Bool → F → Option (HtmlFormatSink F)
  new_sink time src_time target_time base max_size max_files rotate_on_open files =
      if max_size == 0 || ltb 200000 max_files
      then none
      else built
          (on_open src_time target_time rotate_on_open (opened time base max_size max_files files))
