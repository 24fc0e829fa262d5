-- ===== src/Log/Tests.antt =====
-- Runs of Src/Common/Util/Log.hpp over a file library whose open file is its bytes.
use game_project_demo.Common.{
  ℕ, ◌+◌, ◌^◌, ◌≤◌, ◌≡◌, refl, Bool, false, none, [], ◌∷◌, ◌++◌, Bytes, codes, length,
  if◌then◌else◌, length-append, arith,
}
use game_project_demo.Log.{
  FileLibrary, HtmlFormatSink, level_prefix, info, err, formatted, html_header, calc_filename,
  sink_it, on_open, opened, built, new_sink,
}
use game_project_demo.Log.Failure.{FileLaws}
use game_project_demo.Log.Rotation.{IsRotated, rotated_file_lem}
use game_project_demo.Log.Setup.{
  MultiLogger, size_limit, level_enum, with_sink, init_logger, configured_log_stays_within,
}
use game_project_demo.Log.Size.{Logged, sink_each}

-- `exists` says of every name whether a file has it, and no file can be renamed.
abbrev open_bytes : Bool → FileLibrary Bytes
open_bytes exists = record {
  open_file = λ name f. f;
  write = λ text f. f ++ text;
  size = length;
  flush = λ f. f;
  close_file = λ f. f;
  reopen = λ truncate f. if truncate then [] else f;
  split_by_extension = λ name. (name, codes ".html");
  path_exists = λ name f. exists;
  remove = λ name f. f;
  rename = λ src target f. (false, f);
  number_text = λ n. (48 + n) ∷ [];
}

longer : (text f : Bytes) → length f ≤ length (f ++ text)
longer text f = omega (arith, length-append f text)

abbrev byte_laws : (exists : Bool) → FileLaws (open_bytes exists)
byte_laws exists = record {
  content = λ f. f;
  content_write = λ text f. refl;
  content_flush = λ f. refl;
  content_reopen = λ f. refl;
  size_flush = λ f. refl;
  size_open = λ name text f. longer text f;
}

abbrev noon : ℕ → Bytes
noon i = codes "2024_01_01_12_00_00"

abbrev first_sink : HtmlFormatSink Bytes
first_sink = record {
  base_filename = codes "log";
  max_size = 300;
  max_files = 2;
  current_size = length html_header;
  files = html_header;
}

abbrev greeting : Logged
greeting = record { level = info; message = codes "hello"; src_time = noon; target_time = noon }

log_file_name :
    calc_filename (open_bytes false) (noon 0) (codes "log") 1
    ≡ codes "log2024_01_01_12_00_00.1.html"
unfolding calc_filename
log_file_name = refl

no_room : new_sink (open_bytes false) (noon 0) noon noon (codes "log") 0 2 false [] ≡ none
unfolding new_sink
no_room = refl

abbrev first_logger : MultiLogger Bytes
first_logger = record {
  file_sink = record first_sink { max_size = 1048576 };
  file_level = 2;
  console_level = 2;
  logger_level = 2;
  pattern = codes "%v";
}

configured_log_stays_within_example :
    length (sink_each (open_bytes false) (greeting ∷ greeting ∷ []) first_logger.file_sink).files
    ≤ 1048576 + length html_header
unfolding new_sink built on_open opened formatted level_prefix html_header init_logger with_sink
    size_limit level_enum
configured_log_stays_within_example =
    configured_log_stays_within (open_bytes false) (byte_laws false) (noon 0) noon noon
      (codes "log") 2 1 2 (codes "%v") [] first_logger greeting (greeting ∷ []) (omega arith) refl
      (omega arith, (omega arith, tt))

-- 2 ^ 44 megabytes are a limit of 0 bytes, which the sink refuses.
limit_wraps :
    init_logger (open_bytes false) (noon 0) noon noon (codes "log") 2 (2 ^ 44) 2 (codes "%v") []
    ≡ none
unfolding init_logger new_sink size_limit
limit_wraps = refl

abbrev full_sink : HtmlFormatSink Bytes
full_sink = record first_sink { current_size = 300; files = codes "<html>all that was logged" }

rotated_file_lem_example :
    IsRotated
      (open_bytes false)
      (byte_laws false)
      (formatted err (codes "x"))
      (sink_it (open_bytes false) noon noon err (codes "x") full_sink)
unfolding formatted level_prefix
rotated_file_lem_example =
    rotated_file_lem (open_bytes false) (byte_laws false) noon noon err (codes "x") full_sink
      (omega arith) (omega arith)
