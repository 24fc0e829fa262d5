-- ===== src/Log/Setup.antt =====
-- `CLogger::InitLogger` of Src/Common/Util/Log.hpp: the sinks of the logger and what they are set to.
use game_project_demo.Common.{
  ℕ, ◌*◌, ◌+◌, ◌^◌, ◌%◌, ◌<◌, ◌≤◌, ◌≡◌, sym, ap, false, Bytes, length, List, ◌∷◌, All, Option, none,
  some, ◌>>=◌, arith, >>=-eq-some,
}
use game_project_demo.Log.{FileLibrary, HtmlFormatSink, new_sink, formatted, html_header}
use game_project_demo.Log.Failure.{FileLaws}
use game_project_demo.Log.Size.{Logged, sink_each, log_stays_within}

-- A level is an `int`, as the number of its 32 bits.
pub record MultiLogger (F : Type 0) : Type 0 where
  pub file_sink : HtmlFormatSink F
  pub file_level : ℕ
  pub console_level : ℕ
  pub logger_level : ℕ
  pub pattern : Bytes

-- `maxFileSize * 1024 * 1024`, a `size_t`.
unfoldable pub size_limit : ℕ → ℕ
size_limit max_file_size = max_file_size * 1024 % 2 ^ 64 * 1024 % 2 ^ 64

unfoldable pub level_enum : ℕ → ℕ
level_enum level = level % 2 ^ 32

unfoldable pub with_sink : {F : Type 0} → ℕ → Bytes → HtmlFormatSink F → MultiLogger F
with_sink level pattern sink = record {
  file_sink = sink;
  file_level = level_enum level;
  console_level = level_enum level;
  logger_level = level_enum level;
  pattern = pattern;
}

module _ {F : Type 0} (lib : FileLibrary F) where
  -- `InitLogger`: `none` where the constructor of the sink throws. The constructor rotates only when it is asked to.
  unfoldable pub init_logger :
      Bytes → (ℕ → Bytes) → (ℕ → Bytes) → Bytes → ℕ → ℕ → ℕ → Bytes → F → Option (MultiLogger F)
  init_logger time src_time target_time file_name level max_file_size max_files pattern files = do
    sink ←
        new_sink lib time src_time target_time file_name (size_limit max_file_size) max_files false
          files
    some (with_sink level pattern sink)

-- A limit of fewer than 2 ^ 44 megabytes is kept as it is.
size_limit_exact : (n : ℕ) → n < 2 ^ 44 → size_limit n ≡ n * 1048576
unfolding size_limit
size_limit_exact n small = omega arith

module _ {F : Type 0} (lib : FileLibrary F) (laws : FileLaws lib) where
  -- For a logger that `InitLogger` sets up with a limit of fewer than 2 ^ 44 megabytes, and messages whose formatted
  -- texts are no longer than the limit: after one or more of them the open file has at most that many megabytes and
  -- the bytes of one header, whichever rotations were made, succeeded or failed, and whatever the file had before.
  pub configured_log_stays_within :
      (time : Bytes) (src_time target_time : ℕ → Bytes) (file_name : Bytes)
      (level max_file_size max_files : ℕ) (pattern : Bytes) (files : F) (logger : MultiLogger F)
      (m : Logged) (messages : List Logged)
      → max_file_size < 2 ^ 44
      → init_logger lib time src_time target_time file_name level max_file_size max_files pattern
          files
        ≡ some logger
      → All (λ m. length (formatted m.level m.message) ≤ max_file_size * 1048576) (m ∷ messages)
      → length (laws.content (sink_each lib (m ∷ messages) logger.file_sink).files)
        ≤ max_file_size * 1048576 + length html_header
  unfolding init_logger with_sink
  configured_log_stays_within time src_time target_time file_name level max_file_size max_files
        pattern files logger m messages small set_up fit =
      let (sink, is_new, kept) =
        >>=-eq-some
          (new_sink lib time src_time target_time file_name (size_limit max_file_size) max_files
            false files)
          _ set_up in
      let same : sink ≡ logger.file_sink =
        ap (λ (o : Option (MultiLogger F)). elim o [ none ↦ sink | some l ↦ l.file_sink ]) kept in
      let limit = size_limit_exact max_file_size small in
      log_stays_within lib laws time src_time target_time file_name (max_file_size * 1048576)
        max_files false files logger.file_sink m messages (rw (sym limit, sym same) is_new) fit
