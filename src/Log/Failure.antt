-- ===== src/Log/Failure.antt =====
-- The failure of a rotation of the log file, Src/Common/Util/Log.hpp.
use game_project_demo.Common.{
  ℕ, zero, suc, ◌≤◌, ◌≡◌, Bool, true, false, Bytes, length, [], ◌++◌, if◌then◌else◌,
}
use game_project_demo.Log.{
  FileLibrary, HtmlFormatSink, calc_filename, rename_file, renamed_again, renamed, move_file,
  move_files, and_then,
}

-- What the file library says of the bytes of the open file, those included that wait in its buffer. The size
-- is that on the disk: after a flush all bytes, and before it at least those that the file had when it was opened.
pub record FileLaws {F : Type 0} (lib : FileLibrary F) : Type 0 where
  pub content : F → Bytes
  pub content_write : (text : Bytes) (f : F) → content (lib.write text f) ≡ content f ++ text
  pub content_flush : (f : F) → content (lib.flush f) ≡ content f
  pub content_reopen : (f : F) → content (lib.reopen true f) ≡ []
  pub size_flush : (f : F) → lib.size (lib.flush f) ≡ length (content f)
  pub size_open :
      (name text : Bytes) (f : F)
      → length (content (lib.open_file name f)) ≤ lib.size (lib.write text (lib.open_file name f))

module _ {F : Type 0} where
  -- What is left of a result of the sink: an exception is caught by the logger, which goes on with the sink.
  abbrev pub kept : Bool × HtmlFormatSink F → HtmlFormatSink F
  kept (ok, s) = s

module _ {F : Type 0} (lib : FileLibrary F) (laws : FileLaws lib) where
  -- A failure leaves an empty file.
  abbrev pub Emptied : Bool × F → Type 0
  Emptied (true, files) = Unit
  Emptied (false, files) = laws.content files ≡ []

  renamed_again-Emptied : (r : Bool × F) → Emptied (renamed_again lib r)
  unfolding renamed_again
  renamed_again-Emptied (true, files) = tt
  renamed_again-Emptied (false, files) = laws.content_reopen files

  renamed-Emptied : (src target : Bytes) (r : Bool × F) → Emptied (renamed lib src target r)
  unfolding renamed
  renamed-Emptied src target (true, files) = tt
  renamed-Emptied src target (false, files) =
      renamed_again-Emptied (rename_file lib src target files)

  move_file-Emptied : (src target : Bytes) (files : F) → Emptied (move_file lib src target files)
  unfolding move_file
  move_file-Emptied src target files =
      elim (lib.path_exists src files)
        as (λ b. Emptied (
          if b then renamed lib src target (rename_file lib src target files) else (true, files))) [
            | true ↦ renamed-Emptied src target (rename_file lib src target files)
            | false ↦ tt
          ]

  and_then-Emptied :
      (r : Bool × F) (next : F → Bool × F)
      → Emptied r
      → ((files : F) → Emptied (next files))
      → Emptied (and_then lib r next)
  unfolding and_then
  and_then-Emptied (true, files) next empty later = later files
  and_then-Emptied (false, files) next empty later = empty

  pub move_files-Emptied :
      (src_time target_time : ℕ → Bytes) (base : Bytes) (n : ℕ) (files : F)
      → Emptied (move_files lib src_time target_time base n files)
  unfolding move_files
  move_files-Emptied src_time target_time base zero files = tt
  move_files-Emptied src_time target_time base (suc n) files =
      and_then-Emptied
        (move_file lib (calc_filename lib (src_time n) base n)
          (calc_filename lib (target_time n) base (suc n)) files)
        (move_files lib src_time target_time base n) (move_file-Emptied _ _ files)
        (move_files-Emptied src_time target_time base n)
