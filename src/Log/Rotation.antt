-- ===== src/Log/Rotation.antt =====
-- The rotation of the log file, Src/Common/Util/Log.hpp: what the file holds after it.
use game_project_demo.Common.{
  ℕ, ◌+◌, ◌<◌, ◌≡◌, refl, ap, ◌∙◌, Bool, true, false, lt→ltb, [], ◌++◌, Bytes, length,
}
use game_project_demo.Log.{
  FileLibrary, HtmlFormatSink, Level, formatted, html_header, and_then, fresh_file, rotate, written,
  make_room, sink_text, sink_it,
}
use game_project_demo.Log.Failure.{FileLaws, Emptied, move_files-Emptied}

module _ {F : Type 0} (lib : FileLibrary F) (laws : FileLaws lib) where
  -- What a rotation for a text leaves: a new file with the text, or, with an exception, an empty one.
  abbrev pub IsRotated : Bytes → Bool × HtmlFormatSink F → Type 0
  IsRotated text (true, s) =
      (laws.content s.files ≡ html_header ++ text) × (s.current_size ≡ length text)
  IsRotated text (false, s) = (laws.content s.files ≡ []) × (s.current_size ≡ 0)

  fresh-IsRotated :
      (text : Bytes) (s : HtmlFormatSink F) (moved : Bool × F)
      → Emptied lib laws moved
      → IsRotated text (and_then lib (fresh_file lib s moved) (written lib text (length text)))
  unfolding fresh_file written and_then
  fresh-IsRotated text s (true, files) empty = (
    laws.content_write text (lib.write html_header (lib.reopen true files))
        ∙ ap (λ (t : Bytes). t ++ text)
            (laws.content_write html_header (lib.reopen true files)
              ∙ ap (λ (t : Bytes). t ++ html_header) (laws.content_reopen files)),
    refl,
  )
  fresh-IsRotated text s (false, files) empty = (empty, refl)

  pub rotated_file_lem :
      (src_time target_time : ℕ → Bytes) (level : Level) (message : Bytes) (s : HtmlFormatSink F)
      → s.max_size < s.current_size + length (formatted level message)
      → 0 < lib.size (lib.flush s.files)
      → IsRotated (formatted level message) (sink_it lib src_time target_time level message s)
  unfolding sink_it sink_text make_room rotate
  rotated_file_lem src_time target_time level message s over filled =
      rw (lt→ltb _ _ over, lt→ltb _ _ filled)
        (fresh-IsRotated (formatted level message) (record s { files = lib.flush s.files }) _
          (move_files-Emptied lib laws src_time target_time s.base_filename s.max_files
            (lib.close_file (lib.flush s.files))))
