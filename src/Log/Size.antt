-- ===== src/Log/Size.antt =====
-- The size of the log file, Src/Common/Util/Log.hpp.
use game_project_demo.Common.{
  ℕ, ◌+◌, ◌≤◌, ◌≡◌, refl, sym, ap, ◌∙◌, subst, Bool, true, false, Bool-cases, inl, inr, ltb,
  ltb_false→le, tests, if-true, if-false, Bytes, length, length-append, [], List, ◌∷◌, All, none,
  some, ◌||◌, ◌==◌, ◌&&◌, arith,
}
use game_project_demo.Log.{
  calc_filename, FileLibrary, HtmlFormatSink, Level, formatted, html_header, and_then, fresh_file,
  rotate, written, make_room, sink_text, sink_it, on_open, opened, built, new_sink,
}
use game_project_demo.Log.Failure.{FileLaws, kept, Emptied, move_files-Emptied}

-- A message, and the clock while it is written.
pub record Logged : Type 0 where
  pub level : Level
  pub message : Bytes
  pub src_time : ℕ → Bytes
  pub target_time : ℕ → Bytes

module _ {F : Type 0} (lib : FileLibrary F) where
  unfoldable pub sink_each : List Logged → HtmlFormatSink F → HtmlFormatSink F
  sink_each [] s = s
  sink_each (m ∷ messages) s =
      sink_each messages (kept (sink_it lib m.src_time m.target_time m.level m.message s))

module _ {F : Type 0} (lib : FileLibrary F) (laws : FileLaws lib) where
  -- The bytes that are counted are all but a header.
  abbrev pub IsCounted : HtmlFormatSink F → Type 0
  IsCounted s = length (laws.content s.files) ≤ s.current_size + length html_header

  record IsBounded (limit : ℕ) (s : HtmlFormatSink F) : Type 0 where
    max_size_is : s.max_size ≡ limit
    counted : IsCounted s
    within : length (laws.content s.files) ≤ limit + length html_header

  write_length :
      (text : Bytes) (f : F)
      → length (laws.content (lib.write text f)) ≡ length (laws.content f) + length text
  write_length text f = ap length (laws.content_write text f) ∙ length-append (laws.content f) text

  header_length :
      (f : F)
      → length (laws.content (lib.write html_header (lib.reopen true f))) ≡ length html_header
  header_length f =
      write_length html_header (lib.reopen true f)
      ∙ ap (λ (t : Bytes). length t + length html_header) (laws.content_reopen f)
      ∙ omega arith

  written-IsBounded :
      (text : Bytes) (new_size : ℕ) (s : HtmlFormatSink F)
      → length (laws.content s.files) + length text ≤ s.max_size + length html_header
      → length (laws.content s.files) + length text ≤ new_size + length html_header
      → IsBounded s.max_size (kept (written lib text new_size s))
  unfolding written
  written-IsBounded text new_size s within counted = record {
    max_size_is = refl;
    counted =
        subst (λ (n : ℕ). n ≤ new_size + length html_header) (sym (write_length text s.files))
          counted;
    within =
        subst (λ (n : ℕ). n ≤ s.max_size + length html_header) (sym (write_length text s.files))
          within;
  }

  -- The rest of a rotation, whatever the loop gave.
  fresh-IsBounded :
      (text : Bytes) (s : HtmlFormatSink F) (moved : Bool × F)
      → length text ≤ s.max_size
      → Emptied lib laws moved
      → IsBounded s.max_size
          (kept (and_then lib (fresh_file lib s moved) (written lib text (length text))))
  unfolding fresh_file and_then
  fresh-IsBounded text s (true, files) fits empty =
      written-IsBounded text (length text)
        (record s { files = lib.write html_header (lib.reopen true files) })
        (omega (arith, header_length files, fits)) (omega (arith, header_length files))
  fresh-IsBounded text s (false, files) fits empty = record {
    max_size_is = refl;
    counted = rw empty (omega arith);
    within = rw empty (omega arith);
  }

  -- A message that fits into a file of its own leaves the file within the limit, but for a header.
  sink_text-IsBounded :
      (src_time target_time : ℕ → Bytes) (text : Bytes) (s : HtmlFormatSink F)
      → length text ≤ s.max_size
      → IsCounted s
      → IsBounded s.max_size (kept (sink_text lib src_time target_time text s))
  unfolding sink_text make_room rotate
  sink_text-IsBounded src_time target_time text s fits counted =
      elim (Bool-cases (ltb s.max_size (s.current_size + length text))) [
        | inl over ↦ elim (Bool-cases (ltb 0 (lib.size (lib.flush s.files)))) [
          | inl filled ↦
              subst (IsBounded s.max_size)
                (sym (ap (kept) (if-true _ _ _ over ∙ if-true _ _ _ filled)))
                (fresh-IsBounded text (record s { files = lib.flush s.files }) _ fits
                  (move_files-Emptied lib laws src_time target_time s.base_filename s.max_files
                    (lib.close_file (lib.flush s.files))))
          | inr bare ↦
              let empty : length (laws.content (lib.flush s.files)) ≡ 0 =
                omega
                  (tests, laws.size_flush s.files, ap length (laws.content_flush s.files), bare) in
              subst (IsBounded s.max_size)
                (sym (ap (kept) (if-true _ _ _ over ∙ if-false _ _ _ bare)))
                (written-IsBounded text _ (record s { files = lib.flush s.files })
                  (omega (arith, empty, fits)) (omega (arith, empty)))
        ]
        | inr under ↦ subst (IsBounded s.max_size) (sym (ap (kept) (if-false _ _ _ under))) (
            written-IsBounded text _ s (omega (arith, counted, ltb_false→le _ _ under))
              (omega (arith, counted)))
      ]

  after_message :
      (m : Logged) (limit : ℕ) (s : HtmlFormatSink F)
      → length (formatted m.level m.message) ≤ limit
      → s.max_size ≡ limit
      → IsCounted s
      → IsBounded limit (kept (sink_it lib m.src_time m.target_time m.level m.message s))
  unfolding sink_it
  after_message m limit s fits max_size_is counted =
      let text = formatted m.level m.message in
      subst (λ (n : ℕ). IsBounded n (kept (sink_text lib m.src_time m.target_time text s)))
        max_size_is
        (sink_text-IsBounded m.src_time m.target_time text s
          (subst (λ (n : ℕ). length text ≤ n) (sym max_size_is) fits) counted)

  sink_each-IsBounded :
      (messages : List Logged) (limit : ℕ) (s : HtmlFormatSink F)
      → All (λ m. length (formatted m.level m.message) ≤ limit) messages
      → IsBounded limit s
      → IsBounded limit (sink_each lib messages s)
  unfolding sink_each
  sink_each-IsBounded [] limit s fit bounded = bounded
  sink_each-IsBounded (m ∷ messages) limit s (fits, fit) bounded =
      sink_each-IsBounded messages limit _ fit
        (after_message m limit s fits bounded.max_size_is bounded.counted)

  record IsNew (limit : ℕ) (s : HtmlFormatSink F) : Type 0 where
    new_max_size : s.max_size ≡ limit
    new_counted : IsCounted s

  first-IsNew :
      (s : HtmlFormatSink F) (moved : Bool × F)
      → Emptied lib laws moved
      → IsNew s.max_size (
          kept (and_then lib (fresh_file lib s moved) (λ r. (true, record r { current_size = 0 }))))
  unfolding fresh_file and_then
  first-IsNew s (true, files) empty = record {
    new_max_size = refl;
    new_counted = omega (arith, header_length files);
  }
  first-IsNew s (false, files) empty = record {
    new_max_size = refl;
    new_counted = rw empty (omega arith);
  }

  on_open-IsNew :
      (src_time target_time : ℕ → Bytes) (rotate_on_open : Bool) (s : HtmlFormatSink F)
      → IsCounted s
      → IsNew s.max_size (kept (on_open lib src_time target_time rotate_on_open s))
  unfolding on_open rotate
  on_open-IsNew src_time target_time rotate_on_open s counted =
      elim (Bool-cases (rotate_on_open && ltb 0 s.current_size)) [
        | inl asked ↦ subst (IsNew s.max_size) (sym (ap (kept) (if-true _ _ _ asked))) (
            first-IsNew s _ (
              move_files-Emptied lib laws src_time target_time s.base_filename s.max_files
                (lib.close_file s.files)))
        | inr left ↦
            subst (IsNew s.max_size) (sym (ap (kept) (if-false _ _ _ left)))
              (record { new_max_size = refl; new_counted = counted })
      ]

  opened-IsCounted :
      (time base : Bytes) (max_size max_files : ℕ) (files : F)
      → IsCounted (opened lib time base max_size max_files files)
  unfolding opened
  opened-IsCounted time base max_size max_files files = omega (
    arith,
    write_length html_header (lib.open_file (calc_filename lib time base 0) files),
    laws.size_open (calc_filename lib time base 0) html_header files,
  )

  built-kept :
      (r : Bool × HtmlFormatSink F) (s : HtmlFormatSink F) → built lib r ≡ some s → kept r ≡ s
  unfolding built
  built-kept (true, r) s is_built = cc
  built-kept (false, r) s is_built = cc

  never_built : {A : Type 0} {s : HtmlFormatSink F} → none ≡ some s → A
  never_built none_is_some = absurd (cc)

  new_sink-IsNew :
      (time : Bytes) (src_time target_time : ℕ → Bytes) (base : Bytes) (max_size max_files : ℕ)
      (rotate_on_open : Bool) (files : F) (s : HtmlFormatSink F)
      → new_sink lib time src_time target_time base max_size max_files rotate_on_open files ≡ some s
      → IsNew max_size s
  unfolding new_sink opened
  new_sink-IsNew time src_time target_time base max_size max_files rotate_on_open files s is_new =
      elim (Bool-cases (max_size == 0 || ltb 200000 max_files)) [
        | inl bad ↦ never_built (sym (if-true _ _ _ bad) ∙ is_new)
        | inr good ↦ subst (IsNew max_size) (built-kept _ s (sym (if-false _ _ _ good) ∙ is_new)) (
            on_open-IsNew src_time target_time rotate_on_open _
              (opened-IsCounted time base max_size max_files files))
      ]

  -- For a sink that the constructor gives, and messages whose formatted texts are no longer than `max_size`: after
  -- one or more of them the open file has at most `max_size` bytes and those of one header, whichever rotations were
  -- made, succeeded or failed, and whatever the file had when it was opened.
  pub log_stays_within :
      (time : Bytes) (src_time target_time : ℕ → Bytes) (base : Bytes) (max_size max_files : ℕ)
      (rotate_on_open : Bool) (files : F) (s : HtmlFormatSink F) (m : Logged)
      (messages : List Logged)
      → new_sink lib time src_time target_time base max_size max_files rotate_on_open files ≡ some s
      → All (λ m. length (formatted m.level m.message) ≤ max_size) (m ∷ messages)
      → length (laws.content (sink_each lib (m ∷ messages) s).files) ≤ max_size + length html_header
  unfolding sink_each
  log_stays_within time src_time target_time base max_size max_files rotate_on_open files s m
        messages is_new (fits, fit) =
      let new : IsNew max_size s =
        new_sink-IsNew time src_time target_time base max_size max_files rotate_on_open files s
          is_new in
      (sink_each-IsBounded messages max_size _ fit
        (after_message m max_size s fits new.new_max_size new.new_counted)).within
