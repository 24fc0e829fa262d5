-- ===== src/Util/Tests.antt =====
-- Runs of Src/Common/Util/Util.hpp on small inputs.
use game_project_demo.Common.{
  ◌≡◌, refl, some, none, [], ◌∷◌, ◌++◌, replicate, Bytes, codes, Bool, false, not, true, arith, pos,
  negsuc,
}
use game_project_demo.Util.Progress.{Posix, lock_tried, file_opened, progress_can_run}
use game_project_demo.Util.{
  signed_of, unsigned_of, from_string, from_prefixed, from_chars, scan_value, limited, signed_value,
  scan, digit_in, whole_value, base_prefix, to_string, string_equal,
}
use game_project_demo.Util.Cleanup.{
  cleanup_output_string, cleanup_from, copy_next, after_match, match_index, plain_quote,
}
use game_project_demo.Util.Convert.{signed32, to_string-from_string}

read_numbers :
    (from_string (signed_of 4) 10 (codes "-2147483648") ≡ some (negsuc 2147483647))
    × (from_string (signed_of 4) 10 (codes "2147483648") ≡ none)
    × (from_string (unsigned_of 1) 10 (codes "-1") ≡ none)
    × (from_string (unsigned_of 1) 0 (codes "0xfF") ≡ some (pos 255))
    × (from_string (unsigned_of 1) 0 (codes "0x") ≡ none)
    × (from_string (signed_of 4) 10 (codes "12 ") ≡ none)
    × (from_string (signed_of 4) 10 [] ≡ none)
unfolding from_string from_prefixed from_chars scan_value limited signed_value scan digit_in
    whole_value base_prefix
read_numbers = (refl, refl, refl, refl, refl, refl, refl)

hex : from_string (unsigned_of 1) 0 (codes "0x1f") ≡ some (pos 31)
unfolding from_string from_prefixed from_chars scan_value limited signed_value scan digit_in
    whole_value base_prefix
hex = refl

to_string-from_string_example :
    (s : Bytes) × (to_string (signed_of 4) (negsuc 41) ≡ some s)
    × (from_string (signed_of 4) 10 s ≡ some (negsuc 41))
to_string-from_string_example =
    to_string-from_string (signed_of 4) (negsuc 41) signed32 (refl, omega arith)

on_off : string_equal (codes "ON") (codes "oN") ≡ true
unfolding string_equal
on_off = refl

-- The second of two texts in a row stays.
removed_once :
    cleanup_output_string (codes "f(__cdecl __cdecl \"x\")" ++ 0 ∷ []) (codes "__cdecl ")
    ≡ codes "f(__cdecl 'x')" ++ (0 ∷ replicate 8 0)
unfolding cleanup_output_string cleanup_from copy_next after_match match_index plain_quote
removed_once = refl

-- Files that can be opened, and locked unless another program has the lock.
abbrev posix : Posix Bool
posix = record {
  open_file = λ name taken. (some 3, taken);
  lock_whole = λ fd taken. (not taken, true);
  close_file = λ fd taken. taken;
  truncate = λ fd taken. taken;
  write_pid = λ fd taken. taken;
}

first_program : progress_can_run posix (codes "server") false ≡ (false, true)
unfolding progress_can_run file_opened lock_tried
first_program = refl

second_program : progress_can_run posix (codes "server") true ≡ (true, true)
unfolding progress_can_run file_opened lock_tried
second_program = refl
