-- ===== src/Database/Statement/Tests.antt =====
-- Runs of prepared statements, Src/Common/Database/PreparedStatement.h and MySqlPreparedStatement.cpp.
use game_project_demo.Common.{
  ◌≡◌, ◌↔◌, refl, true, some, [], ◌∷◌, codes, c_text, map, pos, negsuc, arith,
}
use game_project_demo.Util.{signed_of}
use game_project_demo.Util.Convert.{InRange}
use game_project_demo.Database.{stopped, finished, ◌>>=◌}
use game_project_demo.Database.Statement.{
  integral, i16, u8, int_type, text, nullptr, PreparedStatement,
}
use game_project_demo.Database.Statement.Bind.{
  zeroed, MySqlPreparedStatement, new_statement, bind_parameters, bind_from, set_parameter,
  write_bind, bind_value, bind_bytes, bytes_of, mysql_type, bound_data,
}
use game_project_demo.Database.Statement.Bound.{IsSized, bound, bind_parameters_lem}
use game_project_demo.Database.Statement.Integers.{server_value, integer_arrives_iff}
use game_project_demo.Database.Statement.Reuse.{
  IsFresh, clear_defined, use_each, bound_statement, reuse_lem,
}
use game_project_demo.Database.Statement.SqlText.{to_string, flag_text, is_zero, get_sql_string}
use game_project_demo.Database.Statement.Substitution.{substitute, get_sql_string-substitute}

abbrev two : PreparedStatement
two = record { index = 3; statement_data = integral i16 (negsuc 6) ∷ text (codes "a?") ∷ [] }

abbrev other : PreparedStatement
other = record { index = 3; statement_data = nullptr ∷ integral u8 (pos 200) ∷ [] }

abbrev bound_two : MySqlPreparedStatement
bound_two = record (new_statement 2 (codes "x = ? AND y = ?;")) { stmt = some two }

-- The number is printed as a 1, and the mark in the text is not replaced again.
two_printed : get_sql_string bound_two ≡ some (some (codes "x = 1 AND y = a?;"))
unfolding to_string flag_text is_zero c_text new_statement
two_printed = get_sql_string-substitute bound_two

get_sql_string-substitute_example :
    get_sql_string bound_two
    ≡ some (substitute (codes "x = ? AND y = ?;") (map to_string two.statement_data))
unfolding new_statement
get_sql_string-substitute_example = get_sql_string-substitute bound_two

new_two-IsSized : IsSized (new_statement 2 (codes "? ?"))
unfolding new_statement
new_two-IsSized = record { flags = refl; binds = refl }

bind_parameters_lem_example :
    bind_parameters two (new_statement 2 (codes "? ?"))
    ≡ finished (record (new_statement 2 (codes "? ?")) {
      param_assign_flag = true ∷ true ∷ [];
      bind = bound two.statement_data (zeroed ∷ zeroed ∷ []);
      stmt = some two;
    })
unfolding new_statement
bind_parameters_lem_example =
    bind_parameters_lem two (new_statement 2 (codes "? ?")) new_two-IsSized (omega arith)

abbrev plain_two : PreparedStatement
plain_two = record { index = 3; statement_data = integral i16 (negsuc 6) ∷ nullptr ∷ [] }

reuse_lem_example :
    (t : MySqlPreparedStatement) × (use_each
        (plain_two ∷ other ∷ [])
        (new_statement 2 (codes "? ?"))
      ≡ finished t)
    × IsFresh 2 (codes "? ?") t
    × (bind_parameters two t ≡ finished (bound_statement 2 (codes "? ?") two))
    × (bind_parameters two (new_statement 2 (codes "? ?"))
        ≡ finished (bound_statement 2 (codes "? ?") two))
reuse_lem_example =
    reuse_lem 2 (codes "? ?") (plain_two ∷ other ∷ []) two (omega arith)
      ((refl, (tt, (tt, tt))), ((refl, (tt, (tt, tt))), tt)) refl

-- With a text, the clearing is undefined.
cleared_text : use_each (two ∷ []) (new_statement 2 (codes "? ?")) ≡ stopped
unfolding use_each clear_defined bind_parameters bind_from set_parameter write_bind bound_data
    bind_value bind_bytes bytes_of mysql_type new_statement ◌>>=◌
cleared_text = refl

-- The unsigned 200 arrives as -56.
integer_arrives_iff_example :
    (server_value (bound_data (integral u8 (pos 200)) zeroed) ≡ some (pos 200))
    ↔ InRange (signed_of ((int_type u8).bytes)) (pos 200)
integer_arrives_iff_example = integer_arrives_iff zeroed u8 (pos 200)
