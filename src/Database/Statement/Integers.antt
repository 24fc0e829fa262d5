-- ===== src/Database/Statement/Integers.antt =====
-- Which integers reach the server: the buffers of Src/Common/Database/MySqlPreparedStatement.cpp, read
-- as the MySQL manual says that a server reads them.
use game_project_demo.Common.{
  ℕ, zero, suc, ◌/◌, ◌^◌, ◌<◌, ◌≡◌, ◌↔◌, refl, sym, ap, ◌∙◌, subst, Bool, true, false, Option, none,
  some, ℤ, arith, inl, ◌>>=◌,
}
use native.Mathlib.Nat.{pow-succ'}
use game_project_demo.Util.{IntType, unsigned_of, signed_of}
use game_project_demo.Util.Convert.{InRange}
use game_project_demo.Database.Columns.{MysqlType, tiny, short, long, longlong}
use game_project_demo.Database.Field.{little_endian, of_residue, residue, modulus, static_cast}
use game_project_demo.Database.Field.Checked.{residue-lt, static_cast-in, static_cast-InRange}
use game_project_demo.Database.Statement.{
  Integral, u8, u16, u32, u64, i8, i16, i32, i64, int_type, integral,
}
use game_project_demo.Database.Statement.Bind.{
  MySqlBind, mysql_type, bytes_of, bind_value, bound_data,
}

-- What a server takes a buffer for: the type of the buffer and `is_unsigned` decide.
abbrev signed_if_not : Bool → ℕ → IntType
signed_if_not true w = unsigned_of w
signed_if_not false w = signed_of w

abbrev sent_type : MysqlType → Bool → Option IntType
sent_type tiny u = some (signed_if_not u 1)
sent_type short u = some (signed_if_not u 2)
sent_type long u = some (signed_if_not u 4)
sent_type longlong u = some (signed_if_not u 8)
sent_type _ u = none

abbrev pub server_value : MySqlBind → Option ℤ
server_value b = do
  t ← sent_type b.buffer_type b.is_unsigned
  sent ← b.buffer
  some (of_residue t (little_endian sent))

little_endian-bytes_of : (w n : ℕ) → n < 256 ^ w → little_endian (bytes_of w n) ≡ n
unfolding little_endian bytes_of
little_endian-bytes_of zero n h = omega arith
little_endian-bytes_of (suc w) n h =
    let below : n / 256 < 256 ^ w = omega (arith, pow-succ' 256 w) in
    rw (little_endian-bytes_of w (n / 256) below) (omega arith)

kept_bytes :
    (s t : IntType) (w : ℕ) (z : ℤ)
    → residue (modulus t) z < 256 ^ w
    → some (of_residue s (little_endian (bytes_of w (residue (modulus t) z))))
      ≡ some (of_residue s (residue (modulus t) z))
kept_bytes s t w z h =
    ap (λ n. some (of_residue s n)) (little_endian-bytes_of w (residue (modulus t) z) h)

-- Every integer is taken for a signed one of its size.
sent_as_signed :
    (b : MySqlBind) (k : Integral) (z : ℤ)
    → server_value (bound_data (integral k z) b)
      ≡ some (static_cast (signed_of ((int_type k).bytes)) z)
unfolding bound_data bind_value mysql_type int_type static_cast
sent_as_signed b u8 z = kept_bytes (signed_of 1) (unsigned_of 1) 1 z (residue-lt (unsigned_of 1) z)
sent_as_signed b u16 z = kept_bytes (signed_of 2) (unsigned_of 2) 2 z (residue-lt (unsigned_of 2) z)
sent_as_signed b u32 z = kept_bytes (signed_of 4) (unsigned_of 4) 4 z (residue-lt (unsigned_of 4) z)
sent_as_signed b u64 z = kept_bytes (signed_of 8) (unsigned_of 8) 8 z (residue-lt (unsigned_of 8) z)
sent_as_signed b i8 z = kept_bytes (signed_of 1) (signed_of 1) 1 z (residue-lt (signed_of 1) z)
sent_as_signed b i16 z = kept_bytes (signed_of 2) (signed_of 2) 2 z (residue-lt (signed_of 2) z)
sent_as_signed b i32 z = kept_bytes (signed_of 4) (signed_of 4) 4 z (residue-lt (signed_of 4) z)
sent_as_signed b i64 z = kept_bytes (signed_of 8) (signed_of 8) 8 z (residue-lt (signed_of 8) z)

-- An integer that is bound reaches the server as the value that it is exactly when a signed integer of
-- its size has that value: the unsigned integers from half of their range on do not, since no buffer
-- is marked as unsigned.
pub integer_arrives_iff :
    (b : MySqlBind) (k : Integral) (z : ℤ)
    → (server_value (bound_data (integral k z) b) ≡ some z)
      ↔ InRange (signed_of ((int_type k).bytes)) z
integer_arrives_iff b k z =
    let s = signed_of ((int_type k).bytes) in
    (
      λ e.
          subst (InRange s) (some-injective (sym (sent_as_signed b k z) ∙ e))
            (static_cast-in s z (inl refl)),
      λ h. sent_as_signed b k z ∙ ap some (static_cast-InRange s z h),
    )
  where
    some-injective : {x y : ℤ} → some x ≡ some y → x ≡ y
    some-injective e = cc
