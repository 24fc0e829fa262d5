-- ===== src/Database/Columns.antt =====
-- Src/Common/Database/QueryResult.cpp: the types of the columns of a result.
use game_project_demo.Common.{
  refl, some, length, arith, le→leb, take_all, ℕ, suc, ◌%◌, ◌^◌, ◌≡◌, ap, Bool, true, false, Bytes,
  codes,
}
use game_project_demo.Util.{IntType}
use game_project_demo.Database.Field.{
  DatabaseFieldType, uint8, int8, uint16, int16, uint32, int32, uint64, int64, decimal_type, binary,
  Source, integral, floating, as_made, source_type, source_value, reinterpret, of_residue,
  little_endian,
}

-- `enum_field_types`; `other` is any value that the source does not name.
pub data MysqlType : Type 0 where
  null tiny year short int24 long float double longlong bit timestamp date time datetime tiny_blob
        medium_blob long_blob blob string var_string decimal_column newdecimal geometry enum_column
        set_column newdate other :
      MysqlType

-- `SizeForType`, for the size of a `MYSQL_TIME` and the length of the longest value of the column; its
-- result has 32 bits.
unfoldable pub size_for_type : ℕ → ℕ → MysqlType → ℕ
size_for_type mysql_time max_length MysqlType.null = 0
size_for_type mysql_time max_length tiny = 1
size_for_type mysql_time max_length year = 2
size_for_type mysql_time max_length short = 2
size_for_type mysql_time max_length int24 = 4
size_for_type mysql_time max_length long = 4
size_for_type mysql_time max_length MysqlType.float = 4
size_for_type mysql_time max_length MysqlType.double = 8
size_for_type mysql_time max_length longlong = 8
size_for_type mysql_time max_length bit = 8
size_for_type mysql_time max_length timestamp = mysql_time
size_for_type mysql_time max_length MysqlType.date = mysql_time
size_for_type mysql_time max_length time = mysql_time
size_for_type mysql_time max_length datetime = mysql_time
size_for_type mysql_time max_length tiny_blob = suc max_length % 2 ^ 32
size_for_type mysql_time max_length medium_blob = suc max_length % 2 ^ 32
size_for_type mysql_time max_length long_blob = suc max_length % 2 ^ 32
size_for_type mysql_time max_length blob = suc max_length % 2 ^ 32
size_for_type mysql_time max_length MysqlType.string = suc max_length % 2 ^ 32
size_for_type mysql_time max_length var_string = suc max_length % 2 ^ 32
size_for_type mysql_time max_length decimal_column = 64
size_for_type mysql_time max_length newdecimal = 64
size_for_type mysql_time max_length geometry = 0
size_for_type mysql_time max_length enum_column = 0
size_for_type mysql_time max_length set_column = 0
size_for_type mysql_time max_length newdate = 0
size_for_type mysql_time max_length other = 0

-- `MysqlTypeToFieldType`, by the type and whether `UNSIGNED_FLAG` is set.
unfoldable pub mysql_type_to_field_type : MysqlType → Bool → DatabaseFieldType
mysql_type_to_field_type MysqlType.null unsigned = DatabaseFieldType.null
mysql_type_to_field_type tiny true = uint8
mysql_type_to_field_type tiny false = int8
mysql_type_to_field_type year true = uint16
mysql_type_to_field_type year false = int16
mysql_type_to_field_type short true = uint16
mysql_type_to_field_type short false = int16
mysql_type_to_field_type int24 true = uint32
mysql_type_to_field_type int24 false = int32
mysql_type_to_field_type long true = uint32
mysql_type_to_field_type long false = int32
mysql_type_to_field_type MysqlType.float unsigned = DatabaseFieldType.float
mysql_type_to_field_type MysqlType.double unsigned = DatabaseFieldType.double
mysql_type_to_field_type longlong true = uint64
mysql_type_to_field_type longlong false = int64
mysql_type_to_field_type bit true = uint64
mysql_type_to_field_type bit false = int64
mysql_type_to_field_type timestamp unsigned = DatabaseFieldType.date
mysql_type_to_field_type MysqlType.date unsigned = DatabaseFieldType.date
mysql_type_to_field_type time unsigned = DatabaseFieldType.date
mysql_type_to_field_type datetime unsigned = DatabaseFieldType.date
mysql_type_to_field_type tiny_blob unsigned = binary
mysql_type_to_field_type medium_blob unsigned = binary
mysql_type_to_field_type long_blob unsigned = binary
mysql_type_to_field_type blob unsigned = binary
mysql_type_to_field_type MysqlType.string unsigned = binary
mysql_type_to_field_type var_string unsigned = binary
mysql_type_to_field_type decimal_column unsigned = decimal_type
mysql_type_to_field_type newdecimal unsigned = decimal_type
mysql_type_to_field_type geometry unsigned = DatabaseFieldType.null
mysql_type_to_field_type enum_column unsigned = DatabaseFieldType.null
mysql_type_to_field_type set_column unsigned = DatabaseFieldType.null
mysql_type_to_field_type newdate unsigned = DatabaseFieldType.null
mysql_type_to_field_type other unsigned = DatabaseFieldType.null

unfoldable pub field_type_to_string : MysqlType → Bool → Bytes
field_type_to_string MysqlType.null unsigned = codes "NULL"
field_type_to_string tiny true = codes "UNSIGNED TINY"
field_type_to_string tiny false = codes "TINY"
field_type_to_string year unsigned = codes "YEAR"
field_type_to_string short true = codes "UNSIGNED SHORT"
field_type_to_string short false = codes "SHORT"
field_type_to_string int24 true = codes "UNSIGNED INT24"
field_type_to_string int24 false = codes "INT24"
field_type_to_string long true = codes "UNSIGNED LONG"
field_type_to_string long false = codes "LONG"
field_type_to_string MysqlType.float unsigned = codes "FLOAT"
field_type_to_string MysqlType.double unsigned = codes "DOUBLE"
field_type_to_string longlong true = codes "UNSIGNED LONGLONG"
field_type_to_string longlong false = codes "LONGLONG"
field_type_to_string bit unsigned = codes "BIT"
field_type_to_string timestamp unsigned = codes "TIMESTAMP"
field_type_to_string MysqlType.date unsigned = codes "DATE"
field_type_to_string time unsigned = codes "TIME"
field_type_to_string datetime unsigned = codes "DATETIME"
field_type_to_string tiny_blob unsigned = codes "TINY_BLOB"
field_type_to_string medium_blob unsigned = codes "MEDIUM_BLOB"
field_type_to_string long_blob unsigned = codes "LONG_BLOB"
field_type_to_string blob unsigned = codes "BLOB"
field_type_to_string MysqlType.string unsigned = codes "STRING"
field_type_to_string var_string unsigned = codes "VAR_STRING"
field_type_to_string decimal_column unsigned = codes "DECIMAL"
field_type_to_string newdecimal unsigned = codes "NEWDECIMAL"
field_type_to_string geometry unsigned = codes "GEOMETRY"
field_type_to_string enum_column unsigned = codes "ENUM"
field_type_to_string set_column unsigned = codes "SET"
field_type_to_string newdate unsigned = codes "NEWDATE"
field_type_to_string other unsigned = codes "-Unknown-"

bytes_of : Source → ℕ
bytes_of (integral t) = t.bytes
bytes_of floating = 0
bytes_of as_made = 0

-- A column whose fields are read as an integral type has a buffer of exactly the size of that type, so
-- reading the value from the buffer stays inside it.
size_for_type-source_type :
    (mysql_time max_length : ℕ) (type : MysqlType) (unsigned : Bool) (t : IntType)
    → source_type (mysql_type_to_field_type type unsigned) ≡ integral t
    → size_for_type mysql_time max_length type ≡ t.bytes
unfolding size_for_type mysql_type_to_field_type source_type bytes_of
size_for_type-source_type mysql_time max_length MysqlType.null unsigned t e = cc
size_for_type-source_type mysql_time max_length tiny true t e = ap bytes_of e
size_for_type-source_type mysql_time max_length tiny false t e = ap bytes_of e
size_for_type-source_type mysql_time max_length year true t e = ap bytes_of e
size_for_type-source_type mysql_time max_length year false t e = ap bytes_of e
size_for_type-source_type mysql_time max_length short true t e = ap bytes_of e
size_for_type-source_type mysql_time max_length short false t e = ap bytes_of e
size_for_type-source_type mysql_time max_length int24 true t e = ap bytes_of e
size_for_type-source_type mysql_time max_length int24 false t e = ap bytes_of e
size_for_type-source_type mysql_time max_length long true t e = ap bytes_of e
size_for_type-source_type mysql_time max_length long false t e = ap bytes_of e
size_for_type-source_type mysql_time max_length MysqlType.float unsigned t e = cc
size_for_type-source_type mysql_time max_length MysqlType.double unsigned t e = cc
size_for_type-source_type mysql_time max_length longlong true t e = ap bytes_of e
size_for_type-source_type mysql_time max_length longlong false t e = ap bytes_of e
size_for_type-source_type mysql_time max_length bit true t e = ap bytes_of e
size_for_type-source_type mysql_time max_length bit false t e = ap bytes_of e
size_for_type-source_type mysql_time max_length timestamp unsigned t e = cc
size_for_type-source_type mysql_time max_length MysqlType.date unsigned t e = cc
size_for_type-source_type mysql_time max_length time unsigned t e = cc
size_for_type-source_type mysql_time max_length datetime unsigned t e = cc
size_for_type-source_type mysql_time max_length tiny_blob unsigned t e = cc
size_for_type-source_type mysql_time max_length medium_blob unsigned t e = cc
size_for_type-source_type mysql_time max_length long_blob unsigned t e = cc
size_for_type-source_type mysql_time max_length blob unsigned t e = cc
size_for_type-source_type mysql_time max_length MysqlType.string unsigned t e = cc
size_for_type-source_type mysql_time max_length var_string unsigned t e = cc
size_for_type-source_type mysql_time max_length decimal_column unsigned t e = cc
size_for_type-source_type mysql_time max_length newdecimal unsigned t e = cc
size_for_type-source_type mysql_time max_length geometry unsigned t e = cc
size_for_type-source_type mysql_time max_length enum_column unsigned t e = cc
size_for_type-source_type mysql_time max_length set_column unsigned t e = cc
size_for_type-source_type mysql_time max_length newdate unsigned t e = cc
size_for_type-source_type mysql_time max_length other unsigned t e = cc

-- Whatever bytes the library leaves in the buffer of such a column, which is as long as `SizeForType` says: the field
-- is read from them, from all of them and from no others.
pub column_reads_its_buffer :
    (mysql_time max_length : ℕ) (type : MysqlType) (unsigned : Bool) (t : IntType) (bytes : Bytes)
    → source_type (mysql_type_to_field_type type unsigned) ≡ integral t
    → length bytes ≡ size_for_type mysql_time max_length type
    → (size_for_type mysql_time max_length type ≡ t.bytes)
      × (source_value t true (some bytes) ≡ some (of_residue t (little_endian bytes)))
unfolding source_value reinterpret
column_reads_its_buffer mysql_time max_length type unsigned t bytes read sized =
    let size = size_for_type-source_type mysql_time max_length type unsigned t read in
    (
      size,
      rw (le→leb t.bytes (length bytes) (omega arith), take_all t.bytes bytes (omega arith)) refl,
    )
