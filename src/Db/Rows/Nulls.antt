-- ===== src/Db/Rows/Nulls.antt =====
-- internal/store/sqlite.go: columns that may be NULL, as an Option.
use ping_mesh.Prelude.{
  String, ℤ, pos, ◌≡◌, refl, Bool, true, false, Option, none, some, arith, ◌==◌, eq_iff, eq_ℤ,
  eq_ℤ-sound, if◌then◌else◌,
}

-- nullInt, and nullInt64, which is the same function on int64
unfoldable pub null_int : ℤ → Option ℤ
null_int v = if eq_ℤ v (pos 0) then none else some v

unfoldable pub null_string : String → Option String
null_string v = if v == "" then none else some v

unfoldable pub bool_to_int : Bool → ℤ
bool_to_int true = pos 1
bool_to_int false = pos 0

-- `if c.Valid { x = c.Value }` on a field that starts at its zero value
unfoldable pub int_or_zero : Option ℤ → ℤ
int_or_zero none = pos 0
int_or_zero (some v) = v

unfoldable pub string_or_empty : Option String → String
string_or_empty none = ""
string_or_empty (some v) = v

pub int_or_zero-null_int : (v : ℤ) → int_or_zero (null_int v) ≡ v
unfolding int_or_zero null_int
int_or_zero-null_int v = ground (arith, eq_ℤ-sound v (pos 0))

pub string_or_empty-null_string : (v : String) → string_or_empty (null_string v) ≡ v
unfolding string_or_empty null_string
string_or_empty-null_string v = ground (arith, eq_iff v "")

pub eq_one-bool_to_int : (b : Bool) → eq_ℤ (bool_to_int b) (pos 1) ≡ b
unfolding bool_to_int
eq_one-bool_to_int true = refl
eq_one-bool_to_int false = refl
