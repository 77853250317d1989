-- ===== src/Api/Url.antt =====
-- internal/api/cli_handlers.go: how the handlers read the query of a URL.
use ping_mesh.Prelude.{String, ℤ, pos, ltb_ℤ, Option, none, some, ◌==◌, if◌then◌else◌}

-- r.URL.Query().Get: a parameter that is missing is the empty text.
abbrev pub Query : Type 0
Query = String → String

-- `atoi` has the value of strconv.Atoi where that has no error; `parse_int` the value of
-- strconv.ParseInt in base 10 with 64 bits, whose error is not looked at.
pub record Numbers : Type 0 where
  pub atoi : String → Option ℤ
  pub parse_int : String → ℤ

-- `if v, err := strconv.Atoi(l); err == nil && v > 0 { limit = v }`
abbrev pub positive_or : ℤ → Option ℤ → ℤ
positive_or default none = default
positive_or default (some v) = if ltb_ℤ (pos 0) v then v else default

module _ (numbers : Numbers) where
  unfoldable pub limit_of : ℤ → String → ℤ
  limit_of default l = if l == "" then default else positive_or default (numbers.atoi l)

  unfoldable pub since_of : String → ℤ
  since_of s = if s == "" then pos 0 else numbers.parse_int s
