-- ===== src/Checker/Target.antt =====
-- The target without a scheme and without slashes at its end, as http.go and keyword.go strip it.
use Prim.Native.Char.{Char, code}
use Prim.Native.String.{String}
use ping_mesh.Prelude.{ℕ, Option, none, some, nat_eq, if◌then◌else◌}

-- What follows a prefix.
abbrev pub after_prefix : String → String → Option String
after_prefix String.[] s = some s
after_prefix (String.◌∷◌ c p) String.[] = none
after_prefix (String.◌∷◌ c p) (String.◌∷◌ d s) =
    let rest = after_prefix p s in if nat_eq (code c) (code d) then rest else none

-- strings.TrimPrefix
abbrev pub or_whole : String → Option String → String
or_whole s none = s
or_whole s (some rest) = rest

unfoldable pub trim_prefix : String → String → String
trim_prefix s p = or_whole s (after_prefix p s)

abbrev pub slash : ℕ
slash = 47

-- strings.TrimRight(s, "/")
abbrev pub unless_slash : Char → String → String
unless_slash c String.[] = if nat_eq (code c) slash then String.[] else String.◌∷◌ c String.[]
unless_slash c (String.◌∷◌ d s) = String.◌∷◌ c (String.◌∷◌ d s)

unfoldable pub trim_slashes : String → String
trim_slashes String.[] = String.[]
trim_slashes (String.◌∷◌ c s) = unless_slash c (trim_slashes s)

unfoldable pub clean_target : String → String
clean_target target = trim_slashes (trim_prefix (trim_prefix target "https://") "http://")
