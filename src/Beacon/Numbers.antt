-- ===== src/Beacon/Numbers.antt =====
-- types.go: Uint64Str and Int64Str, numbers that a node sends as JSON strings.
pub mod Printed
use pauli.Common.{Bool, ◌&&◌, Option, [], ◌∷◌, ℕ, ◌==◌, if◌then◌else◌}
use pauli.Common.Int.{ℤ}
use pauli.Text.{Text, parse_uint}
use pauli.Text.Ints.{atoi}
use pauli.Text.Cut.{has_suffix, trim_suffix}

abbrev pub quote : Text
quote = b'"' ∷ []

-- The text between two quotes, if it stands between them.
unfoldable pub unquoted : Text → Text
unquoted [] = []
unquoted (c ∷ s) = if c == b'"' && has_suffix s quote then trim_suffix s quote else c ∷ s

-- UnmarshalJSON; `none` stands for the error of strconv.
unfoldable pub unmarshal_uint64 : Text → Option ℕ
unmarshal_uint64 s = parse_uint (unquoted s)

unfoldable pub unmarshal_int64 : Text → Option ℤ
unmarshal_int64 s = atoi (unquoted s)
