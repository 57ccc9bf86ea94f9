-- ===== src/Sql.antt =====
-- What the stores use of database/sql: the values passed for placeholders and the errors of a query. A number
-- behind a dollar sign stands for the value at that place of the arguments, counted from 1.
use compute_backend.Prelude.{ℕ, List, ◌++◌, ℤ, Time}
use compute_backend.Strings.{Text, codes}
use compute_backend.Strings.Digits.{itoa}

pub data Value : Type 0 where
  null : Value
  text bytes : Text → Value
  int : ℤ → Value
  time : Time → Value
  texts : List Text → Value

-- An error with its message. `no_rows` is one that wraps `sql.ErrNoRows`.
pub data Error : Type 0 where
  no_rows failed : Text → Error

abbrev pub message : Error → Text
message (no_rows m) = m
message (failed m) = m

-- `fmt.Errorf("...: %w", err)`
unfoldable pub wrap : Text → Error → Error
wrap context (no_rows m) = no_rows (context ++ m)
wrap context (failed m) = failed (context ++ m)

-- `fmt.Sprintf("$%d", idx)`
unfoldable pub placeholder : ℕ → Text
placeholder idx = codes "$" ++ itoa idx
