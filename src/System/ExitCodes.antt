-- ===== src/System/ExitCodes.antt =====
-- utils/custom_error.go and database_connection_error.go.
use gpupgrade.Base.{ℕ, String, Option, none, some}
use gpupgrade.System.Files.{Error, plain, not_exist, exist, database_connection}

-- The errors that are a `CustomError` have a `ReturnCode` and a `Prefix`.
unfoldable pub return_code : Error → Option ℕ
return_code (database_connection parent) = some 65
return_code (plain text) = none
return_code not_exist = none
return_code exist = none

unfoldable pub prefix : Error → Option String
prefix (database_connection parent) = some "Database Connection Error"
prefix (plain text) = none
prefix not_exist = none
prefix exist = none

abbrev code_or_one : Option ℕ → ℕ
code_or_one (some n) = n
code_or_one none = 1

-- `GetExitCodeForError`
unfoldable pub get_exit_code_for_error : Error → ℕ
unfolding return_code
get_exit_code_for_error e = code_or_one (return_code e)
