-- ===== src/Error.antt =====
-- crates/rgit-core/src/error.rs and crates/rgit-http/src/error.rs: the errors of the domain layer
-- and the HTTP response that each becomes.
pub mod Laws
use rgit.Common.{ℕ, Str, text, ◌++◌, Bool, ◌==◌, if◌then◌else◌}

-- What SQLite reports: a violated constraint, a trigger's RAISE(ABORT, …), or any other failure.
pub data DbError : Type 0 where
  unique_violation foreign_key_violation row_not_found unavailable : DbError
  aborted : Str → DbError

pub data Error : Type 0 where
  not_found unauthorized forbidden busy : Error
  conflict invalid git : Str → Error
  db : DbError → Error
  io internal : Error

pub record ErrorResponse : Type 0 where
  pub status : ℕ
  pub kind : Str
  pub message : Str

abbrev status_of : Error → ℕ
status_of not_found = 404
status_of unauthorized = 401
status_of forbidden = 403
status_of (conflict m) = 409
status_of (invalid m) = 400
status_of busy = 503
status_of _ = 500

abbrev kind_of : Error → Str
kind_of not_found = text "not_found"
kind_of unauthorized = text "unauthorized"
kind_of forbidden = text "forbidden"
kind_of (conflict m) = text "conflict"
kind_of (invalid m) = text "invalid"
kind_of busy = text "busy"
kind_of _ = text "internal"

-- The `#[error(…)]` texts. What the underlying libraries would print of a `db`, `io` or
-- `internal` error is the argument.
unfoldable pub display : (DbError → Str) → Str → Error → Str
display show_db detail not_found = text "not found"
display show_db detail unauthorized = text "unauthorized"
display show_db detail forbidden = text "forbidden"
display show_db detail (conflict m) = text "conflict: " ++ m
display show_db detail (invalid m) = text "invalid input: " ++ m
display show_db detail busy = text "service busy"
display show_db detail (db e) = text "database error: " ++ show_db e
display show_db detail io = text "io error: " ++ detail
display show_db detail (git m) = text "git command failed: " ++ m
display show_db detail internal = detail

unfoldable pub into_response : (DbError → Str) → Str → Error → ErrorResponse
into_response show_db detail e = record {
  status = status_of e;
  kind = kind_of e;
  message = if status_of e == 500 then text "internal server error" else display show_db detail e;
}
