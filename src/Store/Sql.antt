-- ===== src/Store/Sql.antt =====
-- What the SQLite backend uses of rusqlite and SQLite, which are not part of the repository: a
-- connection behind a mutex, over the state `S` of the database. A statement is its text with its
-- parameters.
pub mod Statements
use super_victor.Prelude.{ℕ, Bool, Option, List}
use super_victor.Prelude.Text.{Text}

pub data SqlValue : Type 0 where
  null : SqlValue
  text : Text → SqlValue
  integer : ℕ → SqlValue

-- `rusqlite::Error`, by whether it is a constraint violation, with its text.
pub data SqlError : Type 0 where
  constraint_violation other : Text → SqlError

pub data Reply (A : Type 0) : Type 0 where
  done : A → Reply A
  failed : SqlError → Reply A

abbrev pub Row : Type 0
Row = List SqlValue

pub record Connection (S : Type 0) : Type 0 where
  -- whether the mutex is poisoned
  pub poisoned : S → Bool
  pub execute : Text → List SqlValue → S → Reply ℕ × S
  pub execute_batch : Text → S → Reply (Unit {0}) × S
  -- the error of `prepare`, if there is one
  pub prepare : Text → S → Option SqlError
  -- the rows of a query, or its error; a step to a row can fail
  pub query : Text → List SqlValue → S → Reply (List (Reply Row))
  -- the error of reading a column of a row as a text
  pub column_error : ℕ → Row → SqlError

abbrev pub display : SqlError → Text
display (constraint_violation t) = t
display (other t) = t
