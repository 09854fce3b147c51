-- ===== src/Exec.antt =====
-- Handlers and store methods act on the state `S` of the storage backend and may fail. What was
-- written before a failure stays written, so the state comes back beside the error too.
use super_victor.Models.{AppError}

-- `Result<A, AppError>`; `V` is the type of JSON values.
pub data Result (V A : Type 0) : Type 0 where
  ok : A → Result V A
  err : AppError V → Result V A

abbrev pub Exec : Type 0 → Type 0 → Type 0 → Type 0
Exec S V A = S → Result V A × S

module _ {S V A : Type 0} where
  abbrev pub pure : A → Exec S V A
  pure a s = (ok a, s)

  abbrev pub raise : AppError V → Exec S V A
  raise e s = (err e, s)

  abbrev pub lift : Result V A → Exec S V A
  lift r s = (r, s)

module _ {S V A B : Type 0} where
  abbrev pub continue : Result V A → (A → Exec S V B) → Exec S V B
  continue (ok a) f s = f a s
  continue (err e) f s = (err e, s)

  -- `?`
  infixl 5 ◌>>=◌ ◌>>◌
  abbrev pub ◌>>=◌ : Exec S V A → (A → Exec S V B) → Exec S V B
  ◌>>=◌ m f s = let (r, s') = m s in continue r f s'

  abbrev pub ◌>>◌ : Exec S V A → Exec S V B → Exec S V B
  m >> n = m >>= λ _. n
