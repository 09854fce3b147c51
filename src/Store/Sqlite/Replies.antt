-- ===== src/Store/Sqlite/Replies.antt =====
-- The outcomes of a method that locks, and of a query.
use super_victor.Prelude.{List, inl, inr, Bool-cases, Option-cases}
use super_victor.Prelude.Text.{Text}
use super_victor.Exec.{Result, err, Exec}
use super_victor.Models.{StoreError, poisoned, store}
use super_victor.Store.Sql.{SqlValue, Reply, done, failed, Row, Connection}
use super_victor.Store.Sqlite.{locked, mapped, queried}

module _ {S : Type 0} (conn : Connection S) where
  -- A method that locks: its outcomes are those behind the lock and the poisoned mutex.
  pub locked_lem :
      {V A : Type 0} (P : Result V A × S → Type 0) (m : Exec S V A) (s : S)
      → P (err (store poisoned), s)
      → P (m s)
      → P (locked conn m s)
  unfolding locked
  locked_lem P m s broken rest = elim (Bool-cases (conn.poisoned s)) [
    | inl e ↦ rw e broken
    | inr e ↦ rw e rest
  ]

  -- The replies to a query: its outcomes are the failure and what is made of the rows.
  mapped_lem :
      {V A : Type 0} (P : Result V A × S → Type 0) (Q : Reply (List (Reply Row)) → Type 0)
      (query_op : Text) (f : List (Reply Row) → Result V A) (s : S)
      → ((e : StoreError) → P (err (store e), s))
      → ((rows : List (Reply Row)) → Q (done rows) → P (f rows, s))
      → (r : Reply (List (Reply Row))) → Q r
      → P (mapped conn query_op f r, s)
  unfolding mapped
  mapped_lem P Q query_op f s fails answers (failed e) q = fails _
  mapped_lem P Q query_op f s fails answers (done rows) q = answers rows q

  pub queried_lem :
      {V A : Type 0} (P : Result V A × S → Type 0) (Q : Reply (List (Reply Row)) → Type 0)
      (prepare_op query_op sql : Text) (params : List SqlValue) (f : List (Reply Row) → Result V A)
      (s : S)
      → ((e : StoreError) → P (err (store e), s))
      → Q (conn.query sql params s)
      → ((rows : List (Reply Row)) → Q (done rows) → P (f rows, s))
      → P (queried conn prepare_op query_op sql params f s)
  unfolding queried
  queried_lem P Q prepare_op query_op sql params f s fails q answers =
      elim (Option-cases (conn.prepare sql s)) [
        | inr (x, e) ↦ rw (queried, e) (fails _)
        | inl e ↦
            rw (queried, e) (mapped_lem P Q query_op f s fails answers (conn.query sql params s) q)
      ]
