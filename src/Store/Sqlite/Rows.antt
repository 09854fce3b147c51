-- ===== src/Store/Sqlite/Rows.antt =====
-- What the backend writes to a row it reads back.
use super_victor.Prelude.{◌≡◌, refl, Option, none, some, List, [], ◌∷◌, ◌++◌, map}
use super_victor.Prelude.Text.{Text}
use super_victor.Json.{SerdeJson}
use super_victor.Store.Stored.{decode}
use super_victor.Models.{DeviceRecord, UplinkRecord}
use super_victor.Store.Sql.{SqlValue, text, SqlError, Reply, done, failed, Row, Connection}
use super_victor.Store.Sqlite.{
  nullable, text_at, nullable_at, get_text, get_nullable, device_of_row, collect, uplink_of_row,
}
use super_victor.Store.Sqlite.Laws.{device_row, uplink_row}

nullable_at-nullable :
    (e : SqlError) (o : Option Text) (vs : List SqlValue)
    → nullable_at e 0 (nullable o ∷ vs) ≡ done o
unfolding nullable_at
nullable_at-nullable e none vs = refl
nullable_at-nullable e (some t) vs = refl

module _ {S : Type 0} (conn : Connection S) where
  pub device_of_row-device_row : (d : DeviceRecord) → device_of_row conn (device_row d) ≡ done d
  unfolding device_of_row text_at nullable_at get_text get_nullable
  device_of_row-device_row d =
      rw
        (nullable_at-nullable (conn.column_error 2 (device_row d)) d.subject_dn
          (text d.status ∷ text d.created_at ∷ []))
        refl

  pub uplink_of_row-uplink_row :
      {V : Type 0} (json : SerdeJson V) (u : UplinkRecord Text)
      → uplink_of_row conn json (uplink_row u) ≡ done (decode json u)
  unfolding uplink_of_row text_at get_text decode
  uplink_of_row-uplink_row json u = refl

module _ {A B : Type 0} (f : Row → Reply B) (row : A → Row) (g : A → B)
    (reads : (a : A) → f (row a) ≡ done (g a)) where
  -- Rows that can be read are all collected.
  pub collect-rows : (xs : List A) → collect f (map (λ r. done r) (map row xs)) ≡ done (map g xs)
  unfolding collect
  collect-rows [] = refl
  collect-rows (a ∷ rest) = rw (reads a, collect-rows rest) refl

-- A failure on the way is a failure of the collection.
pub collect_stopped :
    {B : Type 0} (f : Row → Reply B) (rows : List Row) (e : SqlError) (rest : List (Reply Row))
    → (e' : SqlError) × (collect f (map (λ r. done r) rows ++ failed e ∷ rest) ≡ failed e')
unfolding collect
collect_stopped f [] e rest = (e, refl)
collect_stopped {B = B} f (r ∷ rows) e rest =
    let (x, p) = collect_stopped f rows e rest in go x p (f r) refl
  where
    go :
        (x : SqlError)
        → collect f (map (λ r. done r) rows ++ failed e ∷ rest) ≡ failed x
        → (o : Reply B) → f r ≡ o
        → (e' : SqlError) × (collect f (done r ∷ (map (λ r. done r) rows ++ failed e ∷ rest))
            ≡ failed e')
    go x p (failed y) q = (y, rw q refl)
    go x p (done b) q = (x, rw (q, p) refl)
