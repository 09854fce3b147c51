-- ===== src/Store/Sqlite.antt =====
-- supervictor/endpoint/src/store/sqlite.rs, over a connection. The calls of one method run without
-- another in between, as its lock sees to; `set_device_status` takes the lock twice.
pub mod Laws
pub mod Rows
pub mod Replies
pub mod Writes
pub mod Reads
mod Examples
use super_victor.Prelude.{
  ℕ, zero, suc, Bool, true, false, Option, none, some, List, [], ◌∷◌, if◌then◌else◌, ltb,
}
use super_victor.Prelude.Text.{Text, codes}
use super_victor.Exec.{Result, ok, err, Exec}
use super_victor.Json.{Parsed, value, invalid, SerdeJson}
use super_victor.Store.Stored.{
  Tables, unwrap_or, payload_of_text, decode, registry, uplinks_of-decode, All-decode,
  IsNewestFirst-decode, Occurs-decode, Occurs-encode, All-IsNewest,
}
use super_victor.Models.{
  DeviceRecord, UplinkRecord, io, serde, poisoned, store, device_already_exists, device_not_found,
}
use super_victor.Store.{DeviceStore}
use super_victor.Store.Sql.Statements.{
  insert_device, select_device, select_devices, insert_uplink, update_status, select_latest,
  select_uplinks, create_tables,
}
use super_victor.Store.Sql.{
  SqlValue, null, text, integer, SqlError, constraint_violation, other, Reply, done, failed, Row,
  Connection, display,
}

abbrev pub i64_top : ℕ
i64_top = 9223372036854775807

-- `ToSql` of an optional text.
abbrev pub nullable : Option Text → SqlValue
nullable none = null
nullable (some t) = text t

infixl 5 ◌>>=◌
abbrev pub ◌>>=◌ : {A B : Type 0} → Reply A → (A → Reply B) → Reply B
done a >>= f = f a
failed e >>= f = failed e

-- `collect` of the rows, and of what is read of each: the first error, if there is one.
unfoldable pub collect : {A : Type 0} → (Row → Reply A) → List (Reply Row) → Reply (List A)
collect f [] = done []
collect f (r ∷ rs) = (r >>= f) >>= λ a. collect f rs >>= λ more. done (a ∷ more)

-- `i64::try_from(limit).unwrap_or(i64::MAX)`
unfoldable pub clamped : ℕ → ℕ
clamped limit = if ltb i64_top limit then i64_top else limit

-- A column as a text and as an optional text, or the error of reading it.
unfoldable pub text_at : SqlError → ℕ → Row → Reply Text
text_at e i [] = failed e
text_at e zero (text t ∷ vs) = done t
text_at e zero (null ∷ vs) = failed e
text_at e zero (integer n ∷ vs) = failed e
text_at e (suc i) (v ∷ vs) = text_at e i vs

unfoldable pub nullable_at : SqlError → ℕ → Row → Reply (Option Text)
nullable_at e i [] = failed e
nullable_at e zero (text t ∷ vs) = done (some t)
nullable_at e zero (null ∷ vs) = done none
nullable_at e zero (integer n ∷ vs) = failed e
nullable_at e (suc i) (v ∷ vs) = nullable_at e i vs

module _ {S : Type 0} (conn : Connection S) where
  -- `row.get(i)`
  unfoldable pub get_text : ℕ → Row → Reply Text
  unfolding text_at
  get_text i row = text_at (conn.column_error i row) i row

  unfoldable pub get_nullable : ℕ → Row → Reply (Option Text)
  unfolding nullable_at
  get_nullable i row = nullable_at (conn.column_error i row) i row

  -- The closure that reads a device.
  unfoldable pub device_of_row : Row → Reply DeviceRecord
  unfolding get_text get_nullable
  device_of_row row = get_text 0 row >>= λ device_id. get_text 1 row >>= λ owner_id.
      get_nullable 2 row >>= λ subject_dn. get_text 3 row >>= λ status.
      get_text 4 row >>= λ created_at. done (record {
        device_id = device_id;
        owner_id = owner_id;
        subject_dn = subject_dn;
        status = status;
        created_at = created_at;
      })

  module _ {V A : Type 0} where
    -- `self.conn.lock().map_err(…)?`, and the rest of the method.
    unfoldable pub locked : Exec S V A → Exec S V A
    locked m s = if conn.poisoned s then (err (store poisoned), s) else m s

    -- `query_map`, and what is made of its rows.
    unfoldable pub mapped :
        Text → (List (Reply Row) → Result V A) → Reply (List (Reply Row)) → Result V A
    mapped query_op f (failed e) = err (store (io query_op (display e)))
    mapped query_op f (done rows) = f rows

    -- `prepare`, `query_map` and the rest, each with its operation's name.
    unfoldable pub queried :
        Text → Text → Text → List SqlValue → (List (Reply Row) → Result V A) → Exec S V A
    unfolding mapped
    queried prepare_op query_op sql params f s = elim (conn.prepare sql s) [
      | some e ↦ (err (store (io prepare_op (display e))), s)
      | none ↦ (mapped query_op f (conn.query sql params s), s)
    ]

    -- The statement, its error under its name, and what is answered when it is done.
    abbrev pub batch_reply : Text → A → Reply (Unit {0}) → Result V A
    batch_reply op a (done _) = ok a
    batch_reply op a (failed e) = err (store (io op (display e)))

    -- `map_err` of a collected result.
    unfoldable pub collected : Text → Reply A → Result V A
    collected op (done a) = ok a
    collected op (failed e) = err (store (io op (display e)))

  module _ {V : Type 0} where
    unfoldable pub migrate_locked : Exec S V (Unit {0})
    migrate_locked s =
        let (reply, s') = conn.execute_batch create_tables s in
        (batch_reply (codes "migration") tt reply, s')

    unfoldable pub migrate : Exec S V (Unit {0})
    unfolding migrate_locked locked
    migrate = locked migrate_locked

    -- The match on `rows.next()`.
    abbrev pub first_read : Reply DeviceRecord → Result V (Option DeviceRecord)
    first_read (done record_) = ok (some record_)
    first_read (failed e) = err (store (io (codes "get_device row") (display e)))

    unfoldable pub first_device : List (Reply Row) → Result V (Option DeviceRecord)
    first_device [] = ok none
    first_device (r ∷ _) = first_read (r >>= device_of_row)

    -- The errors of the insertion.
    unfoldable pub inserted : DeviceRecord → Reply ℕ → Result V DeviceRecord
    inserted record_ (done n) = ok record_
    inserted record_ (failed (constraint_violation _)) =
        err (device_already_exists record_.device_id)
    inserted record_ (failed (other t)) = err (store (io (codes "put_device") t))

    -- The statement, under the lock.
    unfoldable pub insert_locked : DeviceRecord → Exec S V DeviceRecord
    unfolding inserted
    insert_locked record_ s =
        let (reply, s') =
          conn.execute insert_device
            (text record_.device_id
              ∷ text record_.owner_id
              ∷ nullable record_.subject_dn
              ∷ text record_.status
              ∷ text record_.created_at
              ∷ [])
            s in
        (inserted record_ reply, s')

    unfoldable pub put_device : DeviceRecord → Exec S V DeviceRecord
    unfolding insert_locked locked
    put_device record_ = locked (insert_locked record_)

    unfoldable pub get_locked : Text → Exec S V (Option DeviceRecord)
    unfolding first_device queried
    get_locked device_id =
        queried (codes "get_device prepare") (codes "get_device query") select_device
          (text device_id ∷ []) first_device

    unfoldable pub get_device : Text → Exec S V (Option DeviceRecord)
    unfolding get_locked locked
    get_device device_id = locked (get_locked device_id)

    unfoldable pub list_devices : Exec S V (List DeviceRecord)
    unfolding locked queried collected collect
    list_devices = locked (
        queried (codes "list_devices prepare") (codes "list_devices query") select_devices []
          (λ rows. collected (codes "list_devices collect") (collect device_of_row rows)))

    -- The end of `set_device_status`.
    unfoldable pub found_or_missing : Text → Result V (Option DeviceRecord) → Result V DeviceRecord
    found_or_missing device_id (ok (some d)) = ok d
    found_or_missing device_id (ok none) = err (device_not_found device_id)
    found_or_missing device_id (err e) = err e

    -- From the reply to the update on.
    unfoldable pub read_back : Text → Reply ℕ → Exec S V DeviceRecord
    unfolding found_or_missing get_device
    read_back device_id (failed e) s = (err (store (io (codes "set_device_status") (display e))), s)
    read_back device_id (done zero) s = (err (device_not_found device_id), s)
    read_back device_id (done (suc n)) s =
        let (r, s') = get_device device_id s in (found_or_missing device_id r, s')

    unfoldable pub update_locked : Text → Text → Exec S V DeviceRecord
    unfolding read_back
    update_locked device_id status s =
        let (reply, s') = conn.execute update_status (text device_id ∷ text status ∷ []) s in
        read_back device_id reply s'

    unfoldable pub set_device_status : Text → Text → Exec S V DeviceRecord
    unfolding update_locked locked
    set_device_status device_id status = locked (update_locked device_id status)

  module _ {V : Type 0} where
    -- The reply to the insertion.
    unfoldable pub put_reply : Reply ℕ → Result V (Unit {0})
    put_reply (done n) = ok tt
    put_reply (failed e) = err (store (io (codes "put_uplink") (display e)))

    -- From the serialised payload on.
    unfoldable pub put_serialized : UplinkRecord V → Parsed Text → Exec S V (Unit {0})
    unfolding put_reply
    put_serialized record_ (invalid e) s = (err (store (serde (codes "serialize payload") e)), s)
    put_serialized record_ (value payload) s =
        let (reply, s') =
          conn.execute insert_uplink
            (text record_.device_id ∷ text record_.received_at ∷ text payload ∷ []) s in
        (put_reply reply, s')

  module _ {V : Type 0} (serialize : V → Parsed Text) where
    unfoldable pub put_uplink : UplinkRecord V → Exec S V (Unit {0})
    unfolding put_serialized locked
    put_uplink record_ = locked (put_serialized record_ (serialize record_.payload))

  module _ {V : Type 0} (json : SerdeJson V) where
    -- The closure that reads an uplink.
    unfoldable pub uplink_of_row : Row → Reply (UplinkRecord V)
    unfolding get_text payload_of_text
    uplink_of_row row = get_text 2 row >>= λ payload. get_text 0 row >>= λ device_id.
        get_text 1 row >>= λ received_at. done (record {
          device_id = device_id;
          received_at = received_at;
          payload = payload_of_text json payload;
        })

    unfoldable pub latest_uplinks : Exec S V (List (UplinkRecord V))
    unfolding locked queried collected collect uplink_of_row
    latest_uplinks = locked (
        queried (codes "latest_uplinks prepare") (codes "latest_uplinks query") select_latest []
          (λ rows. collected (codes "latest_uplinks collect") (collect uplink_of_row rows)))

    unfoldable pub get_uplinks : Text → ℕ → Exec S V (List (UplinkRecord V))
    unfolding locked queried collected collect uplink_of_row clamped
    get_uplinks device_id limit = locked (
        queried (codes "get_uplinks prepare") (codes "get_uplinks query") select_uplinks
          (text device_id ∷ integer (clamped limit) ∷ [])
          (λ rows. collected (codes "get_uplinks collect") (collect uplink_of_row rows)))

  module _ {V : Type 0} (json : SerdeJson V) (serialize : V → Parsed Text) where
    abbrev pub sqlite : DeviceStore V S
    sqlite = record {
      put_device = put_device;
      get_device = get_device;
      list_devices = list_devices;
      put_uplink = put_uplink serialize;
      get_uplinks = get_uplinks json;
      set_device_status = set_device_status;
      latest_uplinks = latest_uplinks json;
    }
