-- ===== src/Store/Sqlite/Reads.antt =====
-- The lists that the SQLite backend returns.
use mathlib.Core.List.{Perm}
use mathlib.Core.List.Perm
use mathlib.Core.Path.{subst}
use super_victor.Prelude.{
  ℕ, ◌≡◌, ◌≤◌, refl, ◌∙◌, ap, sym, List, [], ◌∷◌, map, take, take_all, map-take, map_id, length,
  length-filter-le, length-Perm, All, inl, inr, Bool-cases, arith, ltb,
}
use super_victor.Prelude.Text.{Text, codes, ◌≟◌}
use super_victor.Exec.{Result, ok, err}
use super_victor.Json.{SerdeJson, Parsed}
use super_victor.Store.Stored.{
  Tables, decode, registry, uplinks_of-decode, IsNewestFirst-decode, Occurs-decode, Occurs-encode,
  All-IsNewest,
}
use super_victor.Models.{DeviceRecord, UplinkRecord, StoreError, poisoned, store}
use super_victor.Store.Contract.{
  Registry, uplinks_of, IsNewestFirst, Occurs, IsNewest, AreLatest, ListDevices, GetUplinks,
  LatestUplinks, IsReader,
}
use super_victor.Store.Contract
use super_victor.Store.Sql.{SqlValue, text, integer, Reply, done, Row, Connection}
use super_victor.Store.Sql.Statements.{select_devices, select_latest, select_uplinks}
use super_victor.Store.Sqlite.{
  i64_top, locked, queried, collect, collected, device_of_row, uplink_of_row, list_devices,
  get_uplinks, latest_uplinks, clamped, sqlite,
}
use super_victor.Store.Sqlite.Laws.{
  device_row, uplink_row, Select, answered, stopped, AreDevices, AreUplinks, AreMaxima, QueryLaws,
}
use super_victor.Store.Sqlite.Rows.{
  device_of_row-device_row, uplink_of_row-uplink_row, collect-rows, collect_stopped,
}
use super_victor.Store.Sqlite.Replies.{locked_lem, queried_lem}

-- As many as are asked for, also where the bound is cut to what a column can hold.
take-clamped :
    {A : Type 0} (n : ℕ) (xs : List A) → length xs ≤ i64_top → take (clamped n) xs ≡ take n xs
unfolding clamped
take-clamped n xs h = elim (Bool-cases (ltb i64_top n)) [
  | inl e ↦ rw e (take_all i64_top xs h ∙ sym (take_all n xs (ground (arith, e, h))))
  | inr e ↦ rw e refl
]

module _ {S : Type 0} (conn : Connection S) where
  -- A method that collects the rows of one query: its outcomes are the failure, and the records of the
  -- rows.
  collected_lem :
      {V B : Type 0} (P : Result V (List B) × S → Type 0) (Q : List Row → Type 0)
      (prepare_op query_op collect_op sql : Text) (params : List SqlValue) (f : Row → Reply B)
      (s : S)
      → ((e : StoreError) → P (err (store e), s))
      → Select Q (conn.query sql params s)
      → ((rows : List Row)
          → Q rows
          → (bs : List B) × (collect f (map (λ r. done r) rows) ≡ done bs) × P (ok bs, s))
      → P (
          locked conn
            (queried conn prepare_op query_op sql params
              (λ rows. collected conn collect_op (collect f rows)))
            s)
  unfolding collected
  collected_lem P Q prepare_op query_op collect_op sql params f s fails q answers =
      locked_lem conn P
        (queried conn prepare_op query_op sql params
          (λ rows. collected conn collect_op (collect f rows)))
        s (fails poisoned)
        (queried_lem conn P (Select Q) prepare_op query_op sql params
          (λ rows. collected conn collect_op (collect f rows)) s fails q rest)
    where
      rest :
          (rows : List (Reply Row))
          → Select Q (done rows)
          → P (collected conn collect_op (collect f rows), s)
      rest _ (answered rows p) = let (bs, e, h) = answers rows p in rw e h
      rest _ (stopped rows missing e more p) =
          let (x, h) = collect_stopped f rows e more in rw h (fails _)

module _ {V S : Type 0} (conn : Connection S) (tables : S → Tables) (laws : QueryLaws conn tables)
    (json : SerdeJson V) where
  abbrev pub view : S → Registry V
  view s = registry json (tables s)

  listed : (s : S) (ds : List DeviceRecord) → Perm ds (tables s).devices → Perm ds (view s).devices
  unfolding registry
  listed s ds p = p

  decoded :
      (s : S) (id : Text) (limit : ℕ) (all : List (UplinkRecord Text))
      → Perm all (uplinks_of id (tables s).uplinks)
      → map (decode json) (take (clamped limit) all) ≡ take limit (map (decode json) all)
  decoded s id limit all p =
      ap (map (decode json)) (
        take-clamped limit all (
          omega (
            arith,
            length-Perm all (uplinks_of id (tables s).uplinks) p,
            length-filter-le (λ u. u.device_id ≟ id) (tables s).uplinks,
            laws.rows_bound s,
          )))
      ∙ map-take (decode json) limit all

  newest :
      (s : S) (id : Text) (limit : ℕ) (all : List (UplinkRecord Text))
      → Perm all (uplinks_of id (tables s).uplinks)
      → IsNewestFirst all
      → GetUplinks view s id limit (ok (take limit (map (decode json) all)), s)
  unfolding registry
  newest s id limit all p sorted =
      Contract.newest (map (decode json) all) s
        (subst (Perm (map (decode json) all)) (sym (uplinks_of-decode json id (tables s).uplinks))
          (Perm.map (decode json) p))
        (IsNewestFirst-decode json all sorted) refl

  latest :
      (s : S) (us : List (UplinkRecord Text))
      → All (λ u. IsNewest u (tables s).uplinks) us
      → ((v : UplinkRecord Text)
          → Occurs v (tables s).uplinks
          → (u : UplinkRecord Text) × Occurs u us × (u.device_id ≡ v.device_id))
      → AreLatest (view s).devices (map (decode json) us) (view s).uplinks
  unfolding registry decode
  latest s us news covers = record {
    each_newest = All-IsNewest json (tables s).uplinks us news;
    covers = λ d v _ there same.
        let (w, p, e) = Occurs-encode json v (tables s).uplinks there in
        let (u, q, f) = covers w p in
        (decode json u, Occurs-decode json u us q, f ∙ sym (ap (λ x. x.device_id) e) ∙ same);
  }

  list_devices_lem : (s : S) → ListDevices view s (list_devices conn s)
  unfolding list_devices
  list_devices_lem s =
      collected_lem conn (ListDevices view s) (AreDevices (tables s)) (codes "list_devices prepare")
        (codes "list_devices query") (codes "list_devices collect") select_devices []
        (device_of_row conn) s (λ e. Contract.failed e s refl) (laws.select_devices s)
        (λ rows (ds, p, e). (
          ds,
          rw e (
                collect-rows (device_of_row conn) device_row (λ d. d)
                  (device_of_row-device_row conn) ds)
              ∙ ap done (map_id ds),
          Contract.listed ds s (listed s ds p) refl,
        ))

  get_uplinks_lem :
      (id : Text) (limit : ℕ) (s : S)
      → GetUplinks view s id limit (get_uplinks conn json id limit s)
  unfolding get_uplinks
  get_uplinks_lem id limit s =
      collected_lem conn (GetUplinks view s id limit) (AreUplinks (tables s) id (clamped limit))
        (codes "get_uplinks prepare") (codes "get_uplinks query") (codes "get_uplinks collect")
        select_uplinks (text id ∷ integer (clamped limit) ∷ []) (uplink_of_row conn json) s
        (λ e. Contract.failed e s refl) (laws.select_uplinks id (clamped limit) s)
        (λ rows (all, p, sorted, e). (
          take limit (map (decode json) all),
          rw e (
                collect-rows (uplink_of_row conn json) uplink_row (decode json)
                  (uplink_of_row-uplink_row conn json) (take (clamped limit) all))
              ∙ ap done (decoded s id limit all p),
          newest s id limit all p sorted,
        ))

  latest_uplinks_lem : (s : S) → LatestUplinks view s (latest_uplinks conn json s)
  unfolding latest_uplinks
  latest_uplinks_lem s =
      collected_lem conn (LatestUplinks view s) (AreMaxima (tables s))
        (codes "latest_uplinks prepare") (codes "latest_uplinks query")
        (codes "latest_uplinks collect") select_latest [] (uplink_of_row conn json) s
        (λ e. Contract.failed e s refl) (laws.select_latest s)
        (λ rows (us, news, covers, e). (
          map (decode json) us,
          rw e (
              collect-rows (uplink_of_row conn json) uplink_row (decode json)
                (uplink_of_row-uplink_row conn json) us),
          Contract.latest (map (decode json) us) s (latest s us news covers) refl,
        ))

  module _ (serialize : V → Parsed Text) where
    -- Over a connection whose queries answer as SQLite documents, with at most as many uplinks as row
    -- identifiers, `list_devices` returns every device once, `get_uplinks` the newest uplinks of the
    -- device, newest first and at most as many as asked for, and `latest_uplinks` a newest uplink of each
    -- device that has one; or a failure is reported, also from a poisoned lock. Nothing is changed.
    pub sqlite-IsReader : IsReader (sqlite conn json serialize) view
    sqlite-IsReader = record {
      list_devices = list_devices_lem;
      get_uplinks = get_uplinks_lem;
      latest_uplinks = latest_uplinks_lem;
    }
