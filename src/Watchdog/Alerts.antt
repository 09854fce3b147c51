-- ===== src/Watchdog/Alerts.antt =====
-- Which devices the watchdog alerts on, and when.
use super_victor.Prelude.{
  ℕ, ◌+◌, ◌≡◌, refl, ap, inl, inr, Bool, true, ◌&&◌, ◌||◌, not, List, [], ◌∷◌, ◌++◌, map, arith,
  if◌then◌else◌, any, Bool-cases,
}
use super_victor.Prelude.Text.{Text, ◌≟◌, ≟_iff}
use super_victor.Exec.{Result, ok, err}
use super_victor.Fleet.{FleetDevice}
use super_victor.Watchdog.{
  Event, went_dark, recovered, contains, insert, difference, is_dark, dark_set, boot, tick, ticks,
  run,
}

abbrev pub bit : Bool → ℕ
bit b = if b then 1 else 0

abbrev pub occurs : Text → List Text → ℕ
occurs id [] = 0
occurs id (x ∷ xs) = bit (x ≟ id) + occurs id xs

-- How often the events tell that the device went dark, and that it recovered.
abbrev pub alerts : Text → List Event → ℕ
alerts id [] = 0
alerts id (went_dark x ∷ es) = bit (x ≟ id) + alerts id es
alerts id (_ ∷ es) = alerts id es

abbrev pub recoveries : Text → List Event → ℕ
recoveries id [] = 0
recoveries id (recovered x ∷ es) = bit (x ≟ id) + recoveries id es
recoveries id (_ ∷ es) = recoveries id es

module _ (id : Text) where
  alerts-append : (es fs : List Event) → alerts id (es ++ fs) ≡ alerts id es + alerts id fs
  alerts-append [] fs = omega arith
  alerts-append (went_dark x ∷ es) fs = omega (arith, alerts-append es fs)
  alerts-append (_ ∷ es) fs = alerts-append es fs

  recoveries-append :
      (es fs : List Event) → recoveries id (es ++ fs) ≡ recoveries id es + recoveries id fs
  recoveries-append [] fs = omega arith
  recoveries-append (recovered x ∷ es) fs = omega (arith, recoveries-append es fs)
  recoveries-append (_ ∷ es) fs = recoveries-append es fs

  alerts-went_dark : (l : List Text) → alerts id (map went_dark l) ≡ occurs id l
  alerts-went_dark [] = refl
  alerts-went_dark (x ∷ l) = omega (arith, alerts-went_dark l)

  alerts-recovered : (l : List Text) → alerts id (map recovered l) ≡ 0
  alerts-recovered [] = refl
  alerts-recovered (x ∷ l) = alerts-recovered l

  recoveries-went_dark : (l : List Text) → recoveries id (map went_dark l) ≡ 0
  recoveries-went_dark [] = refl
  recoveries-went_dark (x ∷ l) = recoveries-went_dark l

  recoveries-recovered : (l : List Text) → recoveries id (map recovered l) ≡ occurs id l
  recoveries-recovered [] = refl
  recoveries-recovered (x ∷ l) = omega (arith, recoveries-recovered l)

  contains-eq : (x : Text) (l : List Text) → (x ≟ id) ≡ true → contains x l ≡ contains id l
  contains-eq x l h = ap (λ y. contains y l) ((≟_iff x id).0 h)

  occurs-difference :
      (a b : List Text) → occurs id (difference a b) ≡ (if contains id b then 0 else occurs id a)
  unfolding difference
  occurs-difference [] b = ground arith
  occurs-difference (x ∷ a) b = ground (arith, occurs-difference a b, contains-eq x b)

  -- A set holds an identifier once or not at all.
  abbrev pub Once : List Text → Type 0
  Once l = occurs id l ≡ bit (contains id l)

  insert-Once : (x : Text) (l : List Text) → Once l → Once (insert x l)
  unfolding insert contains
  insert-Once x l h = elim (Bool-cases (contains x l)) [
    | inl old ↦ rw old h
    | inr new ↦ rw new (ground (arith, h, new, contains-eq x l))
  ]

  dark_set-Once : (ds : List FleetDevice) → Once (dark_set ds)
  unfolding dark_set contains
  dark_set-Once [] = refl
  dark_set-Once (d ∷ ds) = elim (Bool-cases (is_dark d)) [
    | inl e ↦ rw e (insert-Once d.device_id (dark_set ds) (dark_set-Once ds))
    | inr e ↦ rw e (dark_set-Once ds)
  ]

-- A device of the snapshot is dark under this identifier.
abbrev pub dark_in : Text → List FleetDevice → Bool
dark_in id ds = any (λ d. is_dark d && d.device_id ≟ id) ds

module _ (id : Text) where
  contains-insert :
      (x : Text) (l : List Text) → contains id (insert x l) ≡ (x ≟ id || contains id l)
  unfolding insert contains
  contains-insert x l = ground (arith, contains-eq id x l)

  contains-dark_set : (ds : List FleetDevice) → contains id (dark_set ds) ≡ dark_in id ds
  unfolding dark_set
  contains-dark_set [] = unfold contains in refl
  contains-dark_set (d ∷ ds) =
      ground (arith, contains-dark_set ds, contains-insert d.device_id (dark_set ds))

  -- A tick with a snapshot alerts on a device once if it is dark there and was not known as dark, and
  -- not at all otherwise; it reports a recovery once if it was known and is not dark there.
  pub tick-alerts :
      (V : Type 0) (known : List Text) (ds : List FleetDevice)
      → Once id known
      → (alerts id (tick {V = V} known (ok ds)).1 ≡ bit (dark_in id ds && not (contains id known)))
        × (recoveries id (tick {V = V} known (ok ds)).1
            ≡ bit (contains id known && not (dark_in id ds)))
  unfolding tick
  tick-alerts V known ds once =
      let dark_now = dark_set ds in
      let up = map went_dark (difference dark_now known) in
      let down = map recovered (difference known dark_now) in
      ground (
        arith,
        contains-dark_set ds,
        dark_set-Once id ds,
        alerts-append id up down,
        recoveries-append id up down,
        alerts-went_dark id (difference dark_now known),
        alerts-recovered id (difference known dark_now),
        recoveries-went_dark id (difference dark_now known),
        recoveries-recovered id (difference known dark_now),
        occurs-difference id dark_now known,
        occurs-difference id known dark_now,
      )

  known_after :
      (V : Type 0) (known : List Text) (ds : List FleetDevice)
      → contains id (tick {V = V} known (ok ds)).0 ≡ dark_in id ds
  unfolding tick
  known_after V known ds = contains-dark_set ds

module _ {V : Type 0} (id : Text) where
  tick-Once :
      (known : List Text) (r : Result V (List FleetDevice))
      → Once id known
      → Once id (tick known r).0
  unfolding tick
  tick-Once known (ok ds) h = dark_set-Once id ds
  tick-Once known (err e) h = h

  tick_balance :
      (known : List Text) (r : Result V (List FleetDevice))
      → Once id known
      → bit (contains id known) + alerts id (tick known r).1
        ≡ recoveries id (tick known r).1 + bit (contains id (tick known r).0)
  tick_balance known (ok ds) h =
      ground (arith, tick-alerts id V known ds h, known_after id V known ds)
  tick_balance known (err e) h = unfold tick in omega arith

  ticks_balance :
      (known : List Text) (rs : List (Result V (List FleetDevice)))
      → Once id known
      → bit (contains id known) + alerts id (ticks known rs).1
        ≡ recoveries id (ticks known rs).1 + bit (contains id (ticks known rs).0)
  unfolding ticks
  ticks_balance known [] h = omega arith
  ticks_balance known (r ∷ rs) h = omega (
    arith,
    tick_balance known r h,
    ticks_balance (tick known r).0 rs (tick-Once known r h),
    alerts-append id (tick known r).1 (ticks (tick known r).0 rs).1,
    recoveries-append id (tick known r).1 (ticks (tick known r).0 rs).1,
  )

  boot-Once : (first : Result V (List FleetDevice)) → Once id (boot first)
  unfolding boot
  boot-Once (ok ds) = dark_set-Once id ds
  boot-Once (err e) = unfold contains in refl

  -- In a run over any snapshots, failed ones included, a device has one alert more than it has
  -- recoveries if it ends dark and was not dark at boot, one less in the opposite case, and otherwise
  -- as many: no alert is repeated before a recovery, and none is lost.
  pub run_balance :
      (first : Result V (List FleetDevice)) (rs : List (Result V (List FleetDevice)))
      → bit (contains id (boot first)) + alerts id (run first rs).1
        ≡ recoveries id (run first rs).1 + bit (contains id (run first rs).0)
  unfolding run
  run_balance first rs = ticks_balance (boot first) rs (boot-Once first)
