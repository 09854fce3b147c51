-- ===== src/Fleet/Summary.antt =====
-- The summary counts what it says.
use super_victor.Prelude.{
  ℕ, ◌+◌, ◌≡◌, Bool, true, false, ◌&&◌, not, List, [], ◌∷◌, arith, length, filter,
}
use super_victor.Prelude.Text.{◌≟◌}
use super_victor.Models.{active}
use super_victor.Fleet.{
  Freshness, fresh, stale, dark, unknown, FleetDevice, FleetSummary, tally, tally_all, summarize,
}

abbrev pub same_class : Freshness → Freshness → Bool
same_class fresh fresh = true
same_class stale stale = true
same_class dark dark = true
same_class unknown unknown = true
same_class _ _ = false

abbrev pub is_active : FleetDevice → Bool
is_active d = d.status ≟ active

abbrev pub is_class : Freshness → FleetDevice → Bool
is_class c d = is_active d && same_class d.staleness c

abbrev pub count : (FleetDevice → Bool) → List FleetDevice → ℕ
count p ds = length (filter p ds)

-- Each count of a summary, from where it began.
record Counts (s t : FleetSummary) (ds : List FleetDevice) : Type 0 where
  total : t.total ≡ s.total
  actives : t.active_count ≡ s.active_count + count is_active ds
  inactives : t.inactive_count ≡ s.inactive_count + count (λ d. not (is_active d)) ds
  freshes : t.fresh_count ≡ s.fresh_count + count (is_class fresh) ds
  stales : t.stale_count ≡ s.stale_count + count (is_class stale) ds
  darks : t.dark_count ≡ s.dark_count + count (is_class dark) ds
  nevers : t.never_count ≡ s.never_count + count (is_class unknown) ds

tally_all-Counts : (s : FleetSummary) (ds : List FleetDevice) → Counts s (tally_all s ds) ds
unfolding tally_all
tally_all-Counts s [] = omega arith
tally_all-Counts s (d ∷ ds) = ground (arith, tally_all-Counts (tally s d) ds)

count_split :
    (p q : FleetDevice → Bool) (ds : List FleetDevice)
    → count p ds ≡ count (λ d. p d && q d) ds + count (λ d. p d && not (q d)) ds
count_split p q [] = omega arith
count_split p q (d ∷ ds) = ground (arith, count_split p q ds)

count_total :
    (p : FleetDevice → Bool) (ds : List FleetDevice)
    → length ds ≡ count p ds + count (λ d. not (p d)) ds
count_total p [] = omega arith
count_total p (d ∷ ds) = ground (arith, count_total p ds)

count_classes :
    (ds : List FleetDevice)
    → count is_active ds
      ≡ count (is_class fresh) ds
        + count (is_class stale) ds
        + count (is_class dark) ds
        + count (is_class unknown) ds
count_classes [] = omega arith
count_classes (d ∷ ds) = ground (arith, count_classes ds)

-- What a summary of `ds` says.
pub record IsSummary (ds : List FleetDevice) (t : FleetSummary) : Type 0 where
  pub total : t.total ≡ length ds
  pub actives : t.active_count ≡ count is_active ds
  pub freshes : t.fresh_count ≡ count (is_class fresh) ds
  pub stales : t.stale_count ≡ count (is_class stale) ds
  pub darks : t.dark_count ≡ count (is_class dark) ds
  pub nevers : t.never_count ≡ count (is_class unknown) ds
  pub all_counted : t.total ≡ t.active_count + t.inactive_count
  pub actives_counted :
      t.active_count ≡ t.fresh_count + t.stale_count + t.dark_count + t.never_count

-- `summarize` counts the devices, the active ones, and the active ones of each class; the active and
-- the inactive make up all devices, and the four classes make up the active ones.
pub summarize-IsSummary : (ds : List FleetDevice) → IsSummary ds (summarize ds)
unfolding summarize
summarize-IsSummary ds =
    let start : FleetSummary = record {
      total = length ds;
      active_count = 0;
      inactive_count = 0;
      fresh_count = 0;
      stale_count = 0;
      dark_count = 0;
      never_count = 0;
    } in
    omega (arith, tally_all-Counts start ds, count_total is_active ds, count_classes ds)
