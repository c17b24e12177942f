-- ===== src/Elastic/Valid.antt =====
-- elastic.rs: the invariant of a table.
use opthash_rs.Prelude.{
  ℕ, ◌+◌, ◌≤◌, ◌<◌, ◌≡◌, ◌⊎◌, true, some, List, [], ◌∷◌, length, get_elem?, map, sum, ◌==◌,
  if◌then◌else◌, All,
}
use opthash_rs.Control.{ctrl_tombstone, is_free, control_fingerprint}
use opthash_rs.Elastic.Filter.{prepared_key}
use opthash_rs.Elastic.Recorded.{FourBins, Kept}
use opthash_rs.Elastic.Schedule.{QuerySchedule}
use opthash_rs.Elastic.Extend.{Scheduled}
use opthash_rs.Elastic.Shape.{max_elastic_slots}
use opthash_rs.Elastic.Key.{Hashing}
use opthash_rs.Elastic.Level.{SlotEntry, Slot, Level, capacity, scan_entries}
use opthash_rs.Elastic.Table.{ElasticTable}
use opthash_rs.Elastic.Resize.{live_entries}
use opthash_rs.Elastic.Routed.{Reachable}
use opthash_rs.Elastic.Assoc.{Distinct}

-- The two fields of the schedule.
abbrev pub schedule_of {ℓ} : {K V : Type ℓ} → ElasticTable K V → QuerySchedule
schedule_of t = record { probe_high_water = t.probe_high_water; probe_schedule = t.probe_schedule }

abbrev pub capacities {ℓ} : {K V : Type ℓ} → List (Level K V) → List ℕ
capacities levels = map capacity levels

abbrev pub tombstone_count {ℓ} : {K V : Type ℓ} → List (Slot K V) → ℕ
tombstone_count [] = 0
tombstone_count (slot ∷ slots) =
    (if slot.control == ctrl_tombstone then 1 else 0) + tombstone_count slots

-- The counters of a level.
abbrev pub Counted {ℓ} : {K V : Type ℓ} → Level K V → Type 0
Counted level =
    (level.len ≡ length (scan_entries level.slots))
    × (level.tombstones ≡ tombstone_count level.slots)

module _ {ℓ} {K V : Type ℓ} ⦃keys : Hashing K⦄ where
  -- An occupied slot holds an entry under its fingerprint, which the filter keeps at its level and to
  -- which the lookup's probes lead.
  pub record Live (t : ElasticTable K V) (level slot : ℕ) (found : Slot K V) : Type ℓ where
    pub entry : SlotEntry K V
    pub stored : found.entry ≡ some entry
    pub marked : found.control ≡ control_fingerprint (keys.hash_one entry.key)
    pub kept : Kept (prepared_key (keys.hash_one entry.key)) level t.membership
    pub reachable : Reachable t (prepared_key (keys.hash_one entry.key)) level slot

  abbrev pub Fits : ElasticTable K V → ℕ → ℕ → Slot K V → Type ℓ
  Fits t level slot found = (is_free found.control ≡ true) ⊎ Live t level slot found

  -- A well-formed table.
  pub record IsValid (t : ElasticTable K V) : Type ℓ where
    pub few : length t.levels ≤ 32
    pub total : t.total_slots ≡ sum (capacities t.levels)
    pub limit : t.max_insertions ≤ t.total_slots
    pub small : t.total_slots ≤ max_elastic_slots
    pub exponent : 1 ≤ t.reserve_fraction.exponent
    pub words : 0 < t.total_slots → 0 < length t.membership
    pub four : FourBins t.membership
    pub scheduled : Scheduled (capacities t.levels) (schedule_of t)
    pub cells :
        (level slot : ℕ) (at : Level K V) (found : Slot K V)
        → get_elem? t.levels level ≡ some at
        → get_elem? at.slots slot ≡ some found
        → Fits t level slot found
    pub counted : All Counted t.levels
    pub len : t.len ≡ length (live_entries t.levels)
    pub distinct : Distinct (live_entries t.levels)
