-- ===== src/Hp/Locks.antt =====
-- try_get_lock_hp of src/hsr_battle_agent/battle_runtime/hp.py against a description by recursion
-- on the records.
use hsr_battle_agent.Base.{
  Bool, Bool-cases, List, Option, [], ap, arith, false, get_elem?, if◌then◌else◌, inl, inr, length,
  none, ok, refl, some, suc, true, zero, ℕ, ◌&&◌, ◌<◌, ◌∙◌, ◌∷◌, ◌≡◌, ◌≤◌, ◌⊎◌,
}
use hsr_battle_agent.Base.Int.{ltb_ℤ, ℤ}
use hsr_battle_agent.FixPoint.{fixpoint_compare, fixpoint_equal, is_eq, is_raw, validate_raw}
use hsr_battle_agent.Hp.{LockHpResult, lock_result, lock_scan, lock_step, try_get_lock_hp}
use hsr_battle_agent.State.{LockHpRecord}

abbrev or_else : Option ℤ → Option ℤ → Option ℤ
or_else (some v) other = some v
or_else none other = other

-- The value of the last record whose kind is at least the damage kind.
abbrev pub last_qualifying : List LockHpRecord → ℤ → Option ℤ
last_qualifying [] damage_kind = none
last_qualifying (r ∷ records) damage_kind =
    or_else (last_qualifying records damage_kind)
      (if ltb_ℤ r.kind damage_kind then none else some r.value)

abbrev pub all_raw_values : List LockHpRecord → Bool
all_raw_values [] = true
all_raw_values (r ∷ records) = is_raw r.value && all_raw_values records

-- The same below an index.
last_below : ℕ → List LockHpRecord → ℤ → Option ℤ
last_below zero records damage_kind = none
last_below (suc index) records damage_kind = elim (get_elem? records index) [
  | none ↦ none
  | some r ↦ if ltb_ℤ r.kind damage_kind then last_below index records damage_kind else some r.value
]

record_at :
    (records : List LockHpRecord) (index : ℕ)
    → index < length records
    → (r : LockHpRecord) × (get_elem? records index ≡ some r)
record_at [] index h = elim h [ ]
record_at (r ∷ records) zero h = (r, refl)
record_at (r ∷ records) (suc index) h = record_at records index (omega arith)

last_below-cons :
    (index : ℕ) (r : LockHpRecord) (records : List LockHpRecord) (damage_kind : ℤ)
    → index ≤ length records
    → last_below (suc index) (r ∷ records) damage_kind
      ≡ or_else
          (last_below index records damage_kind)
          (if ltb_ℤ r.kind damage_kind then none else some r.value)
unfolding last_below
last_below-cons zero r records damage_kind h = ground arith
last_below-cons (suc index) r records damage_kind h =
    let (found, e) = record_at records index (omega arith) in
    elim (Bool-cases (ltb_ℤ found.kind damage_kind)) [
      | inl low ↦
          rw (e, low, last_below) (last_below-cons index r records damage_kind (omega arith))
      | inr high ↦ rw (e, high, last_below) refl
    ]

last_below-length :
    (records : List LockHpRecord) (damage_kind : ℤ)
    → last_below (length records) records damage_kind ≡ last_qualifying records damage_kind
unfolding last_below
last_below-length [] damage_kind = refl
last_below-length (r ∷ records) damage_kind =
    last_below-cons (length records) r records damage_kind (omega arith)
    ∙ ap (λ o. or_else o (if ltb_ℤ r.kind damage_kind then none else some r.value))
        (last_below-length records damage_kind)

raw_at :
    (records : List LockHpRecord) (index : ℕ) (r : LockHpRecord)
    → all_raw_values records ≡ true
    → get_elem? records index ≡ some r
    → is_raw r.value ≡ true
raw_at [] index r h found = cc
raw_at (s ∷ records) zero r h found = ground arith
raw_at (s ∷ records) (suc index) r h found = raw_at records index r (ground arith) found

lock_step-accepted :
    (damage_kind : ℤ) (r : LockHpRecord) (index : ℕ) (v : ℤ) (best : ℕ)
    → is_raw v ≡ true
    → is_raw r.value ≡ true
    → ltb_ℤ r.kind damage_kind ≡ false
    → (lock_step damage_kind r index (some (v, best)) ≡ ok (true, some (v, index)))
      ⊎ (lock_step damage_kind r index (some (v, best)) ≡ ok (false, some (v, best)))
unfolding lock_step fixpoint_equal validate_raw
lock_step-accepted damage_kind r index v best hv hr high =
    elim (Bool-cases (is_eq (fixpoint_compare v r.value))) [
      | inl same ↦ inl (rw (high, hv, hr, same))
      | inr other ↦ inr (rw (high, hv, hr, other))
    ]

-- Once a value is accepted the scan ends with it.
scan-accepted :
    (index : ℕ) (records : List LockHpRecord) (damage_kind v : ℤ) (best : ℕ)
    → index ≤ length records
    → all_raw_values records ≡ true
    → is_raw v ≡ true
    → (i : ℕ) × (lock_scan index records damage_kind (some (v, best)) ≡ ok (some (v, i)))
unfolding lock_scan lock_step fixpoint_equal validate_raw
scan-accepted zero records damage_kind v best h raw hv = (best, refl)
scan-accepted (suc index) records damage_kind v best h raw hv =
    let (r, e) = record_at records index (omega arith) in
    let hr = raw_at records index r raw e in
    elim (Bool-cases (ltb_ℤ r.kind damage_kind)) [
      | inl low ↦
          let (i, rest) = scan-accepted index records damage_kind v best (omega arith) raw hv in
          (i, rw (e, low, lock_scan) rest)
      | inr high ↦ elim (lock_step-accepted damage_kind r index v best hv hr high) [
        | inl same ↦
            let (i, rest) = scan-accepted index records damage_kind v index (omega arith) raw hv in
            (i, rw (e, same, lock_scan) rest)
        | inr other ↦ (best, rw (e, other, lock_scan) refl)
      ]
    ]

abbrev accepted : Option (ℤ × ℕ) → Option ℤ
accepted none = none
accepted (some (v, i)) = some v

lock_result-accepted :
    (records : List LockHpRecord) (found : Option (ℤ × ℕ))
    → (if (lock_result records found).success
        then some (lock_result records found).lock_value
        else none)
      ≡ accepted found
lock_result-accepted records none = refl
lock_result-accepted records (some (v, i)) = refl

scan-selects :
    (index : ℕ) (records : List LockHpRecord) (damage_kind : ℤ)
    → index ≤ length records
    → all_raw_values records ≡ true
    → (found : Option (ℤ × ℕ)) × (lock_scan index records damage_kind none ≡ ok found)
      × (accepted found ≡ last_below index records damage_kind)
unfolding lock_scan lock_step last_below
scan-selects zero records damage_kind h raw = (none, refl, refl)
scan-selects (suc index) records damage_kind h raw =
    let (r, e) = record_at records index (omega arith) in
    elim (Bool-cases (ltb_ℤ r.kind damage_kind)) [
      | inl low ↦
          let (found, rest, same) = scan-selects index records damage_kind (omega arith) raw in
          (found, rw (e, low, lock_scan) rest, rw (e, low, last_below) same)
      | inr high ↦
          let (i, rest) =
            scan-accepted index records damage_kind r.value index (omega arith) raw
              (raw_at records index r raw e) in
          (some (r.value, i), rw (e, high, lock_scan) rest, rw (e, high, last_below) refl)
    ]

-- On records with qword values the scan succeeds. It finds a lock exactly where a record's kind is at
-- least the damage kind, and the lock value is that of the last such record.
pub try_get_lock_hp-selects :
    (records : List LockHpRecord) (damage_kind : ℤ)
    → all_raw_values records ≡ true
    → (result : LockHpResult) × (try_get_lock_hp records damage_kind ≡ ok result)
      × ((if result.success then some result.lock_value else none)
          ≡ last_qualifying records damage_kind)
unfolding try_get_lock_hp
try_get_lock_hp-selects records damage_kind raw =
    let (found, e, same) = scan-selects (length records) records damage_kind (omega arith) raw in
    (
      lock_result records found,
      rw e,
      lock_result-accepted records found ∙ same ∙ last_below-length records damage_kind,
    )
