-- ===== src/Property/Lifecycle.antt =====
-- allocate_source_slot of src/hsr_battle_agent/battle_runtime/property.py: its slot, the other
-- slots, and the value.
use hsr_battle_agent.Base.{
  arith, false, get_elem?, get_elem?-set_ne, get_elem?-set_self, inl, inr, length, ok, some, sym,
  true, ℕ, ◌<◌, ◌∙◌, ◌≡◌, ◌≢◌, ◌≤◌, ◌⊎◌,
}
use hsr_battle_agent.Base.Action.{>>-pure-ok}
use hsr_battle_agent.Base.Int.{pos, ℤ}
use hsr_battle_agent.FixPoint.{is_raw, validate_raw}
use hsr_battle_agent.Property.{PropertyEntry, extend_slots}
use hsr_battle_agent.Property.Choice.{
  Chosen, IsSupported-extend, IsSupported-write, choose_slot-Chosen, get_elem?-extend_ne,
  reserve-nonempty,
}
use hsr_battle_agent.Property.Rebuild.{rebuild-ok}
use hsr_battle_agent.Property.SlotLaws.{extend-IsValid, write_slot-IsValid}
use hsr_battle_agent.Property.Slots.{allocate_source_slot, rebuild_materialized, write_slot}
use hsr_battle_agent.Property.Valid.{IsSupported, IsValid}

pub IsValid-materialized :
    (entry : PropertyEntry) (m : ℤ)
    → IsValid entry
    → is_raw m ≡ true
    → IsValid (record entry { materialized = m })
IsValid-materialized entry m h raw = record {
  stamped = h.stamped;
  parallel = h.parallel;
  values = h.values;
  base = h.base;
  materialized_raw = raw;
  extent = h.extent;
}

abbrev pub after_write : PropertyEntry → ℕ → ℤ → ℤ → PropertyEntry
after_write room i v m = record (write_slot room i v) { materialized = m }

-- A successful allocation in full.
pub record Allocated (v : ℤ) (entry : PropertyEntry) : Type 0 where
  pub index : ℕ
  pub room : PropertyEntry
  pub chosen : Chosen entry index room
  pub value : ℤ
  pub result : allocate_source_slot v entry ≡ (ok index, after_write room index v value)
  pub valid : IsValid (after_write room index v value)
  pub supported : IsSupported (after_write room index v value)
  pub room_valid : IsValid room

room-IsSupported :
    (entry room : PropertyEntry) (i : ℕ)
    → (room ≡ entry) ⊎ ((room ≡ extend_slots entry) × (i ≡ length entry.source_value))
    → IsSupported entry
    → IsSupported room
room-IsSupported entry room i (inl e) s = rw e s
room-IsSupported entry room i (inr (e, at_end)) s = rw e (IsSupported-extend entry s)

room-IsValid :
    (entry room : PropertyEntry) (i : ℕ)
    → (room ≡ entry) ⊎ ((room ≡ extend_slots entry) × (i ≡ length entry.source_value))
    → IsValid entry
    → IsValid room
room-IsValid entry room i (inl e) h = rw e h
room-IsValid entry room i (inr (e, at_end)) h = rw e (extend-IsValid entry h)

pub allocate-Allocated :
    (v : ℤ) (entry : PropertyEntry)
    → IsValid entry
    → IsSupported entry
    → 0 < length entry.source_value
    → is_raw v ≡ true
    → Allocated v entry
unfolding allocate_source_slot validate_raw
allocate-Allocated v entry h s nonempty raw =
    let (i, room, c) = choose_slot-Chosen entry h nonempty in
    let hr = room-IsValid entry room i c.same h in
    let sr = room-IsSupported entry room i c.same s in
    let hw = write_slot-IsValid room i v hr raw in
    let sw = IsSupported-write room i v sr in
    let (m, got, raw_m, rebuilt) = rebuild-ok (write_slot room i v) hw sw in
    record {
      index = i;
      room = room;
      chosen = c;
      value = m;
      result =
          rw (raw, reserve-nonempty entry nonempty, c.choice)
            (>>-pure-ok rebuild_materialized i (write_slot room i v) rebuilt);
      valid = IsValid-materialized (write_slot room i v) m hw raw_m;
      supported = record {
        hook = sw.hook;
        transform_a = sw.transform_a;
        transform_b = sw.transform_b;
        kind = sw.kind;
      };
      room_valid = hr;
    }

-- On a well-formed supported entry allocation succeeds with a slot other than 0 that was not active,
-- and that slot is active with the given value afterwards.
pub allocate_source_slot_lem :
    (v : ℤ) (entry : PropertyEntry)
    → IsValid entry
    → IsSupported entry
    → 0 < length entry.source_value
    → is_raw v ≡ true
    → (i : ℕ) × ((allocate_source_slot v entry).0 ≡ ok i)
      × (1 ≤ i)
      × (get_elem? entry.source_active i ≢ some true)
      × (get_elem? (allocate_source_slot v entry).1.source_active i ≡ some true)
      × (get_elem? (allocate_source_slot v entry).1.source_value i ≡ some v)
allocate_source_slot_lem v entry h s nonempty raw =
    let a = allocate-Allocated v entry h s nonempty raw in
    let c = a.chosen in
    let inside = a.room_valid.parallel in
    (
      a.index,
      rw a.result,
      c.from_one,
      c.not_active,
      rw a.result
          (get_elem?-set_self a.room.source_active a.index true (omega (arith, c.inside, inside))),
      rw a.result (get_elem?-set_self a.room.source_value a.index v c.inside),
    )

room-others :
    (entry room : PropertyEntry) (i j : ℕ)
    → (room ≡ entry) ⊎ ((room ≡ extend_slots entry) × (i ≡ length entry.source_value))
    → length entry.source_active ≡ length entry.source_value
    → j ≢ i
    → (get_elem? room.source_active j ≡ get_elem? entry.source_active j)
      × (get_elem? room.source_value j ≡ get_elem? entry.source_value j)
room-others entry room i j (inl e) p ne = (rw e, rw e)
room-others entry room i j (inr (e, at_end)) p ne = (
  rw e (get_elem?-extend_ne entry.source_active false j (λ q. ne (q ∙ p ∙ sym at_end))),
  rw e (get_elem?-extend_ne entry.source_value (pos 0) j (λ q. ne (q ∙ sym at_end))),
)

pub ok-injective : (i j : ℕ) → ok i ≡ ok j → i ≡ j
ok-injective i j e = cc

-- From a well-formed entry with no post stage that has its slot 0, an allocation of a qword that succeeds at a
-- slot leaves the activity and the value of every other slot.
pub allocate-others :
    (v : ℤ) (entry : PropertyEntry) (i j : ℕ)
    → IsValid entry
    → IsSupported entry
    → 0 < length entry.source_value
    → is_raw v ≡ true
    → (allocate_source_slot v entry).0 ≡ ok i
    → j ≢ i
    → (get_elem? (allocate_source_slot v entry).1.source_active j ≡ get_elem? entry.source_active j)
      × (get_elem? (allocate_source_slot v entry).1.source_value j ≡ get_elem? entry.source_value j)
allocate-others v entry i j h s nonempty raw found ne =
    let a = allocate-Allocated v entry h s nonempty raw in
    let same : a.index ≡ i = ok-injective a.index i (rw a.result at found) in
    let other : a.index ≢ j = λ e. ne (sym e ∙ same) in
    let kept = room-others entry a.room a.index j a.chosen.same h.parallel (λ e. other (sym e)) in
    (
      rw a.result (get_elem?-set_ne a.room.source_active a.index j true other ∙ kept.0),
      rw a.result (get_elem?-set_ne a.room.source_value a.index j v other ∙ kept.1),
    )
