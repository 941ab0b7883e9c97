-- ===== src/Turn/Distinct.antt =====
-- The ids of a checked timeline of src/hsr_battle_agent/battle_runtime/turns.py, in any order.
use mathlib.Core.List.Perm
use mathlib.Core.Logic.Or
use mathlib.Core.HLevel.{⊥_prop}
use mathlib.Core.List.{List, [], ◌∷◌, map, Mem, Perm, Nodup, Pairwise}
use mathlib.Core.List.{mem-cons_self, mem-cons_of_mem, eq-or-mem_of_mem-cons, not-mem-nil}
use hsr_battle_agent.Base.{true, false, ◌≡◌, ◌≢◌, arith, ap, sym}
use mathlib.Core.Path.{subst}
use hsr_battle_agent.Base.Dict.{int_eq}
use hsr_battle_agent.Base.Int.{ℤ}
use hsr_battle_agent.Component.{contains}
use hsr_battle_agent.Targets.{EntityRef}
use hsr_battle_agent.Turn.{all_distinct}
use hsr_battle_agent.Turn.Reduction.{Distinct, NotAmong}
use hsr_battle_agent.Turn.Steps.{entity_of}

contains-false :
    (ids : List ℤ) (id : ℤ) → contains ids id ≡ false → Mem (entity_of id) (map entity_of ids) → ⊥
contains-false [] id h m = not-mem-nil m
contains-false (x ∷ ids) id h m =
    Or.elim ⊥_prop (eq-or-mem_of_mem-cons m) (λ e. differs (ap (λ entity. entity.runtime_id) e))
      (contains-false ids id (ground arith))
  where
    differs : id ≡ x → ⊥
    differs e = ground (arith, int_eq.beq_iff x id)

all_distinct-Nodup : (ids : List ℤ) → all_distinct ids ≡ true → Nodup (map entity_of ids)
all_distinct-Nodup [] h = Pairwise.nil
all_distinct-Nodup (id ∷ ids) h =
    Pairwise.cons
      (λ a m same.
        contains-false ids id (ground arith) (subst (λ e. Mem e (map entity_of ids)) (sym same) m))
      (all_distinct-Nodup ids (ground arith))

Mem-NotAmong :
    (entity : EntityRef) (entities : List EntityRef)
    → ((a : EntityRef) → Mem a entities → entity ≢ a)
    → NotAmong entity.runtime_id entities
Mem-NotAmong entity [] h = tt
Mem-NotAmong entity (x ∷ entities) h = (
  λ same. h x mem-cons_self (ap (λ id. entity_of id) same),
  Mem-NotAmong entity entities (λ a m. h a (mem-cons_of_mem x m)),
)

Nodup-Distinct : (entities : List EntityRef) → Nodup entities → Distinct entities
Nodup-Distinct [] h = tt
Nodup-Distinct (entity ∷ entities) (Pairwise.cons apart rest) =
    (Mem-NotAmong entity entities apart, Nodup-Distinct entities rest)

pub order-Distinct :
    (ids : List ℤ) (entities : List EntityRef)
    → all_distinct ids ≡ true
    → Perm entities (map entity_of ids)
    → Distinct entities
order-Distinct ids entities h p =
    Nodup-Distinct entities (Perm.nodup (Perm.symm p) (all_distinct-Nodup ids h))
