-- ===== src/Base/Dict.antt =====
-- A Python dict, in insertion order, over keys with a Boolean equality.
use mathlib.Core.Path.{◌≡◌, refl}
use mathlib.Core.Logic.{◌↔◌, ◌≢◌}
use mathlib.Core.Bool.{Bool, true}
use mathlib.Core.Option.{Option, none, some}
use mathlib.Core.List.{List, [], ◌∷◌}
use native.Mathlib.Omega.{arith}
use Prim.Native.String.{String}
use text.Mathlib.Text.{◌==◌ as str_eq}
use text.Mathlib.TextEquality.{eq_iff}
use hsr_battle_agent.Base.Tests.{if◌then◌else◌}
use hsr_battle_agent.Base.Int.{ℤ, eqb_ℤ}

pub record Eq (A : Type 0) : Type 0 where
  pub beq : A → A → Bool
  pub beq_iff : (a b : A) → (beq a b ≡ true) ↔ (a ≡ b)

pub eqb_ℤ_iff : (a b : ℤ) → (eqb_ℤ a b ≡ true) ↔ (a ≡ b)
eqb_ℤ_iff a b = ground arith

instance abbrev pub int_eq : Eq ℤ
int_eq = record { beq = eqb_ℤ; beq_iff = eqb_ℤ_iff }

instance abbrev pub string_eq : Eq String
string_eq = record { beq = str_eq; beq_iff = eq_iff }

abbrev pub Dict : Type 0 → Type 0 → Type 0
Dict K V = List (K × V)

module _ {K V : Type 0} ⦃e : Eq K⦄ where
  -- `d.get(k)`
  unfoldable pub lookup : K → Dict K V → Option V
  lookup k [] = none
  lookup k ((j, v) ∷ d) = if e.beq k j then some v else lookup k d

  -- `d[k] = v`
  unfoldable pub insert : K → V → Dict K V → Dict K V
  insert k v [] = (k, v) ∷ []
  insert k v ((j, w) ∷ d) = if e.beq k j then (j, v) ∷ d else (j, w) ∷ insert k v d

  -- `d.pop(k, None)`
  unfoldable pub erase : K → Dict K V → Dict K V
  erase k [] = []
  erase k ((j, w) ∷ d) = if e.beq k j then erase k d else (j, w) ∷ erase k d

  -- `ground` splits on the two tests, which are equal once the stored key is the key written.
  pub lookup-insert :
      (j k : K) (v : V) (d : Dict K V)
      → lookup j (insert k v d) ≡ (if e.beq j k then some v else lookup j d)
  unfolding lookup insert
  lookup-insert j k v [] = refl
  lookup-insert j k v ((i, w) ∷ d) =
      ground (arith, e.beq_iff j k, e.beq_iff k i, e.beq_iff j i, lookup-insert j k v d)

  pub lookup-erase :
      (j k : K) (d : Dict K V) → lookup j (erase k d) ≡ (if e.beq j k then none else lookup j d)
  unfolding lookup erase
  lookup-erase j k [] = ground arith
  lookup-erase j k ((i, w) ∷ d) =
      ground (arith, e.beq_iff j k, e.beq_iff k i, e.beq_iff j i, lookup-erase j k d)

  pub lookup-insert_self : (k : K) (v : V) (d : Dict K V) → lookup k (insert k v d) ≡ some v
  lookup-insert_self k v d = ground (arith, lookup-insert k k v d, e.beq_iff k k)

  pub lookup-insert_ne :
      (j k : K) (v : V) (d : Dict K V) → j ≢ k → lookup j (insert k v d) ≡ lookup j d
  lookup-insert_ne j k v d h = ground (arith, lookup-insert j k v d, e.beq_iff j k)
