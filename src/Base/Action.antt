-- ===== src/Base/Action.antt =====
-- A method that changes an object: the new state comes back after a raise too, since what was
-- written stays written.
use mathlib.Core.Path.{◌≡◌}
use mathlib.Core.Logic.{inl, inr}
use mathlib.Core.Bool.{Bool}
use hsr_battle_agent.Base.Tests.{if◌then◌else◌}
use hsr_battle_agent.Base.Exceptions.{Error, Result, ok, raise, Result-cases}

abbrev pub Action : Type 0 → Type 0 → Type 0
Action S A = S → Result A × S

infixl 5 ◌>>=◌ ◌>>◌
abbrev pub ◌>>=◌ : {S A B : Type 0} → Action S A → (A → Action S B) → Action S B
◌>>=◌ m f s = let (r, s') = m s in elim r [ ok a ↦ f a s' | raise e ↦ (raise e, s') ]

abbrev pub ◌>>◌ : {S A B : Type 0} → Action S A → Action S B → Action S B
m >> k = m >>= λ _. k

module _ {S A : Type 0} where
  abbrev pub pure : A → Action S A
  pure a s = (ok a, s)

  abbrev pub throw : Error → Action S A
  throw e s = (raise e, s)

  -- An expression that may raise and writes nothing.
  abbrev pub lift : Result A → Action S A
  lift r s = (r, s)

  abbrev pub gets : (S → A) → Action S A
  gets f s = (ok (f s), s)

abbrev pub modify : {S : Type 0} → (S → S) → Action S (Unit {0})
modify f s = (ok tt, f s)

-- `if test: raise error`
abbrev pub raise_if : {S : Type 0} → Bool → Error → Action S (Unit {0})
raise_if test e s = (if test then raise e else ok tt, s)

-- A call whose result is replaced by a constant: `m; return b`.
pub >>-pure-state :
    {S A B : Type 0} (m : Action S A) (b : B) (s : S) → ((m >> pure b) s).1 ≡ (m s).1
>>-pure-state m b s = elim (Result-cases (m s).0) [
  | inl (a, e) ↦ rw (e, ◌>>◌, ◌>>=◌)
  | inr (error, e) ↦ rw (e, ◌>>◌, ◌>>=◌)
]

pub >>-pure-ok :
    {S A B : Type 0} (m : Action S A) (b : B) (s : S) {a : A} {s' : S}
    → m s ≡ (ok a, s')
    → (m >> pure b) s ≡ (ok b, s')
>>-pure-ok m b s e = rw (e, ◌>>◌, ◌>>=◌) (rw e)

-- The next step runs on what the first returned.
pub >>=-at :
    {S A B : Type 0} (m : Action S A) (f : A → Action S B) (s : S) {a : A} {s' : S}
    → m s ≡ (ok a, s')
    → (m >>= f) s ≡ f a s'
>>=-at m f s e = rw (e, ◌>>=◌) (rw e)
