-- ===== src/Script/Exec.antt =====
-- Steps of the machine as state passing. An outcome is a result, an error that RunCode returns at
-- once, a Go panic, the exhausted stack of a goroutine (which no recover can stop), a slice that is
-- extended past its length into old elements, or the end of the model's fuel.
use go_apla.Prelude.{Option, none, some}

pub data Outcome {ℓ κ} (E : Type ℓ) (A : Type κ) : Type (ℓ ⊔ κ) where
  done : A → Outcome E A
  failed : E → Outcome E A
  panicked overflowed resliced out_of_fuel : Outcome E A

abbrev pub Exec {ℓ} : Type ℓ → Type ℓ → Type ℓ → Type ℓ
Exec S E A = S → Outcome E A × S

module _ {ℓ} {S E A : Type ℓ} where
  abbrev pub pure : A → Exec S E A
  pure a s = (done a, s)

  abbrev pub fail : E → Exec S E A
  fail e s = (failed e, s)

  abbrev pub panic : Exec S E A
  panic s = (panicked, s)

  abbrev pub stop : Outcome E A → Exec S E A
  stop o s = (o, s)

  -- A Go error that comes back as a value.
  unfoldable pub catch : Exec S E A → (E → A) → Exec S E A
  catch m f s =
      let (o, s') = m s in
      elim o [
        | done a ↦ (done a, s')
        | failed e ↦ (done (f e), s')
        | panicked ↦ (panicked, s')
        | overflowed ↦ (overflowed, s')
        | resliced ↦ (resliced, s')
        | out_of_fuel ↦ (out_of_fuel, s')
      ]

  -- `defer`: the change is made however `m` ends.
  unfoldable pub finally : Exec S E A → (S → S) → Exec S E A
  finally m f s = let (o, s') = m s in (o, f s')

  abbrev pub gets : (S → A) → Exec S E A
  gets f s = (done (f s), s)

  -- A read that may be out of range panics.
  abbrev pub or_panic : Option A → Exec S E A
  or_panic (some a) s = (done a, s)
  or_panic none s = (panicked, s)

  -- A recursion too deep for the goroutine's stack.
  abbrev pub or_overflow : Option A → Exec S E A
  or_overflow (some a) s = (done a, s)
  or_overflow none s = (overflowed, s)

  abbrev pub reads : (S → Option A) → Exec S E A
  reads f s = or_panic (f s) s

module _ {ℓ} {S E A B : Type ℓ} where
  infixl 5 ◌>>=◌ ◌>>◌
  abbrev pub continue : Outcome E A → (A → Exec S E B) → Exec S E B
  continue (done a) f s = f a s
  continue (failed e) f s = (failed e, s)
  continue panicked f s = (panicked, s)
  continue overflowed f s = (overflowed, s)
  continue resliced f s = (resliced, s)
  continue out_of_fuel f s = (out_of_fuel, s)

  unfoldable pub ◌>>=◌ : Exec S E A → (A → Exec S E B) → Exec S E B
  ◌>>=◌ m f s = let (o, s') = m s in continue o f s'

  unfoldable pub ◌>>◌ : Exec S E A → Exec S E B → Exec S E B
  unfolding ◌>>=◌
  m >> n = m >>= λ _. n

module _ {ℓ} {S E : Type ℓ} where
  abbrev pub modify : (S → S) → Exec S E (Unit {ℓ})
  modify f s = (done tt, f s)
