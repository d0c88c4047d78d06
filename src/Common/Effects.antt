-- ===== src/Common/Effects.antt =====
-- Code that reads and writes a state and may raise, and `do` blocks over it.
use emule_indexer.Common.Results.{Result, ok, err}

abbrev pub Exec : Type 0 → Type 0 → Type 0 → Type 0
Exec S E A = S → Result E A × S

module _ {S E : Type 0} where
  infixl 5 ◌>>=◌ ◌>>◌
  abbrev pub continue_with : {A B : Type 0} → (A → Exec S E B) → Result E A × S → Result E B × S
  continue_with next (ok a, s) = next a s
  continue_with next (err e, s) = (err e, s)

  abbrev pub ◌>>=◌ : {A B : Type 0} → Exec S E A → (A → Exec S E B) → Exec S E B
  (m >>= next) s = continue_with next (m s)

  abbrev pub ◌>>◌ : {A B : Type 0} → Exec S E A → Exec S E B → Exec S E B
  m >> next = m >>= λ _. next

  abbrev pub pure : {A : Type 0} → A → Exec S E A
  pure a s = (ok a, s)

  abbrev pub raise : {A : Type 0} → E → Exec S E A
  raise e s = (err e, s)

  abbrev pub gets : {A : Type 0} → (S → A) → Exec S E A
  gets f s = (ok (f s), s)

  abbrev pub modify : (S → S) → Exec S E (Unit {0})
  modify f s = (ok tt, f s)

  abbrev pub handled : {A : Type 0} → (E → Exec S E A) → Result E A × S → Result E A × S
  handled handler (ok a, s) = (ok a, s)
  handled handler (err e, s) = handler e s

  -- `try: m` with a handler for what it raises.
  abbrev pub catch : {A : Type 0} → Exec S E A → (E → Exec S E A) → Exec S E A
  catch m handler s = handled handler (m s)
