-- ===== src/Common/Contracts.antt =====
-- What an action leaves, from what it starts with, by the parts of the action.

use mathlib.Core.Bool.{Bool, true, false}
use emule_indexer.Common.Tests.{if◌then◌else◌}
use emule_indexer.Common.Results.{Result, ok, err}
use emule_indexer.Common.Effects.{Exec, ◌>>=◌, continue_with, handled, catch}

module _ {S E : Type 0} where
  -- From a state where `P` holds, `m` ends with `Q` of its answer and the state then.
  abbrev pub Runs : {A : Type 0} → (S → Type 0) → Exec S E A → (Result E A → S → Type 0) → Type 0
  Runs P m Q = (s : S) → P s → Q (m s).0 (m s).1

  -- After a return `Q` holds, after an error `R`.
  abbrev pub Either : {A : Type 0} → (A → S → Type 0) → (E → S → Type 0) → Result E A → S → Type 0
  Either Q R (ok a) s = Q a s
  Either Q R (err e) s = R e s

  continue-Runs :
      {A B : Type 0} (Q : A → S → Type 0) (R : E → S → Type 0) (T : B → S → Type 0)
      (r : Result E A × S) (next : A → Exec S E B)
      → Either Q R r.0 r.1
      → ((a : A) → Runs (Q a) (next a) (Either T R))
      → Either T R (continue_with next r).0 (continue_with next r).1
  continue-Runs Q R T (ok a, s) next q after = after a s q
  continue-Runs Q R T (err e, s) next q after = q

  pub >>=-Runs :
      {A B : Type 0} {P : S → Type 0} (Q : A → S → Type 0) (R : E → S → Type 0) (T : B → S → Type 0)
      (m : Exec S E A) (next : A → Exec S E B)
      → Runs P m (Either Q R)
      → ((a : A) → Runs (Q a) (next a) (Either T R))
      → Runs P (m >>= next) (Either T R)
  >>=-Runs Q R T m next run after s p = continue-Runs Q R T (m s) next (run s p) after

  handled-Runs :
      {A : Type 0} (Q : A → S → Type 0) (R R' : E → S → Type 0) (r : Result E A × S)
      (handler : E → Exec S E A)
      → Either Q R r.0 r.1
      → ((e : E) → Runs (R e) (handler e) (Either Q R'))
      → Either Q R' (handled handler r).0 (handled handler r).1
  handled-Runs Q R R' (ok a, s) handler q after = q
  handled-Runs Q R R' (err e, s) handler q after = after e s q

  pub catch-Runs :
      {A : Type 0} {P : S → Type 0} (Q : A → S → Type 0) (R R' : E → S → Type 0) (m : Exec S E A)
      (handler : E → Exec S E A)
      → Runs P m (Either Q R)
      → ((e : E) → Runs (R e) (handler e) (Either Q R'))
      → Runs P (catch m handler) (Either Q R')
  catch-Runs Q R R' m handler run after s p = handled-Runs Q R R' (m s) handler (run s p) after

  pub if-Runs :
      {A : Type 0} {P : S → Type 0} (Q : Result E A → S → Type 0) (b : Bool) (m n : Exec S E A)
      → Runs P m Q
      → Runs P n Q
      → Runs P (if b then m else n) Q
  if-Runs Q true m n hm hn = hm
  if-Runs Q false m n hm hn = hn

  weaken :
      {A : Type 0} (Q : A → S → Type 0) (R R' : E → S → Type 0) (r : Result E A × S)
      → ((e : E) (s : S) → R e s → R' e s)
      → Either Q R r.0 r.1
      → Either Q R' r.0 r.1
  weaken Q R R' (ok a, s) h q = q
  weaken Q R R' (err e, s) h q = h e s q

  -- Less may be said of the errors.
  pub weaken-Runs :
      {A : Type 0} {P : S → Type 0} (Q : A → S → Type 0) (R R' : E → S → Type 0) (m : Exec S E A)
      → ((e : E) (s : S) → R e s → R' e s)
      → Runs P m (Either Q R)
      → Runs P m (Either Q R')
  weaken-Runs Q R R' m h run s p = weaken Q R R' (m s) h (run s p)
