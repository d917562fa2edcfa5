-- ===== src/Exec.antt =====
-- Methods that change an object and may raise. Python keeps what was written before a raise, so
-- the state comes back beside the exception too.
pub mod Endings
use aws_advanced_python_wrap.Prelude.{Bool, true, false, if◌then◌else◌}

pub data Result (E A : Type 0) : Type 0 where
  ok : A → Result E A
  raised : E → Result E A

abbrev pub Exec : Type 0 → Type 0 → Type 0 → Type 0
Exec S E A = S → Result E A × S

module _ {S E A : Type 0} where
  abbrev pub pure : A → Exec S E A
  pure a s = (ok a, s)

  abbrev pub throw : E → Exec S E A
  throw e s = (raised e, s)

  -- Reads the state.
  abbrev pub gets : (S → A) → Exec S E A
  gets f s = (ok (f s), s)

  abbrev pub after_try : (E → Exec S E A) → Result E A × S → Result E A × S
  after_try handler (ok a, s) = (ok a, s)
  after_try handler (raised e, s) = handler e s

  -- `try: m  except Exception as e: handler(e)`
  abbrev pub catch : Exec S E A → (E → Exec S E A) → Exec S E A
  catch m handler s = after_try handler (m s)

  abbrev pub after_finally : (S → S) → Result E A × S → Result E A × S
  after_finally last (r, s) = (r, last s)

  -- `try: m  finally: last()`, for a `last` that does not raise.
  abbrev pub finally : Exec S E A → (S → S) → Exec S E A
  finally m last s = after_finally last (m s)

module _ {S E : Type 0} where
  abbrev pub modify : (S → S) → Exec S E (Unit {0})
  modify f s = (ok tt, f s)

  -- `try: m  except Exception: pass`
  abbrev pub ignore : Exec S E (Unit {0}) → Exec S E (Unit {0})
  ignore m = catch m (λ e. pure tt)

module _ {S E A B : Type 0} where
  abbrev pub continue : (A → Exec S E B) → Result E A × S → Result E B × S
  continue f (ok a, s) = f a s
  continue f (raised e, s) = (raised e, s)

  infixl 10 ◌>>=◌
  abbrev pub ◌>>=◌ : Exec S E A → (A → Exec S E B) → Exec S E B
  ◌>>=◌ m f s = continue f (m s)

module _ {S E B : Type 0} where
  infixl 10 ◌>>◌
  abbrev pub ◌>>◌ : Exec S E (Unit {0}) → Exec S E B → Exec S E B
  m >> n = m >>= λ _. n

-- `m` keeps `P`, whether it returns or raises.
pub record Keeps {S E A : Type 0} (P : S → Type 0) (m : Exec S E A) : Type 0 where
  pub at : (s : S) → P s → P (m s).1

module _ {S E A : Type 0} {P : S → Type 0} where
  pub Keeps-pure : (a : A) → Keeps P (pure {E = E} a)
  Keeps-pure a = record { at = λ s h. h }

  pub Keeps-throw : (e : E) → Keeps P (throw {A = A} e)
  Keeps-throw e = record { at = λ s h. h }

  pub Keeps-if :
      (b : Bool) (m n : Exec S E A) → Keeps P m → Keeps P n → Keeps P (if b then m else n)
  Keeps-if true m n km kn = km
  Keeps-if false m n km kn = kn

  after_try-keeps :
      (handler : E → Exec S E A) (r : Result E A) (s : S)
      → ((e : E) → Keeps P (handler e))
      → P s
      → P (after_try handler (r, s)).1
  after_try-keeps handler (ok a) s k h = h
  after_try-keeps handler (raised e) s k h = (k e).at s h

  pub Keeps-catch :
      (m : Exec S E A) (handler : E → Exec S E A)
      → Keeps P m
      → ((e : E) → Keeps P (handler e))
      → Keeps P (catch m handler)
  Keeps-catch m handler km k = record {
    at = λ s h. after_try-keeps handler (m s).0 (m s).1 k (km.at s h);
  }

module _ {S E A B : Type 0} {P : S → Type 0} where
  continue-keeps :
      (f : A → Exec S E B) (r : Result E A) (s : S)
      → ((a : A) → Keeps P (f a))
      → P s
      → P (continue f (r, s)).1
  continue-keeps f (ok a) s k h = (k a).at s h
  continue-keeps f (raised e) s k h = h

  pub Keeps-bind :
      (m : Exec S E A) (f : A → Exec S E B)
      → Keeps P m
      → ((a : A) → Keeps P (f a))
      → Keeps P (m >>= f)
  Keeps-bind m f km k = record { at = λ s h. continue-keeps f (m s).0 (m s).1 k (km.at s h) }

pub ruleset keeps_rules = (Keeps-pure, Keeps-throw, Keeps-if, Keeps-catch, Keeps-bind)
