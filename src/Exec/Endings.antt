-- ===== src/Exec/Endings.antt =====
-- What holds after a method of Exec: one predicate for a value that is returned, one for an
-- exception that is raised.
use aws_advanced_python_wrap.Prelude.{◌≡◌, refl, Bool, true, false, if◌then◌else◌}
use aws_advanced_python_wrap.Exec.{Result, ok, raised, Exec, after_try, continue}

abbrev pub Ending : {S E A : Type 0} → (A → S → Type 0) → (E → S → Type 0) → Result E A × S → Type 0
Ending Q R (ok a, s) = Q a s
Ending Q R (raised e, s) = R e s

pub record Ends {S E A : Type 0} (Q : A → S → Type 0) (R : E → S → Type 0) (r : Result E A × S)
    : Type 0 where
  pub ending : Ending Q R r

module _ {S E A : Type 0} {Q : A → S → Type 0} {R : E → S → Type 0} where
  pub Ends-ok : (a : A) (s : S) → Q a s → Ends Q R (ok a, s)
  Ends-ok a s h = record { ending = h }

  pub Ends-raised : (e : E) (s : S) → R e s → Ends Q R (raised e, s)
  Ends-raised e s h = record { ending = h }

  pub Ends-if :
      (b : Bool) {x y : Result E A × S}
      → (b ≡ true → Ends Q R x)
      → (b ≡ false → Ends Q R y)
      → Ends Q R (if b then x else y)
  Ends-if true kx ky = kx refl
  Ends-if false kx ky = ky refl

  pub Ends-catch :
      {R' : E → S → Type 0} {handler : E → Exec S E A} (r : Result E A × S)
      → Ends Q R' r
      → ((e : E) (s : S) → R' e s → Ends Q R (handler e s))
      → Ends Q R (after_try handler r)
  Ends-catch (ok a, s) h k = record { ending = h.ending }
  Ends-catch (raised e, s) h k = k e s h.ending

  pub Ends-weaken :
      {Q' : A → S → Type 0} {R' : E → S → Type 0} (r : Result E A × S)
      → Ends Q' R' r
      → ((a : A) (s : S) → Q' a s → Q a s)
      → ((e : E) (s : S) → R' e s → R e s)
      → Ends Q R r
  Ends-weaken (ok a, s) h kq kr = record { ending = kq a s h.ending }
  Ends-weaken (raised e, s) h kq kr = record { ending = kr e s h.ending }

  -- What holds of the state on either ending.
  pub Ends-any :
      {P : S → Type 0} (r : Result E A × S)
      → P r.1
      → ((a : A) (s : S) → P s → Q a s)
      → ((e : E) (s : S) → P s → R e s)
      → Ends Q R r
  Ends-any (ok a, s) h kq kr = record { ending = kq a s h }
  Ends-any (raised e, s) h kq kr = record { ending = kr e s h }

module _ {S E A B : Type 0} {R : E → S → Type 0} where
  pub Ends-bind :
      {M : A → S → Type 0} {Q : B → S → Type 0} {f : A → Exec S E B} (r : Result E A × S)
      → Ends M R r
      → ((a : A) (s : S) → M a s → Ends Q R (f a s))
      → Ends Q R (continue f r)
  Ends-bind (ok a, s) h k = k a s h.ending
  Ends-bind (raised e, s) h k = record { ending = h.ending }
