-- ===== src/Base/Program.antt =====
-- The methods of a service that calls other components: the state and error monad of `Exec` with its
-- bind shut, so that properties go by one rule for each way to build a method.
use mathlib.Core.Logic.{◌⊎◌, inl, inr}
use mathlib.Core.Bool.{Bool, true, false}
use mathlib.Core.Option.{Option, none, some}
use icos_v.Base.Tests.{if◌then◌else◌}
use icos_v.Base.Exec.{Exec, Result, ok, err}

module _ {E S A : Type 0} where
  unfoldable pub pure : A → Exec E S A
  pure a s = (ok a, s)

  unfoldable pub throw : E → Exec E S A
  throw e s = (err e, s)

  unfoldable pub gets : (S → A) → Exec E S A
  gets f s = (ok (f s), s)

  abbrev pub or_throw : Option A → E → Exec E S A
  or_throw none e = throw e
  or_throw (some a) e = pure a

unfoldable pub modify : {E S : Type 0} → (S → S) → Exec E S (Unit {0})
modify f s = (ok tt, f s)

module _ {E S A B : Type 0} where
  abbrev pub continue : Result E A → (A → Exec E S B) → Exec E S B
  continue (ok a) f s = f a s
  continue (err e) f s = (err e, s)

  infixl 5 ◌>>=◌ ◌>>◌
  -- opening this opens `pure`, `throw`, `gets` and `modify` too
  unfoldable pub ◌>>=◌ : Exec E S A → (A → Exec E S B) → Exec E S B
  unfolding pure throw gets modify
  ◌>>=◌ m f s = let (r, s') = m s in continue r f s'

  abbrev pub ◌>>◌ : Exec E S A → Exec E S B → Exec E S B
  m >> k = m >>= λ _. k

-- From a state with `P` the method ends in one with `Q`, whether it returns or throws.
pub record Leads {E S A : Type 0} (P : S → Type 0) (m : Exec E S A) (Q : S → Type 0) : Type 0 where
  pub at : (s : S) → P s → Q (m s).1

abbrev pub Keeps : {E S A : Type 0} → (S → Type 0) → Exec E S A → Type 0
Keeps P m = Leads P m P

module _ {E S A : Type 0} {P : S → Type 0} where
  pub Keeps-pure : (a : A) → Keeps {E = E} P (pure a)
  unfolding pure
  Keeps-pure a = record { at = λ s h. h }

  pub Keeps-throw : (e : E) → Keeps P (throw {A = A} e)
  unfolding throw
  Keeps-throw e = record { at = λ s h. h }

  pub Keeps-gets : (f : S → A) → Keeps {E = E} P (gets f)
  unfolding gets
  Keeps-gets f = record { at = λ s h. h }

  pub Keeps-or_throw : (o : Option A) (e : E) → Keeps P (or_throw o e)
  Keeps-or_throw none e = Keeps-throw e
  Keeps-or_throw (some a) e = Keeps-pure a

  pub Keeps-if :
      (b : Bool) (m n : Exec E S A) → Keeps P m → Keeps P n → Keeps P (if b then m else n)
  Keeps-if true m n h k = h
  Keeps-if false m n h k = k

  pub Leads-weaken :
      {Q : S → Type 0} (m : Exec E S A) → ((s : S) → P s → Q s) → Leads Q m Q → Leads P m Q
  Leads-weaken m w h = record { at = λ s p. h.at s (w s p) }

pub Leads-from :
    {E S A : Type 0} (P R Q : S → Type 0) (m : Exec E S A)
    → ((s : S) → P s → R s)
    → Leads R m Q
    → Leads P m Q
Leads-from P R Q m w h = record { at = λ s p. h.at s (w s p) }

module _ {E S A B : Type 0} where
  pub Leads-bind :
      (P R Q : S → Type 0) (m : Exec E S A) (f : A → Exec E S B)
      → Leads P m R
      → ((s : S) → R s → Q s)
      → ((a : A) → Leads R (f a) Q)
      → Leads P (m >>= f) Q
  unfolding ◌>>=◌
  Leads-bind P R Q m f h weaken k = record { at = λ s p. let (r, s') = m s in go r s' (h.at s p) }
    where
      go : (r : Result E A) (s' : S) → R s' → Q (continue r f s').1
      go (ok a) s' q = (k a).at s' q
      go (err e) s' q = weaken s' q

  pub Keeps-bind :
      {P : S → Type 0} (m : Exec E S A) (f : A → Exec E S B)
      → Keeps P m
      → ((a : A) → Keeps P (f a))
      → Keeps P (m >>= f)
  Keeps-bind {P} m f h k = Leads-bind P P P m f h (λ s p. p) k

-- `R` of the value and the state where the method returns, `Q` where it throws.
abbrev pub Ends : {E S A : Type 0} → (A → S → Type 0) → (S → Type 0) → Result E A × S → Type 0
Ends R Q (ok a, s) = R a s
Ends R Q (err e, s) = Q s

-- As `Leads-bind`, where what follows needs to know the value.
pub Leads-bind_value :
    {E S A B : Type 0} (P : S → Type 0) (R : A → S → Type 0) (Q : S → Type 0) (m : Exec E S A)
    (f : A → Exec E S B)
    → ((s : S) → P s → Ends R Q (m s))
    → ((a : A) → Leads (R a) (f a) Q)
    → Leads P (m >>= f) Q
unfolding ◌>>=◌
Leads-bind_value {E} {S} {A} P R Q m f h k = record { at = λ s p. go (m s) (h s p) }
  where
    go : (r : Result E A × S) → Ends R Q r → Q (let (a, v) = r in continue a f v).1
    go (ok a, s) q = (k a).at s q
    go (err e, s) q = q

-- From a state with `P` the method returns in one with `Q` or throws in one with `T`.
pub record Finishes {E S A : Type 0} (P : S → Type 0) (m : Exec E S A) (Q T : S → Type 0)
    : Type 0 where
  pub at : (s : S) → P s → Ends (λ _. Q) T (m s)

pub Finishes-bind :
    {E S A B : Type 0} (P R Q T : S → Type 0) (m : Exec E S A) (f : A → Exec E S B)
    → Finishes P m R T
    → ((a : A) → Finishes R (f a) Q T)
    → Finishes P (m >>= f) Q T
unfolding ◌>>=◌
Finishes-bind {E} {S} {A} {B} P R Q T m f h k = record { at = λ s p. go (m s) (h.at s p) }
  where
    go :
        (r : Result E A × S)
        → Ends (λ _. R) T r
        → Ends {A = B} (λ _. Q) T (let (a, v) = r in continue a f v)
    go (ok a, s) q = (k a).at s q
    go (err e, s) q = q

pub Finishes-keeps :
    {E S A : Type 0} (P T : S → Type 0) (m : Exec E S A)
    → ((s : S) → P s → T s)
    → Keeps P m
    → Finishes P m P T
Finishes-keeps {E} {S} {A} P T m w h = record { at = λ s p. go (m s) (h.at s p) }
  where
    go : (r : Result E A × S) → P r.1 → Ends (λ _. P) T r
    go (ok a, s) q = q
    go (err e, s) q = w s q

abbrev pub handle : {E S A : Type 0} → (E → Exec E S A) → Result E A × S → Result E A × S
handle h (ok a, s) = (ok a, s)
handle h (err e, s) = h e s

-- `try { m } catch (err) { h }`
unfoldable pub attempt : {E S A : Type 0} → Exec E S A → (E → Exec E S A) → Exec E S A
attempt m h s = handle h (m s)

pub Leads-attempt :
    {E S A : Type 0} (P T Q : S → Type 0) (m : Exec E S A) (h : E → Exec E S A)
    → ((s : S) → P s → Ends (λ _. Q) T (m s))
    → ((e : E) → Leads T (h e) Q)
    → Leads P (attempt m h) Q
unfolding attempt
Leads-attempt {E} {S} {A} P T Q m h body caught = record { at = λ s p. go (m s) (body s p) }
  where
    go : (r : Result E A × S) → Ends (λ _. Q) T r → Q (handle h r).1
    go (ok a, s) q = q
    go (err e, s) q = (caught e).at s q

pub Keeps-attempt :
    {E S A : Type 0} {P : S → Type 0} (m : Exec E S A) (h : E → Exec E S A)
    → Keeps P m
    → ((e : E) → Keeps P (h e))
    → Keeps P (attempt m h)
unfolding attempt
Keeps-attempt {E} {S} {A} {P} m h body caught = record { at = λ s p. go (m s) (body.at s p) }
  where
    go : (r : Result E A × S) → P r.1 → P (handle h r).1
    go (ok a, s) q = q
    go (err e, s) q = (caught e).at s q

pub Keeps-or :
    {E S A : Type 0} {P : S → Type 0} (C : Type 0) (m : Exec E S A)
    → Keeps P m
    → Keeps (λ s. P s ⊎ C) m
Keeps-or C m h = record { at = λ s p. elim p [ inl q ↦ inl (h.at s q) | inr c ↦ inr c ] }

pub ruleset keeps_rules =
    (Keeps-pure, Keeps-throw, Keeps-gets, Keeps-or_throw, Keeps-if, Keeps-bind)
