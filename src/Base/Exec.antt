-- ===== src/Base/Exec.antt =====
-- A method that reads and writes a store and may throw. What was written before a throw stays
-- written, so the store comes back beside the error too; `transaction` rolls it back.
use Prim.Native.Nat.{ℕ, ◌+◌}
use mathlib.Core.Path.{◌≡◌, sym, subst}
use mathlib.Core.Option.{Option, none, some}

pub data Result {ℓ} (E A : Type ℓ) : Type ℓ where
  ok : A → Result E A
  err : E → Result E A

abbrev pub Exec {ℓ} : Type ℓ → Type ℓ → Type ℓ → Type ℓ
Exec E S A = S → Result E A × S

module _ {ℓ} {E S A : Type ℓ} where
  abbrev pub pure : A → Exec E S A
  pure a s = (ok a, s)

  abbrev pub throw : E → Exec E S A
  throw e s = (err e, s)

  abbrev pub gets : (S → A) → Exec E S A
  gets f s = (ok (f s), s)

  abbrev pub or_throw : Option A → E → Exec E S A
  or_throw none e = throw e
  or_throw (some a) e = pure a

  abbrev pub roll_back : S → Result E A × S → Result E A × S
  roll_back s (ok a, s') = (ok a, s')
  roll_back s (err e, s') = (err e, s)

  -- `database.transaction(…)()`
  abbrev pub transaction : Exec E S A → Exec E S A
  transaction m s = roll_back s (m s)

  -- A transaction ends where its body ends or where it began.
  pub transaction-keeps {κ} :
      (P : S → Type κ) (m : Exec E S A) (s : S) → P s → P (m s).1 → P (transaction m s).1
  transaction-keeps P m s = go (m s)
    where
      go : (r : Result E A × S) → P s → P r.1 → P (roll_back s r).1
      go (ok a, s') h h' = h'
      go (err e, s') h h' = h

module _ {ℓ} {E S A B : Type ℓ} where
  abbrev continue : (A → Exec E S B) → Result E A × S → Result E B × S
  continue f (ok a, s) = f a s
  continue f (err e, s) = (err e, s)

  infixl 5 ◌>>=◌ ◌>>◌
  abbrev pub ◌>>=◌ : Exec E S A → (A → Exec E S B) → Exec E S B
  ◌>>=◌ m f s = continue f (m s)

  -- What follows a step and changes nothing.
  pub bind-keeps {κ} :
      (P : S → Type κ) (m : Exec E S A) (f : A → Exec E S B) (s : S)
      → ((a : A) (t : S) → (f a t).1 ≡ t)
      → P (m s).1
      → P ((m >>= f) s).1
  bind-keeps P m f s = go (m s)
    where
      go : (r : Result E A × S) → ((a : A) (t : S) → (f a t).1 ≡ t) → P r.1 → P (continue f r).1
      go (ok a, t) same h = subst P (sym (same a t)) h
      go (err e, t) same h = h

  abbrev pub ◌>>◌ : Exec E S A → Exec E S B → Exec E S B
  m >> k = m >>= λ _. k

abbrev pub modify : {E S : Type 0} → (S → S) → Exec E S (Unit {0})
modify f s = (ok tt, f s)

-- The n-th reading of the system clock that an operation takes, in milliseconds.
abbrev pub Clock : Type 0
Clock = ℕ → ℕ

-- The readings left after the first `n`.
abbrev pub after : ℕ → Clock → Clock
after n clock k = clock (n + k)
