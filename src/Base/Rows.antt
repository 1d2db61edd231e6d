-- ===== src/Base/Rows.antt =====
-- SELECT by several columns, ORDER BY rowid DESC and LIMIT.
use Prim.Native.Nat.{ℕ, zero, suc, ◌+◌}
use Prim.Native.String.{String}
use mathlib.Core.Path.{◌≡◌, refl, sym, subst, ◌∙◌}
use mathlib.Core.Bool.{Bool, true, ◌&&◌}
use mathlib.Core.Option
use mathlib.Core.Option.{Option, none, some}
use mathlib.Core.List.{List, [], ◌∷◌, ◌++◌, map}
use native.Mathlib.Omega.{arith}
use text.Mathlib.Text.{◌==◌}
use text.Mathlib.TextEquality.{eq_iff}
use icos_v.Base.Tests.{if◌then◌else◌, Bool-cases}
use icos_v.Base.Lists.{All}
use mathlib.Core.Logic.{inl, inr}
use icos_v.Base.Table.{
  select, update, changes, changes-none, update_unchanged, find, UniqueKeys, or_else,
}

module _ {ℓ} {R : Type ℓ} where
  -- `.get(…)` of SELECT * FROM t WHERE p
  unfoldable pub find_where : (R → Bool) → List R → Option R
  find_where p [] = none
  find_where p (r ∷ rows) = let rest = find_where p rows in if p r then some r else rest

  -- ORDER BY rowid DESC
  unfoldable pub reverse : List R → List R
  reverse [] = []
  reverse (r ∷ rows) = reverse rows ++ r ∷ []

  -- LIMIT
  unfoldable pub take : ℕ → List R → List R
  take zero rows = []
  take (suc n) [] = []
  take (suc n) (r ∷ rows) = r ∷ take n rows

  pub find_where-holds :
      (p : R → Bool) (rows : List R) (r : R) → find_where p rows ≡ some r → p r ≡ true
  unfolding find_where
  find_where-holds p [] r e = cc
  find_where-holds p (x ∷ rows) r e = ground (arith, find_where-holds p rows r)

  pub find_where-append :
      (p : R → Bool) (rows : List R) (r : R)
      → find_where p (rows ++ r ∷ []) ≡ or_else (find_where p rows) (if p r then some r else none)
  unfolding find_where
  find_where-append p [] r = ground arith
  find_where-append p (x ∷ rows) r = ground (arith, find_where-append p rows r)

  -- An UPDATE that leaves the condition as it was for every row finds a row where it was found.
  pub find_where-update :
      (p q : R → Bool) (f : R → R) (rows : List R)
      → ((r : R) → p (f r) ≡ p r)
      → find_where p (update q f rows)
        ≡ Option.map (λ r. if q r then f r else r) (find_where p rows)
  unfolding find_where update
  find_where-update p q f [] same = refl
  find_where-update p q f (x ∷ rows) same =
      ground (arith, find_where-update p q f rows same, same x)

  pub changes-append :
      (p : R → Bool) (rows : List R) (r : R)
      → changes p (rows ++ r ∷ []) ≡ changes p rows + (if p r then 1 else 0)
  unfolding changes
  changes-append p [] r = ground arith
  changes-append p (x ∷ rows) r = ground (arith, changes-append p rows r)

  pub changes-zero : (p : R → Bool) (rows : List R) → select p rows ≡ [] → changes p rows ≡ 0
  unfolding select changes
  changes-zero p [] e = refl
  changes-zero p (x ∷ rows) e = ground (arith, changes-zero p rows)

module _ {ℓ} {R : Type ℓ} where
  pub changes-reverse : (p : R → Bool) (rows : List R) → changes p (reverse rows) ≡ changes p rows
  unfolding changes reverse
  changes-reverse p [] = refl
  changes-reverse p (x ∷ rows) =
      ground (arith, changes-reverse p rows, changes-append p (reverse rows) x)

  pub changes-select :
      (p q : R → Bool) (rows : List R) → changes q (select p rows) ≡ changes (λ r. p r && q r) rows
  unfolding changes select
  changes-select p q [] = refl
  changes-select p q (x ∷ rows) = ground (arith, changes-select p q rows)

  pub changes-map {κ} :
      {S : Type κ} (p : S → Bool) (f : R → S) (rows : List R)
      → changes p (map f rows) ≡ changes (λ r. p (f r)) rows
  unfolding changes
  changes-map p f [] = refl
  changes-map p f (x ∷ rows) = ground (arith, changes-map p f rows)

  pub All-append {κ} : (P : R → Type κ) (xs ys : List R) → All P xs → All P ys → All P (xs ++ ys)
  All-append P [] ys h k = k
  All-append P (x ∷ xs) ys (h, hs) k = (h, All-append P xs ys hs k)

  pub All-reverse {κ} : (P : R → Type κ) (xs : List R) → All P xs → All P (reverse xs)
  unfolding reverse
  All-reverse P [] h = tt
  All-reverse P (x ∷ xs) (h, hs) = All-append P (reverse xs) (x ∷ []) (All-reverse P xs hs) (h, tt)

  -- What holds of every row holds of the row that is found.
  pub find_where-All {κ} :
      (P : R → Type κ) (p : R → Bool) (rows : List R) (r : R)
      → All P rows
      → find_where p rows ≡ some r
      → P r
  unfolding find_where
  find_where-All P p [] r h e = cc
  find_where-All P p (x ∷ rows) r (h, hs) e = elim (Bool-cases (p x)) [
    | inl hit ↦ subst P (Option.some_inj.0 (sym (rw hit refl) ∙ e)) h
    | inr other ↦ find_where-All P p rows r hs (sym (rw other refl) ∙ e)
  ]

-- With unique keys an UPDATE of one row changes the count of the rows with `p` by that row alone.
pub changes-update {ℓ} :
    {R : Type ℓ}
    → (key : R → String) (p : R → Bool) (f : R → R) (id : String) (rows : List R) (r : R)
    → UniqueKeys key rows
    → find key id rows ≡ some r
    → changes p (update (λ x. key x == id) f rows) + (if p r then 1 else 0)
      ≡ changes p rows + (if p (f r) then 1 else 0)
unfolding find update changes
changes-update key p f id [] r u e = cc
changes-update key p f id (x ∷ rows) r (fresh, u) e = ground (
  arith,
  changes-update key p f id rows r u,
  changes-none key id rows,
  update_unchanged (λ y. key y == id) f rows,
  eq_iff (key x) id,
)
