-- ===== src/Base/Table.antt =====
-- SQL tables: rows in rowid order, with the SELECT and UPDATE statements that the code issues.
use Prim.Native.Nat.{ℕ, suc}
use Prim.Native.String.{String}
use mathlib.Core.Path.{◌≡◌, refl}
use mathlib.Core.Bool.{Bool, true, false, not, ◌&&◌, ◌||◌}
use mathlib.Core.Option
use mathlib.Core.Option.{Option, none, some}
use mathlib.Core.List.{List, [], ◌∷◌, ◌++◌}
use native.Mathlib.Omega.{arith}
use text.Mathlib.Text.{◌==◌}
use text.Mathlib.TextEquality.{eq_iff}
use icos_v.Base.Tests.{if◌then◌else◌}
use icos_v.Base.Lists.{All}

module _ {ℓ} {R : Type ℓ} where
  -- SELECT * FROM t WHERE p
  unfoldable pub select : (R → Bool) → List R → List R
  select p [] = []
  select p (r ∷ rows) = let rest = select p rows in if p r then r ∷ rest else rest

  pub select-append :
      (p : R → Bool) (xs ys : List R) → select p (xs ++ ys) ≡ select p xs ++ select p ys
  unfolding select
  select-append p [] ys = refl
  select-append p (x ∷ xs) ys = ground (arith, select-append p xs ys)

  -- UPDATE t SET … WHERE p
  unfoldable pub update : (R → Bool) → (R → R) → List R → List R
  update p f [] = []
  update p f (r ∷ rows) = (if p r then f r else r) ∷ update p f rows

  -- `info.changes` of that UPDATE
  unfoldable pub changes : (R → Bool) → List R → ℕ
  changes p [] = 0
  changes p (r ∷ rows) = let rest = changes p rows in if p r then suc rest else rest

  pub update_unchanged :
      (p : R → Bool) (f : R → R) (rows : List R) → changes p rows ≡ 0 → update p f rows ≡ rows
  unfolding update changes
  update_unchanged p f [] e = refl
  update_unchanged p f (r ∷ rows) e = ground (arith, update_unchanged p f rows)

  -- The rows that an UPDATE … WHERE p would write all satisfy the CHECKs.
  unfoldable pub passes : (R → Bool) → (R → Bool) → List R → Bool
  passes p fine [] = true
  passes p fine (r ∷ rows) = (not (p r) || fine r) && passes p fine rows

  abbrev pub or_else : Option R → Option R → Option R
  or_else none o = o
  or_else (some r) o = some r

module _ {ℓ} {R : Type ℓ} (key : R → String) where
  -- SELECT * FROM t WHERE key = ?, `.get(id)`
  unfoldable pub find : String → List R → Option R
  find id [] = none
  find id (r ∷ rows) = if key r == id then some r else find id rows

  -- PRIMARY KEY
  abbrev pub UniqueKeys : List R → Type ℓ
  UniqueKeys [] = Unit
  UniqueKeys (r ∷ rows) = (find (key r) rows ≡ none) × UniqueKeys rows

  pub find-key : (id : String) (rows : List R) (r : R) → find id rows ≡ some r → key r ≡ id
  unfolding find
  find-key id [] r e = cc
  find-key id (x ∷ rows) r e = ground (arith, eq_iff (key x) id, find-key id rows r)

  pub find-append :
      (id : String) (rows : List R) (r : R)
      → find id (rows ++ r ∷ []) ≡ or_else (find id rows) (if key r == id then some r else none)
  unfolding find
  find-append id [] r = refl
  find-append id (x ∷ rows) r = ground (arith, find-append id rows r)

  pub UniqueKeys-append :
      (rows : List R) (r : R)
      → find (key r) rows ≡ none
      → UniqueKeys rows
      → UniqueKeys (rows ++ r ∷ [])
  unfolding find
  UniqueKeys-append [] r e u = (refl, tt)
  UniqueKeys-append (x ∷ rows) r e u = ground (
    arith,
    find-append (key x) rows r,
    UniqueKeys-append rows r,
    eq_iff (key x) (key r),
    eq_iff (key r) (key x),
  )

  module _ (p : R → Bool) (f : R → R) (keeps : (r : R) → key (f r) ≡ key r) where
    pub find-update :
        (id : String) (rows : List R)
        → find id (update p f rows) ≡ Option.map (λ r. if p r then f r else r) (find id rows)
    unfolding find update
    find-update id [] = refl
    find-update id (x ∷ rows) =
        ground (arith, find-update id rows, keeps x, eq_iff (key x) id, eq_iff (key (f x)) id)

    pub UniqueKeys-update : (rows : List R) → UniqueKeys rows → UniqueKeys (update p f rows)
    unfolding update
    UniqueKeys-update [] u = tt
    UniqueKeys-update (x ∷ rows) (fresh, u) =
        ground (arith, find-update (key x) rows, UniqueKeys-update rows u, keeps x)

  -- With unique keys an UPDATE … WHERE key = ? AND g touches at most one row.
  pub changes_missing :
      (g : R → Bool) (id : String) (rows : List R)
      → find id rows ≡ none
      → changes (λ r. (key r == id) && g r) rows ≡ 0
  unfolding find changes
  changes_missing g id [] e = refl
  changes_missing g id (x ∷ rows) e = ground (arith, changes_missing g id rows)

  pub changes-none :
      (id : String) (rows : List R) → find id rows ≡ none → changes (λ r. key r == id) rows ≡ 0
  unfolding find changes
  changes-none id [] e = refl
  changes-none id (x ∷ rows) e = ground (arith, changes-none id rows)

  pub changes_found :
      (g : R → Bool) (id : String) (rows : List R) (r : R)
      → UniqueKeys rows
      → find id rows ≡ some r
      → changes (λ r. (key r == id) && g r) rows ≡ (if g r then 1 else 0)
  unfolding find changes
  changes_found g id [] r u e = cc
  changes_found g id (x ∷ rows) r (fresh, u) e =
      ground (arith, changes_found g id rows r u, changes_missing g id rows, eq_iff (key x) id)

  pub passes_missing :
      (g fine : R → Bool) (id : String) (rows : List R)
      → find id rows ≡ none
      → passes (λ r. (key r == id) && g r) fine rows ≡ true
  unfolding find passes
  passes_missing g fine id [] e = refl
  passes_missing g fine id (x ∷ rows) e = ground (arith, passes_missing g fine id rows)

  pub passes_found :
      (g fine : R → Bool) (id : String) (rows : List R) (r : R)
      → UniqueKeys rows
      → find id rows ≡ some r
      → passes (λ r. (key r == id) && g r) fine rows ≡ (not (g r) || fine r)
  unfolding find passes
  passes_found g fine id [] r u e = cc
  passes_found g fine id (x ∷ rows) r (fresh, u) e =
      ground
        (arith, passes_found g fine id rows r u, passes_missing g fine id rows, eq_iff (key x) id)

  unfoldable pub has_key : String → List R → Bool
  has_key id [] = false
  has_key id (r ∷ rows) = if key r == id then true else has_key id rows

  pub has_key-select :
      (p : R → Bool) (id : String) (rows : List R) (r : R)
      → find id rows ≡ some r
      → p r ≡ true
      → has_key id (select p rows) ≡ true
  unfolding find select has_key
  has_key-select p id [] r e q = cc
  has_key-select p id (x ∷ rows) r e q = ground (arith, has_key-select p id rows r)

  -- With unique keys, what holds of every row that a lookup finds holds of every row.
  pub All-find {κ} :
      (P : R → Type κ) (rows : List R)
      → UniqueKeys rows
      → ((r : R) → find (key r) rows ≡ some r → P r)
      → All P rows
  unfolding find
  All-find P [] u h = tt
  All-find P (x ∷ rows) (fresh, u) h = (
    h x (ground (arith, eq_iff (key x) (key x))),
    All-find P rows u (λ r e. h r (ground (arith, eq_iff (key x) (key r)))),
  )

-- A row that one unique column finds, the other unique column finds too.
pub find_by {ℓ} :
    {R : Type ℓ}
    → (column other : R → String) (id : String) (rows : List R) (r : R) → UniqueKeys other rows
    → find column id rows ≡ some r
    → find other (other r) rows ≡ some r
unfolding find
find_by column other id [] r u e = cc
find_by column other id (x ∷ rows) r (fresh, u) e = ground (
  arith,
  find_by column other id rows r u,
  eq_iff (other x) (other r),
  eq_iff (other x) (other x),
)

module _ {ℓ} {R : Type ℓ} where
  pub All-select {κ} :
      (P : R → Type κ) (p : R → Bool) (rows : List R)
      → All P rows
      → All (λ r. (p r ≡ true) × P r) (select p rows)
  unfolding select
  All-select P p [] h = tt
  All-select P p (r ∷ rows) (h, hs) = ground (arith, All-select P p rows hs)
