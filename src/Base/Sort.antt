-- ===== src/Base/Sort.antt =====
-- ORDER BY: a stable insertion sort by a comparison of rows that holds of equal ones.
use mathlib.Core.Bool.{Bool}
use mathlib.Core.List.{List, [], ◌∷◌, Perm}
use mathlib.Core.List.Perm
use native.Mathlib.Omega.{arith}
use icos_v.Base.Tests.{if◌then◌else◌, Bool-cases}
use mathlib.Core.Bool.{true, false≢true}
use mathlib.Core.Path.{◌≡◌, sym, ◌∙◌}
use icos_v.Base.Lists.{All}
use mathlib.Core.Logic.{inl, inr}

-- Each two neighbours are related.
abbrev pub Chain {ℓ} : {R : Type ℓ} → (R → R → Type 0) → List R → Type 0
Chain Q [] = Unit {0}
Chain Q (x ∷ []) = Unit {0}
Chain Q (x ∷ y ∷ rows) = Q x y × Chain Q (y ∷ rows)

pub Chain-weaken {ℓ} :
    {R : Type ℓ} (P Q : R → R → Type 0) (rows : List R)
    → ((x y : R) → P x y → Q x y)
    → Chain P rows
    → Chain Q rows
Chain-weaken P Q [] h c = tt
Chain-weaken P Q (x ∷ []) h c = tt
Chain-weaken P Q (x ∷ y ∷ rows) h (p, c) = (h x y p, Chain-weaken P Q (y ∷ rows) h c)

module _ {ℓ} {R : Type ℓ} (before : R → R → Bool) where
  unfoldable pub insert : R → List R → List R
  insert r [] = r ∷ []
  insert r (x ∷ xs) = let rest = insert r xs in if before r x then r ∷ x ∷ xs else x ∷ rest

  unfoldable pub sort : List R → List R
  unfolding insert
  sort [] = []
  sort (r ∷ rows) = insert r (sort rows)

  insert-perm : (r : R) (xs : List R) → Perm (insert r xs) (r ∷ xs)
  unfolding insert
  insert-perm r [] = Perm.refl (r ∷ [])
  insert-perm r (x ∷ xs) = ground (
    arith,
    Perm.trans (Perm.cons x (insert-perm r xs)) (Perm.swap r x xs),
    Perm.refl (r ∷ x ∷ xs),
  )

  pub sort-perm : (rows : List R) → Perm (sort rows) rows
  unfolding sort
  sort-perm [] = Perm.refl []
  sort-perm (r ∷ rows) = Perm.trans (insert-perm r (sort rows)) (Perm.cons r (sort-perm rows))

  insert-All {κ} : (P : R → Type κ) (r : R) (xs : List R) → P r → All P xs → All P (insert r xs)
  unfolding insert
  insert-All P r [] h hs = (h, tt)
  insert-All P r (x ∷ xs) h (hx, hs) = elim (Bool-cases (before r x)) [
    | inl first ↦ rw first (h, (hx, hs))
    | inr last ↦ rw last (hx, insert-All P r xs h hs)
  ]

  pub sort-All {κ} : (P : R → Type κ) (rows : List R) → All P rows → All P (sort rows)
  unfolding sort
  sort-All P [] h = tt
  sort-All P (r ∷ rows) (h, hs) = insert-All P r (sort rows) h (sort-All P rows hs)

  -- The later row does not go before the earlier one, but for a tie.
  abbrev pub InOrder : R → R → Type 0
  InOrder x y = before y x ≡ true → before x y ≡ true

  insert-Chain_after :
      (x r : R) (xs : List R)
      → InOrder x r
      → Chain InOrder (x ∷ xs)
      → Chain InOrder (insert r xs)
      → Chain InOrder (x ∷ insert r xs)
  unfolding insert
  insert-Chain_after x r [] h c d = (h, tt)
  insert-Chain_after x r (y ∷ xs) h (p, c) d = elim (Bool-cases (before r y)) [
    | inl first ↦ rw first (h, rw first at d)
    | inr last ↦ rw last (p, rw last at d)
  ]

  insert-Chain : (r : R) (xs : List R) → Chain InOrder xs → Chain InOrder (insert r xs)
  unfolding insert
  insert-Chain r [] c = tt
  insert-Chain r (x ∷ xs) c = elim (Bool-cases (before r x)) [
    | inl first ↦ rw first ((λ _. first), c)
    | inr last ↦ rw last (
        insert-Chain_after x r xs (λ h. absurd (false≢true (sym last ∙ h))) c
          (insert-Chain r xs (Chain-rest x xs c)))
  ]
    where
      Chain-rest : (x : R) (xs : List R) → Chain InOrder (x ∷ xs) → Chain InOrder xs
      Chain-rest x [] c = tt
      Chain-rest x (y ∷ xs) (p, c) = c

  pub sort-Chain : (rows : List R) → Chain InOrder (sort rows)
  unfolding sort
  sort-Chain [] = tt
  sort-Chain (r ∷ rows) = insert-Chain r (sort rows) (sort-Chain rows)
