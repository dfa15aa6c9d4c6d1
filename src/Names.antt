-- ===== src/Names.antt =====
-- The order of `strcmp`, and what `qsort` does with it.
use jev_bush.Prelude.{
  both_true, ℕ, ◌≡◌, ◌≢◌, refl, sym, subst, arith, List, [], ◌∷◌, Bool, true, false, ◌&&◌, ◌||◌,
  ltb, ◌==◌, length,
}
use mathlib.Core.Logic.{∥∥₁_elim}
use mathlib.Core.HLevel.{¬_prop}
use mathlib.Core.List.{Memᴰ, not-mem-nil}
use mathlib.Core.List.{Mem, Nodup, Pairwise, Perm}
use mathlib.Core.List.Perm
use jev_bush.Json.Primitive.{same_bytes}
use jev_bush.Json.Keys.{has_repeat}

-- `strcmp(x, y) <= 0`.
unfoldable pub name_le : List ℕ → List ℕ → Bool
name_le [] ys = true
name_le (x ∷ xs) [] = false
name_le (x ∷ xs) (y ∷ ys) = let rest = name_le xs ys in ltb x y || (x == y && rest)

unfoldable pub ascending : List (List ℕ) → Bool
unfolding name_le
ascending [] = true
ascending (x ∷ []) = true
ascending (x ∷ y ∷ r) = name_le x y && ascending (y ∷ r)

-- `qsort` by `strcmp` puts the items in an ascending order.
pub record Sorts (qsort : List (List ℕ) → List (List ℕ)) : Type 0 where
  pub permutes : (xs : List (List ℕ)) → Perm (qsort xs) xs
  pub ascends : (xs : List (List ℕ)) → ascending (qsort xs) ≡ true

name_le_trans : (x y z : List ℕ) → name_le x y ≡ true → name_le y z ≡ true → name_le x z ≡ true
unfolding name_le
name_le_trans [] y z h k = refl
name_le_trans (a ∷ x) [] z h k = cc
name_le_trans (a ∷ x) (b ∷ y) [] h k = cc
name_le_trans (a ∷ x) (b ∷ y) (c ∷ z) h k = ground (arith, name_le_trans x y z)

name_le_antisym : (x y : List ℕ) → name_le x y ≡ true → name_le y x ≡ true → same_bytes x y ≡ true
unfolding name_le same_bytes
name_le_antisym [] [] h k = refl
name_le_antisym [] (b ∷ y) h k = cc
name_le_antisym (a ∷ x) [] h k = cc
name_le_antisym (a ∷ x) (b ∷ y) h k = ground (arith, name_le_antisym x y)

name_le_refl : (x : List ℕ) → name_le x x ≡ true
unfolding name_le
name_le_refl [] = refl
name_le_refl (a ∷ x) = ground (arith, name_le_refl x)

both_false : (a b : Bool) → (a || b) ≡ false → (a ≡ false) × (b ≡ false)
both_false false b e = (refl, e)
both_false true b e = cc

true_false : (b : Bool) → b ≡ true → b ≡ false → {A : Type 0} → A
true_false true e f = cc
true_false false e f = cc

least :
    (y z : List ℕ) (l : List (List ℕ))
    → ascending (z ∷ l) ≡ true
    → Memᴰ y (z ∷ l)
    → name_le z y ≡ true
unfolding ascending
least y z l up (Memᴰ.head e) = subst (λ x. name_le z x ≡ true) (sym e) (name_le_refl z)
least y z [] up (Memᴰ.tail d) = elim d [ ]
least y z (w ∷ l) up (Memᴰ.tail d) =
    let (first, rest) = both_true (name_le z w) (ascending (w ∷ l)) up in
    name_le_trans z w y first (least y w l rest d)

different_below :
    (x z y : List ℕ) (l : List (List ℕ))
    → name_le x z ≡ true
    → same_bytes x z ≡ false
    → ascending (z ∷ l) ≡ true
    → Mem y (z ∷ l)
    → x ≢ y
different_below x z y l first other rest inside = ∥∥₁_elim inside ¬_prop λ d e.
    let back = subst (λ w. name_le z w ≡ true) (sym e) (least y z l rest d) in
    let same = name_le_antisym x z first back in true_false (same_bytes x z) same other

-- An ascending list whose neighbours differ has no item twice.
pub ascending-Nodup : (l : List (List ℕ)) → ascending l ≡ true → has_repeat l ≡ false → Nodup l
unfolding ascending has_repeat
ascending-Nodup [] up apart = Pairwise.nil
ascending-Nodup (x ∷ []) up apart = Pairwise.cons (λ y m. absurd (not-mem-nil m)) Pairwise.nil
ascending-Nodup (x ∷ z ∷ l) up apart =
    let (first, rest) = both_true (name_le x z) (ascending (z ∷ l)) up in
    let (other, later) = both_false (same_bytes x z) (has_repeat (z ∷ l)) apart in
    Pairwise.cons (λ y m. different_below x z y l first other rest m)
      (ascending-Nodup (z ∷ l) rest later)

-- Names that a sort brings into an order without equal neighbours are all different.
pub Sorts-Nodup :
    (qsort : List (List ℕ) → List (List ℕ)) (xs : List (List ℕ))
    → Sorts qsort
    → has_repeat (qsort xs) ≡ false
    → Nodup xs
Sorts-Nodup qsort xs sorts apart =
    (Perm.Nodup-iff (sorts.permutes xs)).0 (ascending-Nodup (qsort xs) (sorts.ascends xs) apart)

pub few-Nodup : (xs : List (List ℕ)) → ltb 1 (length xs) ≡ false → Nodup xs
few-Nodup [] few = Pairwise.nil
few-Nodup (x ∷ []) few = Pairwise.cons (λ y m. absurd (not-mem-nil m)) Pairwise.nil
few-Nodup (x ∷ y ∷ xs) few = absurd (ground arith)
