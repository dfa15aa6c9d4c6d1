-- ===== src/Tests/Keys.antt =====
-- The names of an object with two members, with a sort by insertion.
use jev_bush.Prelude.{
  ℕ, ◌≡◌, inl, inr, refl, arith, List, [], ◌∷◌, some, Bool, true, false, ◌&&◌, if◌then◌else◌,
  Bool-cases, both_true, none,
}
use mathlib.Core.List.{Perm}
use mathlib.Core.List.Perm
use jev_bush.Fault.{ok}
use jev_bush.Json.Primitive.{primitive_valid, skip_digits}
use jev_bush.Json.Tokens.{Token, object, string, primitive}
use jev_bush.Json.Keys.{json_tokens}
use jev_bush.Json.Keys.Members.{here, behind, IsName, Apart}
use jev_bush.Json.Keys.Unique.{json_tokens-Apart}
use jev_bush.Names.{name_le, ascending, Sorts}

unfoldable pub insert : List ℕ → List (List ℕ) → List (List ℕ)
unfolding name_le
insert x [] = x ∷ []
insert x (y ∷ ys) = let rest = insert x ys in if name_le x y then x ∷ y ∷ ys else y ∷ rest

unfoldable pub insertion_sort : List (List ℕ) → List (List ℕ)
unfolding insert
insertion_sort [] = []
insertion_sort (x ∷ xs) = insert x (insertion_sort xs)

insert-Perm : (x : List ℕ) (ys : List (List ℕ)) → Perm (insert x ys) (x ∷ ys)
unfolding insert
insert-Perm x [] = Perm.refl (x ∷ [])
insert-Perm x (y ∷ ys) = elim (Bool-cases (name_le x y)) [
  | inl first ↦ rw first (Perm.refl (x ∷ y ∷ ys))
  | inr later ↦ rw later (Perm.trans (Perm.cons y (insert-Perm x ys)) (Perm.swap x y ys))
]

insertion_sort-Perm : (xs : List (List ℕ)) → Perm (insertion_sort xs) xs
unfolding insertion_sort
insertion_sort-Perm [] = Perm.refl []
insertion_sort-Perm (x ∷ xs) =
    Perm.trans (insert-Perm x (insertion_sort xs)) (Perm.cons x (insertion_sort-Perm xs))

name_le_total : (x y : List ℕ) → name_le x y ≡ false → name_le y x ≡ true
unfolding name_le
name_le_total [] y e = cc
name_le_total (a ∷ x) [] e = refl
name_le_total (a ∷ x) (b ∷ y) e = ground (arith, name_le_total x y)

both : (a b : Bool) → a ≡ true → b ≡ true → (a && b) ≡ true
both true true e f = refl
both true false e f = cc
both false b e f = cc

ascending-cons_insert :
    (y x z : List ℕ) (r : List (List ℕ))
    → name_le y x ≡ true
    → name_le y z ≡ true
    → ascending (insert x (z ∷ r)) ≡ true
    → ascending (y ∷ insert x (z ∷ r)) ≡ true
unfolding insert ascending
ascending-cons_insert y x z r first second up = elim (Bool-cases (name_le x z)) [
  | inl e ↦ rw e (both (name_le y x) _ first (rw e at up))
  | inr e ↦ rw e (both (name_le y z) _ second (rw e at up))
]

ascending-insert :
    (x : List ℕ) (ys : List (List ℕ)) → ascending ys ≡ true → ascending (insert x ys) ≡ true
unfolding insert ascending
ascending-insert x [] up = refl
ascending-insert x (y ∷ []) up = elim (Bool-cases (name_le x y)) [
  | inl e ↦ rw e (both (name_le x y) true e refl)
  | inr e ↦ rw e (both (name_le y x) true (name_le_total x y e) refl)
]
ascending-insert x (y ∷ z ∷ r) up = elim (Bool-cases (name_le x y)) [
  | inl e ↦ rw e (both (name_le x y) _ e up)
  | inr e ↦
      let (first, rest) = both_true (name_le y z) (ascending (z ∷ r)) up in
      let more = ascending-insert x (z ∷ r) rest in
      rw e (ascending-cons_insert y x z r (name_le_total x y e) first more)
]

pub ascending-insertion_sort : (xs : List (List ℕ)) → ascending (insertion_sort xs) ≡ true
unfolding insertion_sort ascending
ascending-insertion_sort [] = refl
ascending-insertion_sort (x ∷ xs) =
    ascending-insert x (insertion_sort xs) (ascending-insertion_sort xs)

pub insertion_sort-Sorts : Sorts insertion_sort
insertion_sort-Sorts = record { permutes = insertion_sort-Perm; ascends = ascending-insertion_sort }

-- {"b":1,"a":2}
abbrev pair : List ℕ
pair = b'{' ∷ b'"' ∷ b'b' ∷ b'"' ∷ b':' ∷ b'1' ∷ b',' ∷ b'"' ∷ b'a' ∷ b'"' ∷ b':' ∷ b'2' ∷ b'}' ∷ []

abbrev pair_object : Token
pair_object = record { kind = object; start = 0; end_at = some 13; parent = none; size = 4 }

abbrev pair_tokens : List Token
pair_tokens =
    pair_object
    ∷ record { kind = string; start = 2; end_at = some 3; parent = some 0; size = 0 }
    ∷ record { kind = primitive; start = 5; end_at = some 6; parent = some 0; size = 0 }
    ∷ record { kind = string; start = 8; end_at = some 9; parent = some 0; size = 0 }
    ∷ record { kind = primitive; start = 11; end_at = some 12; parent = some 0; size = 0 }
    ∷ []

pair_accepted : json_tokens insertion_sort pair ≡ ok pair_tokens
unfolding json_tokens primitive_valid skip_digits insertion_sort
pair_accepted = refl

abbrev name_b : Token
name_b = record { kind = string; start = 2; end_at = some 3; parent = some 0; size = 0 }

abbrev name_a : Token
name_a = record { kind = string; start = 8; end_at = some 9; parent = some 0; size = 0 }

b-IsName : IsName pair_tokens 0 1 name_b
b-IsName = record { reached = here; stands = refl; inside = refl }

a-IsName : IsName pair_tokens 0 3 name_a
a-IsName = record { reached = behind {t = name_b} refl refl here; stands = refl; inside = refl }

json_tokens-Apart_example : Apart pair name_b name_a
json_tokens-Apart_example =
    json_tokens-Apart insertion_sort pair pair_tokens 0 1 3 pair_object name_b name_a
      insertion_sort-Sorts pair_accepted refl refl (omega arith) b-IsName a-IsName
      (λ e. omega arith)
