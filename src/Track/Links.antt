-- ===== src/Track/Links.antt =====
-- The doubly linked list of tracked allocations, as a list of addresses.
use mathlib.Core.Option
use mathlib.Core.Option.{some-injective}
use jev_bush.Prelude.{
  ℕ, ◌≡◌, ◌≢◌, refl, sym, ap, subst, ◌∙◌, arith, List, [], ◌∷◌, ◌++◌, Option, none, some, Bool,
  true, All,
}
use jev_bush.Track.{Node, Nodes, put_node}

-- The headers of `xs` from `head` on: each points to the next and back to the one before, the
-- first back to `before`; all are marked tracked, and no address stands twice.
abbrev pub Chain : Nodes → Option ℕ → Option ℕ → List ℕ → Type 0
Chain nodes before head [] = head ≡ none
Chain nodes before head (x ∷ xs) =
    (head ≡ some x)
    × (a : Node) × (nodes x ≡ some a)
    × (a.previous ≡ before)
    × (a.tracked ≡ true)
    × All (λ y. x ≢ y) xs
    × Chain nodes (some x) a.next xs

abbrev pub Same : Nodes → Nodes → List ℕ → Type 0
Same nodes nodes' = All (λ x. nodes x ≡ nodes' x)

-- Headers that are not in the list do not matter.
pub Chain-Same :
    (nodes nodes' : Nodes) (xs : List ℕ) (before head : Option ℕ)
    → Same nodes nodes' xs
    → Chain nodes before head xs
    → Chain nodes' before head xs
Chain-Same nodes nodes' [] before head same c = c
Chain-Same nodes nodes' (x ∷ xs) before head same (here, a, at, back, flag, fresh, rest) = (
  here,
  a,
  sym same.0 ∙ at,
  back,
  flag,
  fresh,
  Chain-Same nodes nodes' xs (some x) a.next same.1 rest,
)

pub Same-put :
    (nodes : Nodes) (p : ℕ) (a : Node) (xs : List ℕ)
    → All (λ y. p ≢ y) xs
    → Same nodes (put_node nodes p a) xs
Same-put nodes p a [] fresh = tt
Same-put nodes p a (x ∷ xs) fresh = (ground (arith, fresh.0), Same-put nodes p a xs fresh.1)

-- The stores of `unlink`: the link forward out of `q`, and the link back out of `r`.
abbrev pub forward : Nodes → Option ℕ → Option ℕ → Nodes
forward nodes none n = nodes
forward nodes (some q) n = elim (nodes q) [
  | none ↦ nodes
  | some b ↦ put_node nodes q (record b { next = n })
]

abbrev pub backward : Nodes → Option ℕ → Option ℕ → Nodes
backward nodes none v = nodes
backward nodes (some r) v = elim (nodes r) [
  | none ↦ nodes
  | some b ↦ put_node nodes r (record b { previous = v })
]

pub forward_other :
    (nodes : Nodes) (q n : Option ℕ) (x : ℕ) → q ≢ some x → forward nodes q n x ≡ nodes x
forward_other nodes none n x ne = refl
forward_other nodes (some q) n x ne =
    let apart : q ≢ x = λ e. ne (ap some e) in ground (arith, apart)

pub backward_other :
    (nodes : Nodes) (r v : Option ℕ) (x : ℕ) → r ≢ some x → backward nodes r v x ≡ nodes x
backward_other nodes none v x ne = refl
backward_other nodes (some r) v x ne =
    let apart : r ≢ x = λ e. ne (ap some e) in ground (arith, apart)

-- The address is not one of those.
abbrev pub NotIn : Option ℕ → List ℕ → Type 0
NotIn o = All (λ x. o ≢ some x)

NotIn-some : (y : ℕ) (xs : List ℕ) → All (λ x. y ≢ x) xs → NotIn (some y) xs
NotIn-some y [] h = tt
NotIn-some y (x ∷ xs) h = (λ e. h.0 (some-injective y x e), NotIn-some y xs h.1)

pub head-ne :
    (nodes : Nodes) (zs : List ℕ) (before head : Option ℕ) (y : ℕ)
    → Chain nodes before head zs
    → All (λ x. y ≢ x) zs
    → head ≢ some y
head-ne nodes [] before head y c fresh e = cc
head-ne nodes (z ∷ zs) before head y c fresh e = fresh.0 (some-injective y z (sym e ∙ c.0))

Same-forward :
    (nodes : Nodes) (q n : Option ℕ) (xs : List ℕ) → NotIn q xs → Same nodes (forward nodes q n) xs
Same-forward nodes q n [] h = tt
Same-forward nodes q n (x ∷ xs) h =
    (sym (forward_other nodes q n x h.0), Same-forward nodes q n xs h.1)

-- A list taken over by another predecessor.
pub Chain-backward :
    (nodes : Nodes) (xs : List ℕ) (before before' head : Option ℕ)
    → Chain nodes before head xs
    → Chain (backward nodes head before') before' head xs
Chain-backward nodes [] before before' head c = c
Chain-backward nodes (x ∷ xs) before before' head (here, a, at, back, flag, fresh, rest) =
    let stored : backward nodes head before' ≡ put_node nodes x (record a { previous = before' }) =
      ap (λ h. backward nodes h before') here ∙ rw (at, backward) in
    subst (λ stores. Chain stores before' head (x ∷ xs)) (sym stored)
      (
        here,
        record a { previous = before' },
        ground arith,
        refl,
        flag,
        fresh,
        Chain-Same nodes _ xs (some x) a.next (Same-put nodes x _ xs fresh) rest,
      )

abbrev pub last_or : Option ℕ → List ℕ → Option ℕ
last_or before [] = before
last_or before (y ∷ ys) = last_or (some y) ys

abbrev pub first_or : List ℕ → Option ℕ → Option ℕ → Option ℕ
first_or [] head n = n
first_or (y ∷ ys) head n = head

-- The header at `p` inside the list.
pub Chain-split :
    (nodes : Nodes) (ys : List ℕ) (p : ℕ) (zs : List ℕ) (before head : Option ℕ)
    → Chain nodes before head (ys ++ p ∷ zs)
    → (a : Node) × (nodes p ≡ some a)
      × (a.previous ≡ last_or before ys)
      × (a.tracked ≡ true)
      × All (λ y. p ≢ y) zs
      × Chain nodes (some p) a.next zs
Chain-split nodes [] p zs before head (here, a, at, back, flag, fresh, rest) =
    (a, at, back, flag, fresh, rest)
Chain-split nodes (y ∷ ys) p zs before head (here, b, at, back, flag, fresh, rest) =
    Chain-split nodes ys p zs (some y) b.next rest

module _ (P : ℕ → Type 0) where
  All-behind : (ys : List ℕ) (p : ℕ) (zs : List ℕ) → All P (ys ++ p ∷ zs) → All P zs
  All-behind [] p zs h = h.1
  All-behind (y ∷ ys) p zs h = All-behind ys p zs h.1

  pub All-at : (ys : List ℕ) (p : ℕ) (zs : List ℕ) → All P (ys ++ p ∷ zs) → P p
  All-at [] p zs h = h.0
  All-at (y ∷ ys) p zs h = All-at ys p zs h.1

  All-before : (ys : List ℕ) (p : ℕ) (zs : List ℕ) → All P (ys ++ p ∷ zs) → All P ys
  All-before [] p zs h = tt
  All-before (y ∷ ys) p zs h = (h.0, All-before ys p zs h.1)

  All-without : (ys : List ℕ) (p : ℕ) (zs : List ℕ) → All P (ys ++ p ∷ zs) → All P (ys ++ zs)
  All-without [] p zs h = h.1
  All-without (y ∷ ys) p zs h = (h.0, All-without ys p zs h.1)

last_or-ne : (ys : List ℕ) (x y : ℕ) → y ≢ x → All (λ z. y ≢ z) ys → last_or (some x) ys ≢ some y
last_or-ne [] x y ne h e = ne (sym (some-injective x y e))
last_or-ne (z ∷ ys) x y ne h e = last_or-ne ys z y h.0 h.1 e

-- Out of the middle: after the two stores the rest of the list is linked without `p`.
pub Chain-remove :
    (nodes : Nodes) (ys : List ℕ) (p : ℕ) (zs : List ℕ) (before head : Option ℕ) (a : Node)
    → nodes p ≡ some a
    → NotIn before (ys ++ p ∷ zs)
    → Chain nodes before head (ys ++ p ∷ zs)
    → Chain
        (backward (forward nodes (last_or before ys) a.next) a.next (last_or before ys))
        before
        (first_or ys head a.next)
        (ys ++ zs)
Chain-remove nodes [] p zs before head a e apart (here, b, at, back, flag, fresh, rest) =
    let same : b ≡ a = some-injective b a (sym at ∙ e) in
    Chain-backward (forward nodes before a.next) zs (some p) before a.next (
      Chain-Same nodes _ zs (some p) a.next (Same-forward nodes before a.next zs apart.1)
        (rw same at rest))
Chain-remove nodes (y ∷ []) p zs before head a e apart (here, b, at, back, flag, fresh, rest) =
    let (c, at_p, back_p, flag_p, fresh_p, rest_p) =
      Chain-split nodes [] p zs (some y) b.next rest in
    let same : c ≡ a = some-injective c a (sym at_p ∙ e) in
    let onward = head-ne nodes zs (some p) a.next y (rw same at rest_p) fresh.1 in
    (
      here,
      record b { next = a.next },
      backward_other (forward nodes (some y) a.next) a.next (some y) y onward ∙ ground arith,
      back,
      flag,
      fresh.1,
      Chain-remove nodes [] p zs (some y) b.next a e (NotIn-some y (p ∷ zs) fresh) rest,
    )
Chain-remove nodes (y ∷ y' ∷ ys) p zs before head a e apart (here, b, at, back, flag, fresh, rest) =
    let (c, at_p, back_p, flag_p, fresh_p, rest_p) =
      Chain-split nodes (y' ∷ ys) p zs (some y) b.next rest in
    let same : c ≡ a = some-injective c a (sym at_p ∙ e) in
    let onward =
      head-ne nodes zs (some p) a.next y (rw same at rest_p)
        (All-behind (λ x. y ≢ x) (y' ∷ ys) p zs fresh) in
    let before_p = last_or (some y') ys in
    let inner = last_or-ne ys y' y fresh.0 (All-before (λ x. y ≢ x) ys p zs fresh.1) in
    (
      here,
      b,
      backward_other (forward nodes before_p a.next) a.next before_p y onward
          ∙ forward_other nodes before_p a.next y inner
          ∙ at,
      back,
      flag,
      All-without (λ x. y ≢ x) (y' ∷ ys) p zs fresh,
      Chain-remove nodes (y' ∷ ys) p zs (some y) b.next a e
          (NotIn-some y ((y' ∷ ys) ++ p ∷ zs) fresh) rest,
    )

-- What `link` and `unlink` leave alone in every header.
abbrev pub summary : Node → ℕ × ℕ × Bool
summary a = (a.size, a.sequence, a.tracked)

pub summary-forward :
    (nodes : Nodes) (q n : Option ℕ) (x : ℕ)
    → Option.map summary (forward nodes q n x) ≡ Option.map summary (nodes x)
summary-forward nodes none n x = refl
summary-forward nodes (some q) n x = ground arith

pub summary-backward :
    (nodes : Nodes) (r v : Option ℕ) (x : ℕ)
    → Option.map summary (backward nodes r v x) ≡ Option.map summary (nodes x)
summary-backward nodes none v x = refl
summary-backward nodes (some r) v x = ground arith
