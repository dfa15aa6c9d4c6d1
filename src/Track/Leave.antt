-- ===== src/Track/Leave.antt =====
-- The outermost frame left after success: its allocations go to their owners.
use mathlib.Core.Option
use jev_bush.Prelude.{
  ℕ, zero, suc, ◌≤◌, ◌≡◌, ◌≢◌, refl, ap, subst, ◌∙◌, arith, List, [], ◌∷◌, Option, none, some, Bool,
  true, false, ◌||◌, ◌==◌, length, if◌then◌else◌, All, Bool-cases, inl, inr,
}
use jev_bush.Fault.{Result, ok}
use jev_bush.Track.{Node, Nodes, Frame, Thread, ◌>>◌, load, store, set_head, put_node}
use jev_bush.Track.Links.{Chain, Chain-Same, Same-put}
use jev_bush.Track.Unlink.{>>=-runs, load_runs}
use jev_bush.Track.Frames.{detach_all, frame_leave}

-- A header that is linked nowhere.
abbrev pub owned : Node → Node
owned a = record a { previous = none; next = none; tracked = false }

abbrev pub is_in : ℕ → List ℕ → Bool
is_in x [] = false
is_in x (y ∷ ys) = y == x || is_in x ys

is_in_fresh : (x : ℕ) (ys : List ℕ) → All (λ y. x ≢ y) ys → is_in x ys ≡ false
is_in_fresh x [] fresh = refl
is_in_fresh x (y ∷ ys) fresh = let rest = is_in_fresh x ys fresh.1 in ground (arith, fresh.0)

-- Each header of the list is on its own, the others stay.
abbrev pub Handed : Nodes → List ℕ → Nodes → Type 0
Handed nodes xs nodes' =
    (x : ℕ) → nodes' x ≡ (if is_in x xs then Option.map owned (nodes x) else nodes x)

Handed-cons :
    (nodes nodes' : Nodes) (p : ℕ) (a : Node) (xs : List ℕ)
    → nodes p ≡ some a
    → All (λ y. p ≢ y) xs
    → Handed (put_node nodes p (owned a)) xs nodes'
    → Handed nodes (p ∷ xs) nodes'
Handed-cons nodes nodes' p a xs at fresh handed x = elim (Bool-cases (p == x)) [
  | inl same ↦
      let e : p ≡ x = ground arith in
      let out : is_in x xs ≡ false = subst (λ y. is_in y xs ≡ false) e (is_in_fresh p xs fresh) in
      let here : nodes x ≡ some a = subst (λ y. nodes y ≡ some a) e at in
      handed x ∙ rw (same, out, here) refl
  | inr other ↦ handed x ∙ rw other refl
]

detach_step :
    (t : Thread) (fuel p : ℕ) (a : Node) (r : Result (Unit {0}) × Thread)
    → t.nodes p ≡ some a
    → detach_all fuel a.next (record t { nodes = put_node t.nodes p (owned a); head = a.next }) ≡ r
    → detach_all (suc fuel) (some p) t ≡ r
unfolding detach_all
detach_step t fuel p a r at e =
    >>=-runs (load p) (λ b. set_head b.next >> (store p (owned b) >> detach_all fuel b.next)) t t a
      r (load_runs t p a at) e

detach_all_runs :
    (fuel : ℕ) (xs : List ℕ) (t : Thread) (before : Option ℕ)
    → length xs ≤ fuel
    → Chain t.nodes before t.head xs
    → (nodes : Nodes) × (detach_all fuel t.head t
        ≡ (ok tt, record t { nodes = nodes; head = none }))
      × Handed t.nodes xs nodes
unfolding detach_all
detach_all_runs fuel [] t before enough empty = (
  t.nodes,
  ap (λ h. detach_all fuel h t) empty
      ∙ ap (λ h. let r : Result (Unit {0}) × Thread = (ok tt, record t { head = h }) in r) empty,
  λ x. refl,
)
detach_all_runs zero (x ∷ xs) t before enough c = absurd (omega arith)
detach_all_runs (suc fuel) (x ∷ xs) t before enough (here, a, at, back, flag, fresh, rest) =
    let u = record t { nodes = put_node t.nodes x (owned a); head = a.next } in
    let (nodes, runs, handed) = detach_all_runs fuel xs u (some x) (omega arith) (
      Chain-Same t.nodes u.nodes xs (some x) a.next (Same-put t.nodes x (owned a) xs fresh) rest) in
    (
      nodes,
      ap (λ h. detach_all (suc fuel) h t) here ∙ detach_step t fuel x a _ at runs,
      Handed-cons t.nodes nodes x a xs at fresh handed,
    )

-- When the outermost call succeeds with no cleanup of its own armed, `jb_frame_leave` ends and
-- empties the tracked list: each allocation of it is untracked and linked nowhere, with its size
-- and sequence number, and no other header changes; no frame is left, and the status is that from
-- before the frame.
pub frame_leave-Handed :
    (t : Thread) (fuel : ℕ) (f : Frame) (xs : List ℕ)
    → length xs ≤ fuel
    → Chain t.nodes none t.head xs
    → length t.cleanups ≡ f.cleanup_mark
    → (nodes : Nodes) × (frame_leave fuel f [] t
        ≡ (ok tt, record t { nodes = nodes; head = none; status = f.previous_status; frames = [] }))
      × Handed t.nodes xs nodes
unfolding frame_leave
frame_leave-Handed t fuel f xs enough c mark =
    let left = record t { frames = []; status = f.previous_status } in
    let (nodes, runs, handed) = detach_all_runs fuel xs left none enough c in
    let settled : (length t.cleanups == f.cleanup_mark) ≡ true = ground arith in
    (nodes, rw settled runs, handed)
