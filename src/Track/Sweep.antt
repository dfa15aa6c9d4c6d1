-- ===== src/Track/Sweep.antt =====
-- The loop of `jb_frame_abandon` over the tracked list.
use mathlib.Core.Option
use mathlib.Core.Option.{some-injective}
use mathlib.Core.List.{append_assoc}
use jev_bush.Prelude.{
  ℕ, zero, suc, ◌≤◌, ◌<◌, ◌≡◌, ◌≢◌, refl, sym, ap, ◌∙◌, arith, List, [], ◌∷◌, ◌++◌, Option, none,
  some, Bool, true, false, ◌&&◌, ◌||◌, ltb, ◌==◌, length, if◌then◌else◌, All, Bool-cases, inl, inr,
  lt→ltb, ltb→lt,
}
use jev_bush.Fault.{Result, ok}
use jev_bush.Track.{Node, Nodes, Thread, ◌>>◌, drop, drop_node, load, unlink}
use jev_bush.Track.Links.{Chain, Chain-split, Chain-Same, Same, summary, All-at}
use jev_bush.Track.Unlink.{>>=-runs, load_runs, unlink-Chain}
use jev_bush.Track.Frames.{abandon_loop}

abbrev pub head_of : List ℕ → Option ℕ
head_of [] = none
head_of (x ∷ xs) = some x

pub Chain-head_of :
    (nodes : Nodes) (xs : List ℕ) (before head : Option ℕ)
    → Chain nodes before head xs
    → head ≡ head_of xs
Chain-head_of nodes [] before head c = c
Chain-head_of nodes (x ∷ xs) before head c = c.0

abbrev pub sequence_of : Option Node → ℕ
sequence_of none = 0
sequence_of (some a) = a.sequence

abbrev pub sequence_at : Nodes → ℕ → ℕ
sequence_at nodes x = sequence_of (nodes x)

-- The allocations that a frame keeps: those from before its mark.
abbrev pub kept : (ℕ → ℕ) → ℕ → List ℕ → List ℕ
kept number mark [] = []
kept number mark (x ∷ xs) =
    if ltb mark (number x) then kept number mark xs else x ∷ kept number mark xs

-- The allocation is one of the list, made after the mark.
abbrev pub is_since : (ℕ → ℕ) → ℕ → List ℕ → ℕ → Bool
is_since number mark [] p = false
is_since number mark (x ∷ xs) p = (x == p && ltb mark (number x)) || is_since number mark xs p

abbrev pub Numbered : (ℕ → ℕ) → Nodes → List ℕ → Type 0
Numbered number nodes = All (λ x. sequence_at nodes x ≡ number x)

Numbered-Same :
    (number : ℕ → ℕ) (nodes nodes' : Nodes) (xs : List ℕ)
    → ((x : ℕ) → Option.map summary (nodes' x) ≡ Option.map summary (nodes x))
    → Numbered number nodes xs
    → Numbered number nodes' xs
Numbered-Same number nodes nodes' [] same h = tt
Numbered-Same number nodes nodes' (x ∷ xs) same h =
    (ground (arith, same x, h.0), Numbered-Same number nodes nodes' xs same h.1)

pub Same-drop :
    (nodes : Nodes) (p : ℕ) (xs : List ℕ) → All (λ y. p ≢ y) xs → Same nodes (drop_node nodes p) xs
Same-drop nodes p [] fresh = tt
Same-drop nodes p (x ∷ xs) fresh = (ground (arith, fresh.0), Same-drop nodes p xs fresh.1)

-- In a chain no address stands twice.
pub Chain-distinct :
    (nodes : Nodes) (ys : List ℕ) (p : ℕ) (zs : List ℕ) (before head : Option ℕ)
    → Chain nodes before head (ys ++ p ∷ zs)
    → All (λ y. p ≢ y) (ys ++ zs)
Chain-distinct nodes [] p zs before head (here, a, at, back, flag, fresh, rest) = fresh
Chain-distinct nodes (y ∷ ys) p zs before head (here, a, at, back, flag, fresh, rest) = (
  λ e. All-at (λ z. y ≢ z) ys p zs fresh (sym e),
  Chain-distinct nodes ys p zs (some y) a.next rest,
)

abandon_step :
    (t t₁ : Thread) (fuel mark p : ℕ) (a : Node) (r : Result (Unit {0}) × Thread)
    → t.nodes p ≡ some a
    → mark < a.sequence
    → unlink p t ≡ (ok tt, t₁)
    → abandon_loop fuel mark a.next (record t₁ { nodes = drop_node t₁.nodes p }) ≡ r
    → abandon_loop (suc fuel) mark (some p) t ≡ r
unfolding abandon_loop
abandon_step t t₁ fuel mark p a r at later e h =
    let loop = abandon_loop fuel mark in
    let body = λ (b : Node).
      if ltb mark b.sequence then unlink p >> (drop p >> loop b.next) else loop b.next in
    >>=-runs (load p) body t t a r (load_runs t p a at)
      (rw (lt→ltb _ _ later) (>>=-runs (unlink p) (λ _. drop p >> loop a.next) t t₁ tt r e h))

abandon_skip :
    (t : Thread) (fuel mark p : ℕ) (a : Node) (r : Result (Unit {0}) × Thread)
    → t.nodes p ≡ some a
    → a.sequence ≤ mark
    → abandon_loop fuel mark a.next t ≡ r
    → abandon_loop (suc fuel) mark (some p) t ≡ r
unfolding abandon_loop
abandon_skip t fuel mark p a r at early h =
    let loop = abandon_loop fuel mark in
    let body = λ (b : Node).
      if ltb mark b.sequence then unlink p >> (drop p >> loop b.next) else loop b.next in
    let old : ltb mark a.sequence ≡ false = ground arith in
    >>=-runs (load p) body t t a r (load_runs t p a at) (rw old h)

-- The outcome of the loop over the rest `zs` of the list `ys ++ zs`.
abbrev pub Swept : (ℕ → ℕ) → ℕ → List ℕ → List ℕ → ℕ → Thread → Type 0
Swept number mark ys zs fuel t =
    (nodes : Nodes) × (head : Option ℕ) × (abandon_loop fuel mark (head_of zs) t
      ≡ (ok tt, record t { nodes = nodes; head = head }))
    × Chain nodes none head (ys ++ kept number mark zs)
    × ((x : ℕ)
        → Option.map summary (nodes x)
          ≡ (if is_since number mark zs x then none else Option.map summary (t.nodes x)))

Numbered-drop :
    (number : ℕ → ℕ) (nodes : Nodes) (p : ℕ) (xs : List ℕ)
    → All (λ y. p ≢ y) xs
    → Numbered number nodes xs
    → Numbered number (drop_node nodes p) xs
Numbered-drop number nodes p [] fresh h = tt
Numbered-drop number nodes p (x ∷ xs) fresh h =
    let same : nodes x ≡ drop_node nodes p x = ground (arith, fresh.0) in
    (ap sequence_of (sym same) ∙ h.0, Numbered-drop number nodes p xs fresh.1 h.1)

Swept-later :
    (number : ℕ → ℕ) (mark z : ℕ) (zs ys : List ℕ) (fuel : ℕ) (t : Thread) (a : Node)
    (nodes₁ : Nodes) (head₁ : Option ℕ)
    → t.nodes z ≡ some a
    → a.next ≡ head_of zs
    → mark < a.sequence
    → ltb mark (number z) ≡ true
    → unlink z t ≡ (ok tt, record t { nodes = nodes₁; head = head₁ })
    → ((x : ℕ) → Option.map summary (nodes₁ x) ≡ Option.map summary (t.nodes x))
    → Swept number mark ys zs fuel (record t { nodes = drop_node nodes₁ z; head = head₁ })
    → Swept number mark ys (z ∷ zs) (suc fuel) t
Swept-later number mark z zs ys fuel t a nodes₁ head₁ at onward later test unlinks same
      (nodes, head, runs, linked, sums) =
    (
      nodes,
      head,
      abandon_step t (record t { nodes = nodes₁; head = head₁ }) fuel mark z a _ at later unlinks
          (rw onward runs),
      rw test linked,
      λ x. ground (arith, sums x, same x, test),
    )

Swept-earlier :
    (number : ℕ → ℕ) (mark z : ℕ) (zs ys : List ℕ) (fuel : ℕ) (t : Thread) (a : Node)
    → t.nodes z ≡ some a
    → a.next ≡ head_of zs
    → a.sequence ≤ mark
    → ltb mark (number z) ≡ false
    → Swept number mark (ys ++ z ∷ []) zs fuel t
    → Swept number mark ys (z ∷ zs) (suc fuel) t
Swept-earlier number mark z zs ys fuel t a at onward early test (nodes, head, runs, linked, sums) =
    (
      nodes,
      head,
      abandon_skip t fuel mark z a _ at early (rw onward runs),
      rw test (rw (append_assoc ys (z ∷ []) (kept number mark zs)) at linked),
      λ x. ground (arith, sums x, test),
    )

pub abandon_loop-Swept :
    (number : ℕ → ℕ) (mark : ℕ) (zs ys : List ℕ) (fuel : ℕ) (t : Thread)
    → length zs ≤ fuel
    → Numbered number t.nodes zs
    → Chain t.nodes none t.head (ys ++ zs)
    → Swept number mark ys zs fuel t
abandon_loop-Swept number mark [] ys fuel t enough numbered c =
    (t.nodes, t.head, unfold abandon_loop in refl, c, λ x. refl)
abandon_loop-Swept number mark (z ∷ zs) ys zero t enough numbered c = absurd (omega arith)
abandon_loop-Swept number mark (z ∷ zs) ys (suc fuel) t enough numbered c =
    let (a, at, back, flag, fresh, more) = Chain-split t.nodes ys z zs none t.head c in
    let onward : a.next ≡ head_of zs = Chain-head_of t.nodes zs (some z) a.next more in
    let its_number : a.sequence ≡ number z = ground (arith, numbered.0) in
    elim (Bool-cases (ltb mark (number z))) [
      | inl later ↦
          let (nodes₁, head₁, unlinks, c₁, same₁) = unlink-Chain t ys z zs c in
          let distinct = Chain-distinct t.nodes ys z zs none t.head c in
          let c₂ =
            Chain-Same nodes₁ (drop_node nodes₁ z) (ys ++ zs) none head₁
              (Same-drop nodes₁ z (ys ++ zs) distinct) c₁ in
          let numbered₂ =
            Numbered-drop number nodes₁ z zs fresh
              (Numbered-Same number t.nodes nodes₁ zs same₁ numbered.1) in
          Swept-later number mark z zs ys fuel t a nodes₁ head₁ at onward
            (rw its_number (ltb→lt _ _ later)) later unlinks same₁
            (abandon_loop-Swept number mark zs ys fuel
              (record t { nodes = drop_node nodes₁ z; head = head₁ }) (omega arith) numbered₂ c₂)
      | inr earlier ↦
          let c' : Chain t.nodes none t.head ((ys ++ z ∷ []) ++ zs) =
            rw (append_assoc ys (z ∷ []) zs) c in
          Swept-earlier number mark z zs ys fuel t a at onward (rw its_number (ground arith))
            earlier
            (abandon_loop-Swept number mark zs (ys ++ z ∷ []) fuel t (omega arith) numbered.1 c')
    ]

pub number_itself : (nodes : Nodes) (xs : List ℕ) → Numbered (sequence_at nodes) nodes xs
number_itself nodes [] = tt
number_itself nodes (x ∷ xs) = (refl, number_itself nodes xs)
