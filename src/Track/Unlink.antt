-- ===== src/Track/Unlink.antt =====
-- `unlink` and `link` as operations on a thread whose list is well linked.
use mathlib.Core.Option
use mathlib.Core.Option.{some-injective}
use jev_bush.Prelude.{
  ℕ, ◌≡◌, ◌≢◌, refl, sym, ap, subst, ◌∙◌, arith, List, [], ◌∷◌, ◌++◌, Option, none, some, ◌==◌,
  Option-cases, Bool-cases, inl, inr,
}
use jev_bush.Fault.{Result, ok}
use jev_bush.Track.{
  Node, Nodes, Thread, M, proceed, ◌>>=◌, ◌>>◌, load, store, set_previous, set_next, unlink,
}
use jev_bush.Track.Links.{
  All-at, Chain, Chain-split, Chain-remove, forward, backward, forward_other, summary-forward,
  summary-backward, last_or, first_or, summary, NotIn,
}

pub >>=-runs :
    {V W : Type 0} (m : M V) (next : V → M W) (t t' : Thread) (v : V) (r : Result W × Thread)
    → m t ≡ (ok v, t')
    → next v t' ≡ r
    → (m >>= next) t ≡ r
>>=-runs m next t t' v r e h = ap (proceed next) e ∙ h

pub load_runs : (t : Thread) (p : ℕ) (a : Node) → t.nodes p ≡ some a → load p t ≡ (ok a, t)
load_runs t p a e = ground arith

NotIn-none : (xs : List ℕ) → NotIn none xs
NotIn-none [] = tt
NotIn-none (x ∷ xs) = (λ e. cc, NotIn-none xs)

-- The thread after `unlink`.
abbrev pub unlinked : Thread → List ℕ → Node → Thread
unlinked t ys a = record t {
  nodes = backward (forward t.nodes (last_or none ys) a.next) a.next (last_or none ys);
  head = first_or ys t.head a.next;
}

-- NULL, or the address of a header.
abbrev pub HasNode : Nodes → Option ℕ → Type 0
HasNode nodes none = Unit
HasNode nodes (some q) = (b : Node) × (nodes q ≡ some b)

HasNode-last_or :
    (nodes : Nodes) (ys rest : List ℕ) (before head : Option ℕ)
    → HasNode nodes before
    → Chain nodes before head (ys ++ rest)
    → HasNode nodes (last_or before ys)
HasNode-last_or nodes [] rest before head h c = h
HasNode-last_or nodes (y ∷ ys) rest before head h (here, b, at, back, flag, fresh, more) =
    HasNode-last_or nodes ys rest (some y) b.next (b, at) more

pub HasNode-head :
    (nodes : Nodes) (xs : List ℕ) (before head : Option ℕ)
    → Chain nodes before head xs
    → HasNode nodes head
HasNode-head nodes [] before head c = subst (HasNode nodes) (sym c) tt
HasNode-head nodes (x ∷ xs) before head (here, b, at, back, flag, fresh, more) =
    subst (HasNode nodes) (sym here) (b, at)

HasNode-forward :
    (nodes : Nodes) (q n o : Option ℕ) → HasNode nodes o → HasNode (forward nodes q n) o
HasNode-forward nodes q n none h = tt
HasNode-forward nodes none n (some r) h = h
HasNode-forward nodes (some q) n (some r) (b, at) = elim (Option-cases (nodes q)) [
  | inl missing ↦ (b, ground arith)
  | inr (c, here) ↦ elim (Bool-cases (q == r)) [
    | inl same ↦ (record c { next = n }, ground arith)
    | inr other ↦ (b, ground arith)
  ]
]

last_or-ne_next :
    (nodes : Nodes) (ys : List ℕ) (p : ℕ) (zs : List ℕ) (before head : Option ℕ)
    → before ≢ some p
    → Chain nodes before head (ys ++ p ∷ zs)
    → last_or before ys ≢ some p
last_or-ne_next nodes [] p zs before head ne c = ne
last_or-ne_next nodes (y ∷ ys) p zs before head ne (here, b, at, back, flag, fresh, more) =
    last_or-ne_next nodes ys p zs (some y) b.next
      (λ e. All-at (λ z. y ≢ z) ys p zs fresh (some-injective y p e)) more

abbrev head_after : Option ℕ → Option ℕ → Option ℕ → Option ℕ
head_after none n head = n
head_after (some q) n head = head

head_after-last_or :
    (ys : List ℕ) (y : ℕ) (n head : Option ℕ) → head_after (last_or (some y) ys) n head ≡ head
head_after-last_or [] y n head = refl
head_after-last_or (z ∷ ys) y n head = head_after-last_or ys z n head

head_after-first_or :
    (ys : List ℕ) (n head : Option ℕ) → head_after (last_or none ys) n head ≡ first_or ys head n
head_after-first_or [] n head = refl
head_after-first_or (y ∷ ys) n head = head_after-last_or ys y n head

set_next_runs :
    (t : Thread) (q n : Option ℕ)
    → HasNode t.nodes q
    → set_next q n t
      ≡ (ok tt, record t { nodes = forward t.nodes q n; head = head_after q n t.head })
set_next_runs t none n h = refl
set_next_runs t (some q) n (b, at) =
    >>=-runs (load q) (λ b. store q (record b { next = n })) t t b _ (load_runs t q b at)
      (rw (at, forward))

pub set_previous_runs :
    (t : Thread) (r v : Option ℕ)
    → HasNode t.nodes r
    → set_previous r v t ≡ (ok tt, record t { nodes = backward t.nodes r v })
set_previous_runs t none v h = refl
set_previous_runs t (some r) v (b, at) =
    >>=-runs (load r) (λ b. store r (record b { previous = v })) t t b _ (load_runs t r b at)
      (rw (at, backward))

unlink_steps :
    (t t₁ t₂ : Thread) (p : ℕ) (a : Node)
    → t.nodes p ≡ some a
    → set_next a.previous a.next t ≡ (ok tt, t₁)
    → t₁.nodes p ≡ some a
    → set_previous a.next a.previous t₁ ≡ (ok tt, t₂)
    → unlink p t ≡ (ok tt, t₂)
unfolding unlink
unlink_steps t t₁ t₂ p a e₁ e₂ e₃ e₄ =
    let last = λ (b : Node). set_previous b.next b.previous in
    let rest = λ (b : Node). set_next b.previous b.next >> (load p >>= last) in
    >>=-runs (load p) rest t t a _ (load_runs t p a e₁) (
      >>=-runs (set_next a.previous a.next) (λ _. load p >>= last) t t₁ tt _ e₂
        (>>=-runs (load p) last t₁ t₁ a _ (load_runs t₁ p a e₃) e₄))

unlink_runs :
    (t : Thread) (ys : List ℕ) (p : ℕ) (zs : List ℕ) (a : Node)
    → t.nodes p ≡ some a
    → Chain t.nodes none t.head (ys ++ p ∷ zs)
    → unlink p t ≡ (ok tt, unlinked t ys a)
unlink_runs t ys p zs a e c =
    let (b, at, back, flag, fresh, more) = Chain-split t.nodes ys p zs none t.head c in
    let same : b ≡ a = some-injective b a (sym at ∙ e) in
    let prev : a.previous ≡ last_or none ys = rw same at back in
    let q = last_or none ys in
    let node_q = HasNode-last_or t.nodes ys (p ∷ zs) none t.head tt c in
    let node_r =
      HasNode-forward t.nodes q a.next a.next
        (HasNode-head t.nodes zs (some p) a.next (rw same at more)) in
    let apart = last_or-ne_next t.nodes ys p zs none t.head (λ e. cc) c in
    let middle = record t { nodes = forward t.nodes q a.next; head = first_or ys t.head a.next } in
    unlink_steps t middle (unlinked t ys a) p a e
      (rw (prev, ← head_after-first_or ys a.next t.head) (set_next_runs t q a.next node_q))
      (forward_other t.nodes q a.next p apart ∙ e)
      (rw prev (set_previous_runs middle a.next q node_r))

-- `jb_unlink` of a tracked allocation succeeds and takes it out of the list, wherever it stands:
-- the other allocations stay linked both ways in their order. Every header keeps its size, sequence
-- number and mark, and the rest of the thread stays.
pub unlink-Chain :
    (t : Thread) (ys : List ℕ) (p : ℕ) (zs : List ℕ)
    → Chain t.nodes none t.head (ys ++ p ∷ zs)
    → (nodes : Nodes) × (head : Option ℕ) × (unlink p t
        ≡ (ok tt, record t { nodes = nodes; head = head }))
      × Chain nodes none head (ys ++ zs)
      × ((x : ℕ) → Option.map summary (nodes x) ≡ Option.map summary (t.nodes x))
unlink-Chain t ys p zs c =
    let (a, at, back, flag, fresh, more) = Chain-split t.nodes ys p zs none t.head c in
    (
      backward (forward t.nodes (last_or none ys) a.next) a.next (last_or none ys),
      first_or ys t.head a.next,
      unlink_runs t ys p zs a at c,
      Chain-remove t.nodes ys p zs none t.head a at (NotIn-none (ys ++ p ∷ zs)) c,
      λ x.
          summary-backward (forward t.nodes (last_or none ys) a.next) a.next (last_or none ys) x
          ∙ summary-forward t.nodes (last_or none ys) a.next x,
    )
