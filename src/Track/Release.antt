-- ===== src/Track/Release.antt =====
-- Releasing a tracked allocation.
use mathlib.Core.Option
use mathlib.Core.Option.{some-injective}
use jev_bush.Prelude.{
  ℕ, ◌≡◌, refl, arith, List, ◌∷◌, ◌++◌, Option, none, some, true, ◌==◌, if◌then◌else◌,
}
use jev_bush.Fault.{ok}
use jev_bush.Track.{Node, Nodes, Thread, ◌>>◌, done, load, drop, drop_node, unlink, release}
use jev_bush.Track.Links.{Chain, Chain-split, Chain-Same, summary}
use jev_bush.Track.Unlink.{>>=-runs, load_runs, unlink-Chain}
use jev_bush.Track.Sweep.{Chain-distinct, Same-drop}

release_runs :
    (t t' : Thread) (p : ℕ) (a : Node)
    → t.nodes p ≡ some a
    → a.tracked ≡ true
    → unlink p t ≡ (ok tt, t')
    → release (some p) t ≡ (ok tt, record t' { nodes = drop_node t'.nodes p })
unfolding release
release_runs t t' p a at flag runs =
    >>=-runs (load p) (λ b. (if b.tracked then unlink p else done) >> drop p) t t a _
      (load_runs t p a at) (rw flag (>>=-runs (unlink p) (λ _. drop p) t t' tt _ runs refl))

-- `jb_release` of a tracked allocation succeeds, wherever it stands in the list: the allocation is
-- gone, the others stay linked both ways in their order with their size and sequence number, and
-- the rest of the thread stays.
pub release-Chain :
    (t : Thread) (ys : List ℕ) (p : ℕ) (zs : List ℕ)
    → Chain t.nodes none t.head (ys ++ p ∷ zs)
    → (nodes : Nodes) × (head : Option ℕ) × (release (some p) t
        ≡ (ok tt, record t { nodes = nodes; head = head }))
      × Chain nodes none head (ys ++ zs)
      × ((x : ℕ)
          → Option.map summary (nodes x)
            ≡ (if p == x then none else Option.map summary (t.nodes x)))
release-Chain t ys p zs c =
    let (a, at, back, flag, fresh, more) = Chain-split t.nodes ys p zs none t.head c in
    let (nodes, head, runs, linked, same) = unlink-Chain t ys p zs c in
    let distinct = Chain-distinct t.nodes ys p zs none t.head c in
    (
      drop_node nodes p,
      head,
      release_runs t (record t { nodes = nodes; head = head }) p a at flag runs,
      Chain-Same nodes (drop_node nodes p) (ys ++ zs) none head
          (Same-drop nodes p (ys ++ zs) distinct) linked,
      λ x. ground (arith, same x),
    )
