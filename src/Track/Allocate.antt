-- ===== src/Track/Allocate.antt =====
-- Allocation inside a frame.
use mathlib.Core.Option
use mathlib.Core.Option.{some-injective}
use jev_bush.Prelude.{
  ℕ, ◌+◌, ◌-◌, ◌%◌, ◌^◌, ◌≤◌, ◌≡◌, ◌≢◌, refl, ap, ◌∙◌, arith, List, [], ◌∷◌, Option, none, some,
  true, false, ltb, ◌==◌, if◌then◌else◌, All,
}
use jev_bush.Fault.{ok}
use jev_bush.Size.{size_max}
use jev_bush.Track.{
  Node, Nodes, Thread, proceed, ◌>>=◌, ◌>>◌, give, put_node, has_frame, load, store, set_head,
  set_previous, link, header_size, enlist, try_allocate,
}
use jev_bush.Track.Links.{
  backward_other, head-ne, Chain, Chain-Same, Chain-backward, Same-put, backward, summary-backward,
  summary,
}
use jev_bush.Track.Unlink.{>>=-runs, load_runs, set_previous_runs, HasNode-head}

fresh_address :
    (nodes : Nodes) (xs : List ℕ) (before head : Option ℕ) (a : ℕ)
    → nodes a ≡ none
    → Chain nodes before head xs
    → All (λ x. a ≢ x) xs
fresh_address nodes [] before head a e c = tt
fresh_address nodes (x ∷ xs) before head a e (here, b, at, back, flag, fresh, rest) =
    (λ same. cc (ap nodes same), fresh_address nodes xs (some x) b.next a e rest)

-- The header that `enlist` stores and links.
abbrev new_node : ℕ → ℕ → Option ℕ → Node
new_node n number next = record {
  previous = none;
  next = next;
  size = n;
  sequence = number;
  tracked = true;
}

link_runs :
    (t : Thread) (p : ℕ) (a : Node) (xs : List ℕ)
    → t.nodes p ≡ some a
    → All (λ x. p ≢ x) xs
    → Chain t.nodes none t.head xs
    → link p t ≡ (
      ok tt,
      record t {
        nodes =
            backward
              (put_node t.nodes p (record a { previous = none; next = t.head }))
              t.head
              (some p);
        head = some p;
      },
    )
unfolding link
link_runs t p a xs at fresh c =
    let stored = record a { previous = none; next = t.head } in
    let nodes₁ = put_node t.nodes p stored in
    let c₁ = Chain-Same t.nodes nodes₁ xs none t.head (Same-put t.nodes p stored xs fresh) c in
    let back =
      set_previous_runs (record t { nodes = nodes₁ }) t.head (some p)
        (HasNode-head nodes₁ xs none t.head c₁) in
    let last = λ (_ : Unit {0}). set_head (some p) in
    let rest = λ (b : Node).
      store p (record b { previous = none; next = t.head })
      >> (set_previous t.head (some p) >>= last) in
    >>=-runs (load p) rest t t a _ (load_runs t p a at)
      (>>=-runs (set_previous t.head (some p)) last (record t { nodes = nodes₁ }) _ tt _ back refl)

link-Chain :
    (t : Thread) (p : ℕ) (a : Node) (xs : List ℕ)
    → t.nodes p ≡ some a
    → a.tracked ≡ true
    → All (λ x. p ≢ x) xs
    → Chain t.nodes none t.head xs
    → Chain
        (backward
          (put_node t.nodes p (record a { previous = none; next = t.head }))
          t.head
          (some p))
        none
        (some p)
        (p ∷ xs)
link-Chain t p a xs at flag fresh c =
    let stored = record a { previous = none; next = t.head } in
    let nodes₁ = put_node t.nodes p stored in
    let c₁ = Chain-Same t.nodes nodes₁ xs none t.head (Same-put t.nodes p stored xs fresh) c in
    (
      refl,
      stored,
      backward_other nodes₁ t.head (some p) p (head-ne t.nodes xs none t.head p c fresh)
          ∙ ground arith,
      refl,
      flag,
      fresh,
      Chain-backward nodes₁ xs none (some p) t.head c₁,
    )

-- The thread when `enlist` comes to link its header.
abbrev counted : Thread → ℕ → ℕ → Thread
counted t a n = record t {
  nodes = put_node t.nodes a (new_node n ((t.sequence + 1) % 2 ^ 64) none);
  sequence = (t.sequence + 1) % 2 ^ 64;
}

enlist_runs :
    (t t' : Thread) (a n : ℕ)
    → has_frame t.frames ≡ true
    → link a (counted t a n) ≡ (ok tt, t')
    → enlist a n t ≡ (ok (some a), t')
unfolding enlist
enlist_runs t t' a n framed e = rw framed (ap (proceed (λ _. give (some a))) e)

try_allocate_runs :
    (t t' : Thread) (a n : ℕ)
    → n ≤ size_max - header_size
    → enlist a n t ≡ (ok (some a), t')
    → try_allocate (some a) n t ≡ (ok (some a), t')
unfolding try_allocate
try_allocate_runs t t' a n small e =
    let fits : ltb (size_max - header_size) n ≡ false = ground arith in rw fits e

-- Inside a frame, where the caller's allocator returns the address `a` of no live header,
-- `jb_try_allocate` returns `a`, links the new header before the others with the size asked for and
-- the next sequence number, and changes no other header's size, number or mark. The rest of the
-- thread stays.
pub try_allocate-Chain :
    (t : Thread) (a n : ℕ) (xs : List ℕ)
    → has_frame t.frames ≡ true
    → n ≤ size_max - header_size
    → t.nodes a ≡ none
    → Chain t.nodes none t.head xs
    → (nodes : Nodes) × (try_allocate (some a) n t ≡ (
      ok (some a),
      record t { nodes = nodes; head = some a; sequence = (t.sequence + 1) % 2 ^ 64 },
    ))
      × Chain nodes none (some a) (a ∷ xs)
      × ((x : ℕ)
          → Option.map summary (nodes x) ≡ (
              if a == x
              then some (n, (t.sequence + 1) % 2 ^ 64, true)
              else Option.map summary (t.nodes x)))
try_allocate-Chain t a n xs framed small unused c =
    let u = counted t a n in
    let made = new_node n ((t.sequence + 1) % 2 ^ 64) none in
    let fresh = fresh_address t.nodes xs none t.head a unused c in
    let here : u.nodes a ≡ some made = ground arith in
    let c₁ = Chain-Same t.nodes u.nodes xs none t.head (Same-put t.nodes a made xs fresh) c in
    let linked = link_runs u a made xs here fresh c₁ in
    (
      backward (put_node u.nodes a (record made { previous = none; next = t.head })) t.head
          (some a),
      try_allocate_runs t _ a n small (enlist_runs t _ a n framed linked),
      link-Chain u a made xs here refl fresh c₁,
      λ x.
          summary-backward (put_node u.nodes a (record made { previous = none; next = t.head }))
            t.head (some a) x
          ∙ ground arith,
    )
