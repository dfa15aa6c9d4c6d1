-- ===== src/Track.antt =====
-- src/foundation.inc: tracked allocations and error frames, the state of one thread. An allocation
-- is known by the address of its header; `nodes` holds the headers, linked both ways from `head`
-- (`jb_tracked`). A call that dies keeps the changes made before it: an operation returns its
-- result beside the state. The thread is outside OpenMP regions. What the caller's allocator
-- returns is an argument; what a cleanup function does to its context is outside this component,
-- and `ran` logs which ones ran, the last first.
pub mod Links
pub mod Unlink
pub mod Frames
pub mod Abandon
pub mod Leave
pub mod Release
pub mod Cleanups
pub mod Allocate
pub mod Sweep
use mathlib.Core.Option
use jev_bush.Prelude.{
  ℕ, zero, suc, ◌+◌, ◌-◌, ◌*◌, ◌/◌, ◌%◌, ◌^◌, ◌<◌, ◌≡◌, List, [], ◌∷◌, Option, none, some, Bool,
  true, false, not, ◌&&◌, ◌||◌, ltb, leb, ◌==◌, length, if◌then◌else◌,
}
use jev_bush.Fault.{
  Fault, Result, ok, err, out_of_bounds, out_of_memory, invalid_cleanup_registration,
  invalid_cleanup_removal, cleanup_out_of_order, armed_cleanup,
}
use jev_bush.Size.{size_max}

pub data Status : Type 0 where
  status_ok invalid_argument io model_error request_error out_of_memory_error internal : Status

pub record Node : Type 0 where
  pub previous : Option ℕ
  pub next : Option ℕ
  pub size : ℕ
  pub sequence : ℕ
  pub tracked : Bool

-- A cleanup's function and context.
pub record Cleanup : Type 0 where
  pub function : ℕ
  pub context : ℕ

pub record Frame : Type 0 where
  pub address : ℕ
  pub mark : ℕ
  pub previous_status : Status
  pub cleanup_mark : ℕ

abbrev pub Nodes : Type 0
Nodes = ℕ → Option Node

-- `frames` is the chain from `jb_error_frame` over `previous`; `cleanups` is the armed part of
-- `jb_cleanup_stack`, the last first.
pub record Thread : Type 0 where
  pub nodes : Nodes
  pub head : Option ℕ
  pub sequence : ℕ
  pub status : Status
  pub frames : List Frame
  pub cleanups : List Cleanup
  pub ran : List Cleanup

abbrev pub M : Type 0 → Type 0
M V = Thread → Result V × Thread

abbrev pub proceed : {V W : Type 0} → (V → M W) → Result V × Thread → Result W × Thread
proceed next (err fault, t) = (err fault, t)
proceed next (ok v, t) = next v t

infixl 5 ◌>>=◌ ◌>>◌
abbrev pub ◌>>=◌ : {V W : Type 0} → M V → (V → M W) → M W
◌>>=◌ m next t = proceed next (m t)

abbrev pub ◌>>◌ : {W : Type 0} → M (Unit {0}) → M W → M W
m >> n = m >>= λ _. n

abbrev pub done : M (Unit {0})
done t = (ok tt, t)

abbrev pub put_node : Nodes → ℕ → Node → Nodes
put_node nodes p a q = if p == q then some a else nodes q

abbrev pub drop_node : Nodes → ℕ → Nodes
drop_node nodes p q = if p == q then none else nodes q

abbrev pub load : ℕ → M Node
load p t = elim (t.nodes p) [ none ↦ (err out_of_bounds, t) | some a ↦ (ok a, t) ]

abbrev pub store : ℕ → Node → M (Unit {0})
store p a t = (ok tt, record t { nodes = put_node t.nodes p a })

abbrev pub get_head : M (Option ℕ)
get_head t = (ok t.head, t)

abbrev pub set_head : Option ℕ → M (Unit {0})
set_head h t = (ok tt, record t { head = h })

-- `q->link.previous = p`, and nothing at NULL.
abbrev pub set_previous : Option ℕ → Option ℕ → M (Unit {0})
set_previous none p = done
set_previous (some q) p = do b ← load q; store q (record b { previous = p })

-- `if (q) q->link.next = n; else jb_tracked = n;`
abbrev pub set_next : Option ℕ → Option ℕ → M (Unit {0})
set_next none n = set_head n
set_next (some q) n = do b ← load q; store q (record b { next = n })

unfoldable pub link : ℕ → M (Unit {0})
link p = do
  h ← get_head
  a ← load p
  store p (record a { previous = none; next = h })
  set_previous h (some p)
  set_head (some p)

unfoldable pub unlink : ℕ → M (Unit {0})
unlink p = do a ← load p; set_next a.previous a.next; b ← load p; set_previous b.next b.previous

abbrev pub set_status : Status → M (Unit {0})
set_status s t = (ok tt, record t { status = s })

abbrev pub die : {V : Type 0} → Fault → M V
die fault t = (err fault, t)

abbrev pub get : M Thread
get t = (ok t, t)

abbrev pub give : {V : Type 0} → V → M V
give v t = (ok v, t)

abbrev pub drop : ℕ → M (Unit {0})
drop p t = (ok tt, record t { nodes = drop_node t.nodes p })

abbrev pub has_frame : List Frame → Bool
has_frame [] = false
has_frame (f ∷ fs) = true

-- `sizeof(JBAllocation)` where pointers have eight bytes.
abbrev pub header_size : ℕ
header_size = 80

unfoldable pub die_status : {V : Type 0} → Status → Fault → M V
die_status s fault t = (err fault, (if has_frame t.frames then record t { status = s } else t))

unfoldable pub out_of_memory_now : {V : Type 0} → M V
out_of_memory_now = die_status out_of_memory_error out_of_memory

-- A new header at `a`, counted and, inside a frame, linked.
unfoldable pub enlist : ℕ → ℕ → M (Option ℕ)
unfolding link
enlist a n = do
  t ← get
  let number = (t.sequence + 1) % 2 ^ 64
  let tracked = has_frame t.frames
  λ u. (ok tt, record u { sequence = number })
  store a (record { previous = none; next = none; size = n; sequence = number; tracked = tracked })
  if tracked then link a else done
  give (some a)

-- `jb_try_allocate` of `n` bytes, where the allocator returns `got`.
unfoldable pub try_allocate : Option ℕ → ℕ → M (Option ℕ)
unfolding enlist
try_allocate got n =
    if ltb (size_max - header_size) n
    then give none
    else elim got [ none ↦ give none | some a ↦ enlist a n ]

unfoldable pub allocate : Option ℕ → ℕ → M ℕ
unfolding try_allocate out_of_memory_now
allocate got n = do p ← try_allocate got n; elim p [ none ↦ out_of_memory_now | some a ↦ give a ]

unfoldable pub xmalloc : Option ℕ → ℕ → M ℕ
unfolding allocate
xmalloc got n = allocate got (if n == 0 then 1 else n)

unfoldable pub xcalloc : Option ℕ → ℕ → ℕ → M ℕ
unfolding allocate
xcalloc got n z =
    let n' = if n == 0 then 1 else n in
    if not (z == 0) && ltb (size_max / z) n' then out_of_memory_now else allocate got (n' * z)

-- The block at `p` becomes the one at `b`, with its header copied.
abbrev move_node : ℕ → ℕ → M (Unit {0})
move_node p b = do a ← load p; drop p; store b a

abbrev resize : ℕ → ℕ → M (Unit {0})
resize b n = do c ← load b; store b (record c { size = n })

reallocated : Bool → ℕ → Option ℕ → ℕ → M ℕ
unfolding link out_of_memory_now
reallocated tracked p none n = do if tracked then link p else done; out_of_memory_now
reallocated tracked p (some b) n = do
  move_node p b
  if tracked then link b else done
  resize b n
  give b

-- `xrealloc` of a block to `n` bytes, where the allocator returns `got`.
unfoldable pub xrealloc : Option ℕ → Option ℕ → ℕ → M ℕ
unfolding xmalloc unlink reallocated
xrealloc got none n = xmalloc got n
xrealloc got (some p) n =
    let n' = if n == 0 then 1 else n in
    if ltb (size_max - header_size) n'
    then out_of_memory_now
    else (do a ← load p; if a.tracked then unlink p else done; reallocated a.tracked p got n')

unfoldable pub release : Option ℕ → M (Unit {0})
unfolding unlink
release none = done
release (some p) = do a ← load p; if a.tracked then unlink p else done; drop p

forget : ℕ → M (Unit {0})
unfolding unlink
forget p = do
  unlink p
  a ← load p
  store p (record a { tracked = false; previous = none; next = none })

unfoldable pub untrack : Option ℕ → M (Unit {0})
unfolding forget
untrack none = done
untrack (some p) = do a ← load p; if a.tracked then forget p else done
