-- ===== src/Device/Owned/Ledger.antt =====
-- A session's workspace and the accelerator agree on the blocks that are out.
use jev_bush.Prelude.{
  ℕ, ◌+◌, ◌≤◌, ◌≡◌, ◌⊎◌, inl, inr, refl, sym, ap, subst, ◌∙◌, arith, List, [], ◌∷◌, Bool, true,
  false, ltb, ◌==◌, if◌then◌else◌, Bool-cases,
}
use jev_bush.Fault.{out_of_page_locked_memory, accelerator_out_of_memory, Fault, Result, ok, err}
use jev_bush.Size.{size_mul}
use jev_bush.Device.Layout.{kv_stage_offset}
use jev_bush.Device.Owned.{
  Block, no_block, Owner, Live, give_back, enlarge, Ended, begin_pinned, begin_device, layout_bytes,
  device_begin, device_scratch, drop_block,
}

-- How often an address is in a list.
abbrev pub count : ℕ → List ℕ → ℕ
count a [] = 0
count a (p ∷ live) = (if p == a then 1 else 0) + count a live

abbrev pub owns : ℕ → Block → ℕ
owns a b = if b.address == 0 then 0 else if b.address == a then 1 else 0

-- A block without an address has no bytes.
abbrev pub Sane : Block → Type 0
Sane b = b.address ≡ 0 → b.bytes ≡ 0

-- The blocks that are out are those that the workspace has, each as often as it has it.
pub record Owned (o : Owner) (l : Live) : Type 0 where
  pub on_device : (a : ℕ) → count a l.on_device ≡ owns a o.device + owns a o.scratch
  pub on_host : (a : ℕ) → count a l.on_host ≡ owns a o.pinned
  pub device : Sane o.device
  pub pinned : Sane o.pinned
  pub scratch : Sane o.scratch

give_back-ok :
    (a : ℕ) (live : List ℕ)
    → 1 ≤ count a live
    → (rest : List ℕ) × (give_back a live ≡ ok rest)
      × ((x : ℕ) → count x live ≡ (if a == x then 1 else 0) + count x rest)
unfolding give_back
give_back-ok a [] h = absurd (omega arith)
give_back-ok a (p ∷ live) h = elim (Bool-cases (p == a)) [
  | inl hit ↦
      let same : p ≡ a = ground arith in
      (live, rw hit refl, λ x. ap (λ q. (if q == x then 1 else 0) + count x live) same)
  | inr other ↦
      let there : 1 ≤ count a live = ground (arith, h) in
      let (rest, runs, counts) = give_back-ok a live there in
      (p ∷ rest, rw (other, runs) refl, λ x. omega (arith, counts x))
]

-- Giving a block back, where there is one.
pub drop_block-ok :
    (b : Block) (live : List ℕ) (others : ℕ → ℕ)
    → ((a : ℕ) → count a live ≡ owns a b + others a)
    → (rest : List ℕ) × (drop_block b live ≡ ok rest) × ((a : ℕ) → count a rest ≡ others a)
unfolding drop_block
drop_block-ok b live others counts = elim (Bool-cases (b.address == 0)) [
  | inl nowhere ↦ (live, rw nowhere refl, λ a. (let here = counts a in ground (arith, here)))
  | inr somewhere ↦
      let it = counts b.address in
      let there : 1 ≤ count b.address live = ground (arith, it) in
      let (rest, runs, counts') = give_back-ok b.address live there in
      (
        rest,
        rw (somewhere, runs) refl,
        λ a. (let here = counts a in let left = counts' a in ground (arith, here, left)),
      )
]

-- What enlarging a block leaves.
pub record Enlarged (want : ℕ) (others : ℕ → ℕ) (v : Bool × Block × List ℕ) : Type 0 where
  pub counts : (a : ℕ) → count a v.2 ≡ owns a v.1 + others a
  pub sane : Sane v.1
  pub enough : v.0 ≡ true → want ≤ v.1.bytes

enlarge-ok :
    (want got : ℕ) (b : Block) (live : List ℕ) (others : ℕ → ℕ)
    → Sane b
    → ((a : ℕ) → count a live ≡ owns a b + others a)
    → (v : Bool × Block × List ℕ) × (enlarge want got b live ≡ ok v) × Enlarged want others v
unfolding enlarge drop_block
enlarge-ok want got b live others sane counts = elim (Bool-cases (ltb b.bytes want)) [
  | inr large ↦ (
    (true, b, live),
    rw large refl,
    record { counts = counts; sane = sane; enough = λ _. ground arith },
  )
  | inl small ↦
      let (left, runs, counts') = drop_block-ok b live others counts in
      elim (Bool-cases (got == 0)) [
        | inl failed ↦ (
          (false, no_block, left),
          rw (small, runs, failed) refl,
          record { counts = λ a. omega (arith, counts' a); sane = λ _. refl; enough = λ e. cc },
        )
        | inr given ↦ (
          (true, record { address = got; bytes = want }, got ∷ left),
          rw (small, runs, given) refl,
          record {
            counts = λ a. rw given (omega (arith, counts' a));
            sane = λ e. absurd (ground arith);
            enough = λ _. omega arith;
          },
        )
      ]
]

-- A call ends; the blocks that are out are still those of the workspace, and a result is as `P`
-- says of it and of the workspace.
abbrev pub Keeps : (Owner → ℕ → Type 0) → Result (Ended ℕ) → Type 0
Keeps P r =
    (e : Ended ℕ) × (r ≡ ok e)
    × Owned e.owner e.live
    × ((address : ℕ) → e.result ≡ ok address → P e.owner address)

if_ok : (b : Bool) (x y : ℕ) (fault : Fault) → (if b then ok x else err fault) ≡ ok y → y ≡ x
if_ok true x y fault e = cc
if_ok false x y fault e = cc

begin_pinned-Keeps :
    (got : ℕ) (staged : Result ℕ) (o : Owner) (l : Live)
    → Owned o l
    → Keeps
        (λ o' address. (o'.device ≡ o.device) × (address ≡ o.device.address))
        (begin_pinned got staged o l)
unfolding begin_pinned
begin_pinned-Keeps got (err fault) o l owned =
    (record { owner = o; live = l; result = err fault }, refl, owned, λ address e. cc)
begin_pinned-Keeps got (ok staged) o l owned =
    let (v, runs, enlarged) =
      enlarge-ok staged got o.pinned l.on_host (λ _. 0) owned.pinned
        (λ a. omega (arith, owned.on_host a)) in
    (
      record {
        owner = record o { pinned = v.1 };
        live = record l { on_host = v.2 };
        result = if v.0 then ok o.device.address else err out_of_page_locked_memory;
      },
      rw runs refl,
      record {
        on_device = owned.on_device;
        on_host = λ a. omega (arith, enlarged.counts a);
        device = owned.device;
        pinned = enlarged.sane;
        scratch = owned.scratch;
      },
      λ address e. (refl, if_ok v.0 o.device.address address out_of_page_locked_memory e),
    )

-- The base is the workspace's block on the device, which has the bytes asked for.
abbrev pub Based : Result ℕ → Owner → ℕ → Type 0
Based size o address =
    (address ≡ o.device.address) × (bytes : ℕ) × (size ≡ ok bytes) × (bytes ≤ o.device.bytes)

begin_device-Keeps :
    (got_device got_host n : ℕ) (size : Result ℕ) (o : Owner) (l : Live)
    → Owned o l
    → Keeps (Based size) (begin_device got_device got_host n size o l)
unfolding begin_device
begin_device-Keeps got_device got_host n (err fault) o l owned =
    (record { owner = o; live = l; result = err fault }, refl, owned, λ address e. cc)
begin_device-Keeps got_device got_host n (ok bytes) o l owned =
    let ((there, block, left), runs, enlarged) =
      enlarge-ok bytes got_device o.device l.on_device (λ a. owns a o.scratch) owned.device
        owned.on_device in
    let o' = record o { device = block } in
    let l' = record l { on_device = left } in
    let owned' : Owned o' l' = record {
      on_device = enlarged.counts;
      on_host = owned.on_host;
      device = enlarged.sane;
      pinned = owned.pinned;
      scratch = owned.scratch;
    } in
    elim (Bool-cases there) [
      | inl is ↦
          let (e, ends, kept, based) =
            begin_pinned-Keeps got_host (size_mul (kv_stage_offset n 30) 4) o' l' owned' in
          (
            e,
            rw (runs, is) ends,
            kept,
            λ address result.
                let (same, at) = based address result in
                (
                  at ∙ ap (λ (b : Block). b.address) (sym same),
                  bytes,
                  refl,
                  subst (λ (b : Block). bytes ≤ b.bytes) (sym same) (enlarged.enough is),
                ),
          )
      | inr failed ↦ (
        record { owner = o'; live = l'; result = err accelerator_out_of_memory },
        rw (runs, failed) refl,
        owned',
        λ address e. cc,
      )
    ]

-- `dg_device_begin` ends, whatever the accelerator's allocator returns, and never gives back a
-- block that is not out: behind it, also when it dies, the blocks that are out are those that the
-- workspace has, each once for each field that has it. A base that it returns is the workspace's
-- block on the device, which has all the bytes of the layout.
pub device_begin-Keeps :
    (nvfp4_scratch : ℕ → ℕ) (got_device got_host n kv_rows : ℕ) (o : Owner) (l : Live)
    → Owned o l
    → Keeps
        (Based (layout_bytes nvfp4_scratch n kv_rows))
        (device_begin nvfp4_scratch got_device got_host n kv_rows o l)
unfolding device_begin
device_begin-Keeps nvfp4_scratch got_device got_host n kv_rows o l owned =
    begin_device-Keeps got_device got_host n (layout_bytes nvfp4_scratch n kv_rows) o l owned

chosen :
    (b : Bool) (x want have : ℕ)
    → (b ≡ true → want ≤ have)
    → ((if b then x else 0) ≡ 0) ⊎ (((if b then x else 0) ≡ x) × (want ≤ have))
chosen true x want have h = inr (refl, h refl)
chosen false x want have h = inl refl

-- A call ends without dying; the blocks that are out are still those of the workspace, and the
-- result is as `P` says.
abbrev pub Gives : (Owner → ℕ → Type 0) → Result (Ended ℕ) → Type 0
Gives P r =
    (e : Ended ℕ) × (address : ℕ) × (r ≡ ok e)
    × (e.result ≡ ok address)
    × Owned e.owner e.live
    × P e.owner address

-- `dg_device_scratch` ends, whatever the accelerator's allocator returns, without dying and without
-- giving back a block that is not out: the blocks that are out are still those that the workspace
-- has, and it does return something: 0, or the address of the scratch block, which has the bytes
-- asked for.
pub device_scratch-Gives :
    (got bytes : ℕ) (o : Owner) (l : Live)
    → Owned o l
    → Gives
        (λ o' address.
          (address ≡ 0) ⊎ ((address ≡ o'.scratch.address) × (bytes ≤ o'.scratch.bytes)))
        (device_scratch got bytes o l)
unfolding device_scratch
device_scratch-Gives got bytes o l owned =
    let ((there, block, left), runs, enlarged) =
      enlarge-ok bytes got o.scratch l.on_device (λ a. owns a o.device) owned.scratch
        (λ a. omega (arith, owned.on_device a)) in
    (
      record {
        owner = record o { scratch = block };
        live = record l { on_device = left };
        result = ok (if there then block.address else 0);
      },
      if there then block.address else 0,
      rw runs refl,
      refl,
      record {
        on_device = λ a. omega (arith, enlarged.counts a);
        on_host = owned.on_host;
        device = owned.device;
        pinned = owned.pinned;
        scratch = enlarged.sane;
      },
      chosen there block.address bytes block.bytes enlarged.enough,
    )
