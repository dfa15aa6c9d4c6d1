-- ===== src/Workspace/Slab.antt =====
-- The K/V slab: `dg_kv_bytes` plans what `dg_kv_bind` then allocates.
use jev_bush.Prelude.{
  ℕ, zero, suc, ◌+◌, ◌*◌, ◌%◌, ◌^◌, ◌≤◌, ◌<◌, ◌≡◌, refl, arith, List, [], ◌∷◌, ◌++◌, true, false,
  inl, inr, subst,
}
use jev_bush.Fault.{ok, ◌>>=◌, >>=-eq-ok}
use jev_bush.Size.{size_mul, size_mul_lem}
use jev_bush.Arena.{Arena, Memory, Storage, arena_alloc, arena_reserve, workspace_plan}
use jev_bush.Arena.Alloc.{place, workspace_plan-ok, arena_alloc-workspace_plan}
use jev_bush.Arena.Reserve.{IsReady, arena_reserve-IsReady}
use jev_bush.Workspace.{
  Workspace, Kv, layers, kv_width, float_size, kv_bytes_layers, kv_bytes_documents, kv_bytes,
  kv_bind_layers, kv_bind_documents, kv_bind, worker_kv_begin, worker_kv_end,
}

-- The blocks of the rows, from layer `l` on, stand one behind the other from `from` to `to`, each
-- on a multiple of 64: no two of them overlap.
abbrev pub Laid : ℕ → ℕ → List Kv → ℕ → Type 0
Laid from l [] to = from ≤ to
Laid from l (r ∷ rs) to =
    (from ≤ r.k)
    × (r.k % 64 ≡ 0)
    × (r.k + r.n * kv_width l * float_size ≤ r.v)
    × (r.v % 64 ≡ 0)
    × Laid (r.v + r.n * kv_width l * float_size) ((l + 1) % layers) rs to

kv_bytes_layers-le :
    (k l n used total : ℕ)
    → used < 2 ^ 64
    → kv_bytes_layers k l n used ≡ ok total
    → (used ≤ total) × (total < 2 ^ 64)
unfolding kv_bytes_layers
kv_bytes_layers-le zero l n used total h e = ground arith
kv_bytes_layers-le (suc k) l n used total h e =
    let (count, c, e₁) = >>=-eq-ok (size_mul n (kv_width l)) _ e in
    let (keys, p, e₂) = >>=-eq-ok (workspace_plan used count float_size) _ e₁ in
    let (values, q, e₃) = >>=-eq-ok (workspace_plan keys count float_size) _ e₂ in
    let first = workspace_plan-ok used count float_size keys h p in
    let second = workspace_plan-ok keys count float_size values first.2 q in
    let rest = kv_bytes_layers-le k (l + 1) n values total second.2 e₃ in omega arith

abbrev Follows : Arena → ℕ → ℕ → List Kv → Type 0
Follows a total l rs =
    (rest : List Kv) (to : ℕ)
    → Laid (a.base + total) 0 rest to
    → Laid (a.base + a.used) (l % layers) (rs ++ rest) to

abbrev filled : Arena → ℕ → Arena
filled a total = record a { used = total; peak = total }

Follows-cons :
    (a : Arena) (l n keys values total : ℕ) (rs : List Kv)
    → l < layers
    → a.base % 64 ≡ 0
    → keys ≡ place a.used + n * kv_width l * float_size
    → values ≡ place keys + n * kv_width l * float_size
    → Follows (filled a values) total (l + 1) rs
    → Follows a total l (record { k = a.base + place a.used; v = a.base + place keys; n = n } ∷ rs)
Follows-cons a l n keys values total rs small base first second tail rest to h =
    let here : l % layers ≡ l = omega arith in
    let behind : a.base + place keys + n * kv_width l * float_size ≡ a.base + values =
      omega (arith, second) in
    rw here (omega arith, omega arith, omega arith, omega arith, rw behind (tail rest to h))

kv_bind_layers_step :
    (k l n count keys values : ℕ) (a b c d : Arena) (m m₁ m₂ m₃ : Memory) (rs : List Kv)
    → size_mul n (kv_width l) ≡ ok count
    → arena_alloc a m count float_size false ≡ ok (keys, b, m₁)
    → arena_alloc b m₁ count float_size false ≡ ok (values, c, m₂)
    → kv_bind_layers k (l + 1) n c m₂ ≡ ok (rs, d, m₃)
    → kv_bind_layers (suc k) l n a m ≡ ok (record { k = keys; v = values; n = n } ∷ rs, d, m₃)
unfolding kv_bind_layers
kv_bind_layers_step k l n count keys values a b c d m m₁ m₂ m₃ rs e₁ e₂ e₃ e₄ =
    rw (e₁, ◌>>=◌) (rw (e₂, ◌>>=◌) (rw (e₃, ◌>>=◌) (rw (e₄, ◌>>=◌))))

kv_bind_layers-kv_bytes :
    (k l n : ℕ) (a : Arena) (m : Memory) (total : ℕ)
    → l + k ≡ layers
    → a.used < 2 ^ 64
    → a.peak ≡ a.used
    → a.base % 64 ≡ 0
    → total ≤ a.size
    → kv_bytes_layers k l n a.used ≡ ok total
    → (rs : List Kv) × (kv_bind_layers k l n a m ≡ ok (rs, filled a total, m))
      × Follows a total l rs
unfolding kv_bytes_layers kv_bind_layers
kv_bind_layers-kv_bytes zero l n a m total il h top base fits e =
    let same : a.used ≡ total = ground arith in
    let around : l % layers ≡ 0 = omega arith in
    ([], ground arith, λ rest to laid. rw (around, same) laid)
kv_bind_layers-kv_bytes (suc k) l n a m total il h top base fits e =
    let (count, c, e₁) = >>=-eq-ok (size_mul n (kv_width l)) _ e in
    let (keys, p, e₂) = >>=-eq-ok (workspace_plan a.used count float_size) _ e₁ in
    let (values, q, e₃) = >>=-eq-ok (workspace_plan keys count float_size) _ e₂ in
    let first = workspace_plan-ok a.used count float_size keys h p in
    let second = workspace_plan-ok keys count float_size values first.2 q in
    let more = kv_bytes_layers-le k (l + 1) n values total second.2 e₃ in
    let sized : count ≡ n * kv_width l = ground (arith, size_mul_lem n (kv_width l)) in
    let keys_at =
      arena_alloc-workspace_plan a m count float_size keys false h top (omega arith) p in
    let values_at =
      arena_alloc-workspace_plan (filled a keys) m count float_size values false first.2 refl
        (omega arith) q in
    let (rs, bound, follows) =
      kv_bind_layers-kv_bytes k (l + 1) n (filled a values) m total (omega arith) second.2 refl base
        fits e₃ in
    (
      record { k = a.base + place a.used; v = a.base + place keys; n = n } ∷ rs,
      kv_bind_layers_step k l n count _ _ a _ _ _ m _ _ _ rs c keys_at values_at bound,
      Follows-cons a l n keys values total rs (omega arith) base (rw (← sized) first.0)
          (rw (← sized) second.0) follows,
    )

kv_bytes_documents-le :
    (lengths : List ℕ) (used total : ℕ)
    → used < 2 ^ 64
    → kv_bytes_documents lengths used ≡ ok total
    → (used ≤ total) × (total < 2 ^ 64)
unfolding kv_bytes_documents
kv_bytes_documents-le [] used total h e = ground arith
kv_bytes_documents-le (n ∷ lengths) used total h e =
    let (next, one, rest) = >>=-eq-ok (kv_bytes_layers layers 0 n used) _ e in
    let grown = kv_bytes_layers-le layers 0 n used next h one in
    let more = kv_bytes_documents-le lengths next total grown.1 rest in omega arith

kv_bind_documents_step :
    (n : ℕ) (lengths : List ℕ) (a b c : Arena) (m m₁ m₂ : Memory) (one rs : List Kv)
    → kv_bind_layers layers 0 n a m ≡ ok (one, b, m₁)
    → kv_bind_documents lengths b m₁ ≡ ok (rs, c, m₂)
    → kv_bind_documents (n ∷ lengths) a m ≡ ok (one ++ rs, c, m₂)
unfolding kv_bind_documents
kv_bind_documents_step n lengths a b c m m₁ m₂ one rs e₁ e₂ = rw (e₁, ◌>>=◌) (rw (e₂, ◌>>=◌))

kv_bind_documents-kv_bytes :
    (lengths : List ℕ) (a : Arena) (m : Memory) (total : ℕ)
    → a.used < 2 ^ 64
    → a.peak ≡ a.used
    → a.base % 64 ≡ 0
    → total ≤ a.size
    → kv_bytes_documents lengths a.used ≡ ok total
    → (rs : List Kv) × (kv_bind_documents lengths a m ≡ ok (rs, filled a total, m))
      × Laid (a.base + a.used) 0 rs (a.base + total)
unfolding kv_bytes_documents
kv_bind_documents-kv_bytes [] a m total h top base fits e =
    ([], unfold kv_bind_documents in ground arith, ground arith)
kv_bind_documents-kv_bytes (n ∷ lengths) a m total h top base fits e =
    let (next, one, later) = >>=-eq-ok (kv_bytes_layers layers 0 n a.used) _ e in
    let grown = kv_bytes_layers-le layers 0 n a.used next h one in
    let more = kv_bytes_documents-le lengths next total grown.1 later in
    let (rs, bound, follows) =
      kv_bind_layers-kv_bytes layers 0 n a m next refl h top base (omega arith) one in
    let (rest, bound', laid) =
      kv_bind_documents-kv_bytes lengths (filled a next) m total grown.1 refl base fits later in
    (
      rs ++ rest,
      kv_bind_documents_step n lengths a _ _ m m m rs rest bound bound',
      follows rest (a.base + total) laid,
    )

-- For every list of document lengths, if `dg_kv_bytes` computes a size, then `dg_kv_bind`, on an
-- empty arena of that size with an aligned base, succeeds: it never finds its storage too small
-- nor its plan mismatched. Every layer's keys and values get blocks of their own, 64-aligned and in
-- order between the base and the end, so that none overlap; the arena is full, and no byte changed.
pub kv_bind-kv_bytes :
    (lengths : List ℕ) (a : Arena) (m : Memory)
    → a.used ≡ 0
    → a.peak ≡ 0
    → a.base % 64 ≡ 0
    → kv_bytes lengths ≡ ok a.size
    → (rs : List Kv) × (kv_bind a lengths m ≡ ok (rs, record a { used = a.size; peak = a.size }, m))
      × Laid a.base 0 rs (a.base + a.size)
unfolding kv_bytes kv_bind
kv_bind-kv_bytes lengths a m empty low base e =
    let planned : kv_bytes_documents lengths a.used ≡ ok a.size = rw empty (ground arith) in
    let (rs, bound, laid) =
      kv_bind_documents-kv_bytes lengths a m a.size (omega arith) (omega arith) base (omega arith)
        planned in
    let start : a.base + a.used ≡ a.base = omega arith in
    (
      rs,
      rw (bound, ◌>>=◌) (ground arith),
      subst (λ from. Laid from 0 rs (a.base + a.size)) start laid,
    )

kv_bytes-lt : (lengths : List ℕ) (total : ℕ) → kv_bytes lengths ≡ ok total → total < 2 ^ 64
unfolding kv_bytes
kv_bytes-lt lengths total e = (kv_bytes_documents-le lengths 0 total (omega arith) (ground arith)).1

module _ {S : Type 0} (storage : Storage S) where
  IsReady-aligned : (a : Arena) (capacity : ℕ) → IsReady storage a capacity → a.base % 64 ≡ 0
  IsReady-aligned a capacity (inl none_yet) = omega arith
  IsReady-aligned a capacity (inr placed) = placed.aligned

  -- A request's K/V storage begins whenever it is not active, its size is computable and the
  -- allocator can provide it: `dg_worker_kv_begin` then returns disjoint rows inside the slab with
  -- the memory unchanged, and the matching `dg_worker_kv_end` accepts what it left.
  pub worker_kv_begin-worker_kv_end :
      (s s' : S) (w : Workspace) (lengths : List ℕ) (m : Memory) (a : Arena) (required capacity : ℕ)
      → w.kv_active ≡ false
      → IsReady storage w.kv_arena w.kv_capacity
      → kv_bytes lengths ≡ ok required
      → arena_reserve storage s w.kv_arena w.kv_capacity required ≡ ok (a, capacity, s')
      → (rs : List Kv) × (w' : Workspace) × (worker_kv_begin storage s w lengths m
          ≡ ok (rs, w', m, s'))
        × Laid a.base 0 rs (a.base + required)
        × (worker_kv_end w' ≡ ok (record w' { kv_active = false }))
  unfolding worker_kv_begin worker_kv_end
  worker_kv_begin-worker_kv_end s s' w lengths m a required capacity idle ready planned reserved =
      let got =
        arena_reserve-IsReady storage s s' w.kv_arena a w.kv_capacity capacity required
          (kv_bytes-lt lengths required planned) ready reserved in
      let (rs, bound, laid) =
        kv_bind-kv_bytes lengths a m got.2 got.3 (IsReady-aligned a capacity got.0)
          (rw got.1 planned) in
      (
        rs,
        record w {
          kv_arena = record a { used = a.size; peak = a.size };
          kv_capacity = capacity;
          kv_active = true;
        },
        ground arith,
        rw got.1 at laid,
        ground arith,
      )
