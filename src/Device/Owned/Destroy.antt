-- ===== src/Device/Owned/Destroy.antt =====
-- What `dg_workspace_destroy` leaves of the workspace's blocks.
use jev_bush.Prelude.{
  none, ◌<◌, ◌≢◌, ℕ, ◌≡◌, ◌⊎◌, inl, inr, refl, subst, ◌∙◌, arith, List, [], ◌∷◌, ◌==◌, Bool-cases,
}
use jev_bush.Fault.{ok}
use jev_bush.Arena.{Arena, Storage, arena_free}
use jev_bush.Workspace.{Workspace, no_workspace}
use jev_bush.Device.Owned.{Owner, Live, destroy, drop_arena, no_owner}
use jev_bush.Device.Owned.Ledger.{count, owns, Owned, drop_block-ok}

count_nothing : (live : List ℕ) → ((a : ℕ) → count a live ≡ 0) → live ≡ []
count_nothing [] h = refl
count_nothing (p ∷ live) h = absurd (ground (arith, h p))

module _ {S : Type 0} (storage : Storage S) where
  open storage use {live, release_live, release_other}

  drop_arena-live :
      (s : S) (a : Arena) (q : ℕ)
      → 0 < q
      → (q ≡ a.allocation) ⊎ (live s q ≡ none)
      → live (drop_arena storage s a) q ≡ none
  unfolding drop_arena arena_free
  drop_arena-live s a q some_block gone = elim (Bool-cases (a.allocation == 0)) [
    | inl nowhere ↦ rw nowhere (elim gone [ inl mine ↦ absurd (ground arith) | inr dead ↦ dead ])
    | inr somewhere ↦ rw somewhere (elim (Bool-cases (q == a.allocation)) [
      | inl hit ↦
          let same : a.allocation ≡ q = ground arith in
          subst (λ p. live (storage.release s a.allocation) p ≡ none) same
            (release_live s a.allocation)
      | inr other ↦
          let apart : q ≢ a.allocation = λ e. ground (arith, e) in
          release_other s a.allocation q apart
          ∙ elim gone [ inl mine ↦ absurd (apart mine) | inr dead ↦ dead ]
    ])
  ]

  drop_arena-other :
      (s : S) (a : Arena) (q : ℕ) → q ≢ a.allocation → live (drop_arena storage s a) q ≡ live s q
  unfolding drop_arena arena_free
  drop_arena-other s a q apart = elim (Bool-cases (a.allocation == 0)) [
    | inl nowhere ↦ rw nowhere refl
    | inr somewhere ↦ rw somewhere (release_other s a.allocation q apart)
  ]

  -- A block of one of the three arenas.
  abbrev pub IsArenas : Workspace → ℕ → Type 0
  IsArenas w q =
      (0 < q)
      × ((q ≡ w.arena.allocation) ⊎ (q ≡ w.kv_arena.allocation) ⊎ (q ≡ w.control_arena.allocation))

  -- `dg_workspace_destroy` ends without giving back to the accelerator a block that is not out, and
  -- leaves a workspace without arenas and blocks. Behind it no block of the accelerator is out, no
  -- block of the three arenas is live, and every other block is as before.
  pub destroy-no_block :
      (s : S) (w : Workspace) (o : Owner) (l : Live)
      → Owned o l
      → (t : S) × (destroy storage s w o l
          ≡ ok (t, no_workspace, no_owner, record { on_device = []; on_host = [] }))
        × ((q : ℕ) → IsArenas w q → live t q ≡ none)
        × ((q : ℕ) → ¬ IsArenas w q → 0 < q → live t q ≡ live s q)
  unfolding destroy
  destroy-no_block s w o l owned =
      let (first, runs₁, counts₁) =
        drop_block-ok o.device l.on_device (λ a. owns a o.scratch) owned.on_device in
      let (host, runs₂, counts₂) =
        drop_block-ok o.pinned l.on_host (λ _. 0) (λ a. omega (arith, owned.on_host a)) in
      let (second, runs₃, counts₃) =
        drop_block-ok o.scratch first (λ _. 0) (λ a. omega (arith, counts₁ a)) in
      let nothing = count_nothing second counts₃ in
      let no_host = count_nothing host counts₂ in
      let s₁ = drop_arena storage s w.arena in
      let s₂ = drop_arena storage s₁ w.kv_arena in
      let s₃ = drop_arena storage s₂ w.control_arena in
      (
        s₃,
        rw (runs₁, runs₂, runs₃, nothing, no_host) refl,
        λ q (above, is). elim is [
          | inl one ↦ drop_arena-live s₂ w.control_arena q above (
              inr (
                drop_arena-live s₁ w.kv_arena q above
                  (inr (drop_arena-live s w.arena q above (inl one)))))
          | inr (inl two) ↦
              drop_arena-live s₂ w.control_arena q above
                (inr (drop_arena-live s₁ w.kv_arena q above (inl two)))
          | inr (inr three) ↦ drop_arena-live s₂ w.control_arena q above (inl three)
        ],
        λ q other above.
            drop_arena-other s₂ w.control_arena q (λ e. other (above, inr (inr e)))
            ∙ drop_arena-other s₁ w.kv_arena q (λ e. other (above, inr (inl e)))
            ∙ drop_arena-other s w.arena q (λ e. other (above, inl e)),
      )
