-- ===== src/References/Count.antt =====
-- The count of a model is the number of references owned.
use mathlib.Core.Option.{some-injective}
use jev_bush.Prelude.{
  ℕ, zero, suc, ◌+◌, ◌-◌, ◌%◌, ◌^◌, ◌<◌, ◌≤◌, ◌≡◌, refl, sym, subst, arith, List, [], ◌∷◌, ◌++◌,
  some, Bool, false, not, ◌&&◌, ◌==◌, if◌then◌else◌, Bool-cases, inl, inr,
}
use jev_bush.References.{
  Model, Phase, idle, retaining, releasing, Owner, uint_max, model_init, retain_load,
  retain_exchange, release_load, release_subtract, Action, start_retain, start_release, subtract,
  exchange, act, total, phases, idle_owners, Reach, loads, runs, passes,
}

-- A thread in the loop of `jb_model_retain` has not read the saturated count.
abbrev Unsaturated : Phase → Type 0
Unsaturated idle = Unit
Unsaturated (retaining v) = v < uint_max
Unsaturated releasing = Unit

abbrev AllUnsaturated : List Phase → Type 0
AllUnsaturated [] = Unit
AllUnsaturated (p ∷ ps) = Unsaturated p × AllUnsaturated ps

abbrev Counts : Model → ℕ → Type 0
Counts m n = (m.references ≡ n) × (n ≤ uint_max) × (m.destroyed ≡ (if n == 0 then 1 else 0))

abbrev Good : ℕ → Model × Owner → Type 0
Good others r = Counts r.0 (r.1.held + others) × Unsaturated r.1.phase

retain_load-Good :
    (m : Model) (h : Owner) (others : ℕ)
    → h.held + others < uint_max
    → Counts m (h.held + others)
    → Good others (m, retain_load m h)
unfolding retain_load
retain_load-Good m h others few counts = (counts, omega arith)

release_load-Good :
    (m : Model) (h : Owner) (others : ℕ)
    → h.held + others < uint_max
    → Counts m (h.held + others)
    → Good others (m, release_load m h)
unfolding release_load
release_load-Good m h others few counts =
    let plain : (m.references == uint_max) ≡ false = ground arith in rw plain (counts, tt)

release_subtract-Good :
    (m : Model) (h : Owner) (others : ℕ)
    → 0 < h.held
    → Counts m (h.held + others)
    → Good others (release_subtract m h)
unfolding release_subtract
release_subtract-Good m h others owns counts =
    let left : (m.references + uint_max) % 2 ^ 32 ≡ h.held - 1 + others = omega arith in
    ((left, omega arith, ground arith), tt)

retain_exchange-Good :
    (fails : Bool) (v : ℕ) (m : Model) (h : Owner) (others : ℕ)
    → 0 < h.held
    → h.held + others < uint_max
    → v < uint_max
    → Counts m (h.held + others)
    → Good others (retain_exchange fails v m h)
unfolding retain_exchange
retain_exchange-Good fails v m h others owns few plain counts =
    let alive : m.destroyed ≡ 0 = ground arith in
    let read : (v == uint_max) ≡ false = ground arith in
    elim (Bool-cases (not fails && m.references == v)) [
      | inl taken ↦
          let seen : m.references ≡ v = ground arith in
          rw (read, taken) ((omega arith, omega arith, ground arith), tt)
      | inr missed ↦ rw (read, missed) (counts, omega arith)
    ]

act-Good :
    (a : Action) (p : Phase) (h : Owner) (r : Model × Owner) (m : Model) (others : ℕ)
    → 0 < h.held
    → h.held + others < uint_max
    → Unsaturated p
    → Counts m (h.held + others)
    → act a p m h ≡ some r
    → Good others r
unfolding act
act-Good start_retain idle h r m others owns few plain counts e =
    subst (Good others) (some-injective _ _ e) (retain_load-Good m h others few counts)
act-Good start_retain (retaining v) h r m others owns few plain counts e = absurd cc
act-Good start_retain releasing h r m others owns few plain counts e = absurd cc
act-Good start_release idle h r m others owns few plain counts e =
    subst (Good others) (some-injective _ _ e) (release_load-Good m h others few counts)
act-Good start_release (retaining v) h r m others owns few plain counts e = absurd cc
act-Good start_release releasing h r m others owns few plain counts e = absurd cc
act-Good subtract idle h r m others owns few plain counts e = absurd cc
act-Good subtract (retaining v) h r m others owns few plain counts e = absurd cc
act-Good subtract releasing h r m others owns few plain counts e =
    subst (Good others) (some-injective _ _ e) (release_subtract-Good m h others owns counts)
act-Good (exchange fails) idle h r m others owns few plain counts e = absurd cc
act-Good (exchange fails) (retaining v) h r m others owns few plain counts e =
    subst (Good others) (some-injective _ _ e)
      (retain_exchange-Good fails v m h others owns few plain counts)
act-Good (exchange fails) releasing h r m others owns few plain counts e = absurd cc

total-append : (ys zs : List Owner) → total (ys ++ zs) ≡ total ys + total zs
total-append [] zs = omega arith
total-append (y ∷ ys) zs = omega (arith, total-append ys zs)

total-middle :
    (ys zs : List Owner) (h : Owner) → total (ys ++ h ∷ zs) ≡ h.held + (total ys + total zs)
total-middle ys zs h = omega (arith, total-append ys (h ∷ zs))

AllUnsaturated-middle :
    (ys zs : List Owner) (h : Owner) → AllUnsaturated (phases (ys ++ h ∷ zs)) → Unsaturated h.phase
AllUnsaturated-middle [] zs h all = all.0
AllUnsaturated-middle (y ∷ ys) zs h all = AllUnsaturated-middle ys zs h all.1

AllUnsaturated-replace :
    (ys zs : List Owner) (h h' : Owner)
    → AllUnsaturated (phases (ys ++ h ∷ zs))
    → Unsaturated h'.phase
    → AllUnsaturated (phases (ys ++ h' ∷ zs))
AllUnsaturated-replace [] zs h h' all plain = (plain, all.1)
AllUnsaturated-replace (y ∷ ys) zs h h' all plain =
    (all.0, AllUnsaturated-replace ys zs h h' all.1 plain)

idle_owners-total : (n : ℕ) → total (idle_owners n) ≡ 0
idle_owners-total zero = refl
idle_owners-total (suc n) = omega (arith, idle_owners-total n)

idle_owners-Unsaturated : (n : ℕ) → AllUnsaturated (phases (idle_owners n))
idle_owners-Unsaturated zero = tt
idle_owners-Unsaturated (suc n) = (tt, idle_owners-Unsaturated n)

init-Counts : (n : ℕ) → n ≡ 1 → Counts model_init n
unfolding model_init
init-Counts n e = (sym e, omega arith, ground arith)

Reach-Counts :
    {n : ℕ} {m : Model} {hs : List Owner}
    → Reach n m hs
    → Counts m (total hs) × AllUnsaturated (phases hs)
Reach-Counts {n} loads = (
  init-Counts (1 + total (idle_owners n)) (omega (arith, idle_owners-total n)),
  (tt, idle_owners-Unsaturated n),
)
Reach-Counts (runs a ys zs h h' m m' reached owns few e) =
    let (counts, plain) = Reach-Counts reached in
    let others = total ys + total zs in
    let (counts', plain') =
      act-Good a h.phase h (m', h') m others owns (omega (arith, total-middle ys zs h))
        (AllUnsaturated-middle ys zs h plain) (subst (Counts m) (total-middle ys zs h) counts) e in
    (
      subst (Counts m') (sym (total-middle ys zs h')) counts',
      AllUnsaturated-replace ys zs h h' plain plain',
    )
Reach-Counts (passes m hs hs' reached same_total same_phases) =
    let (counts, plain) = Reach-Counts reached in
    (subst (Counts m) same_total counts, subst AllUnsaturated same_phases plain)

-- Whatever the threads that own references do, one atomic operation at a time and in any order,
-- weak exchanges failing at will, as long as fewer than UINT_MAX references are owned before each
-- operation: the count is the number of references owned, and the model has been taken apart
-- exactly once if no reference is owned any more and not at all before that.
pub references-Reach :
    {n : ℕ} {m : Model} {hs : List Owner}
    → Reach n m hs
    → (m.references ≡ total hs) × (m.destroyed ≡ (if total hs == 0 then 1 else 0))
references-Reach reached = let (counts, plain) = Reach-Counts reached in (counts.0, counts.2)
