-- ===== src/Session/Exclusion.antt =====
-- Several threads that call on one session.
use jev_bush.Prelude.{
  ℕ, zero, suc, ◌≡◌, refl, sym, ap, ◌∙◌, arith, List, [], ◌∷◌, ◌++◌, Bool, true, false,
  if◌then◌else◌, Bool-cases, inl, inr,
}
use jev_bush.Session.{Reply, accepted, rejected, Session, session_acquire, session_release}

-- A thread is outside, has been refused since the session is in use, or is in its call.
pub data Place : Type 0 where
  outside refused inside : Place

-- `jb_session_acquire` by a thread.
abbrev pub entered : Bool → Place
entered true = inside
entered false = refused

abbrev pub inside_count : List Place → ℕ
inside_count [] = 0
inside_count (outside ∷ ps) = inside_count ps
inside_count (refused ∷ ps) = inside_count ps
inside_count (inside ∷ ps) = suc (inside_count ps)

abbrev pub all_outside : ℕ → List Place
all_outside zero = []
all_outside (suc n) = outside ∷ all_outside n

-- `n` threads over a new session. A call in progress changes what it likes but `busy`.
pub data Reach (V : Type 0) (n : ℕ) : Session → List Place → Type 0 where
  creates : (s : Session) → s.busy ≡ false → Reach V n s (all_outside n)
  enters :
      (s : Session) (ps qs : List Place)
      → Reach V n s (ps ++ outside ∷ qs)
      → Reach V n (session_acquire s).1 (ps ++ entered (session_acquire s).0 ∷ qs)
  goes :
      (s : Session) (ps qs : List Place)
      → Reach V n s (ps ++ refused ∷ qs)
      → Reach V n s (ps ++ outside ∷ qs)
  works :
      (s s' : Session) (ps qs : List Place)
      → Reach V n s (ps ++ inside ∷ qs)
      → s'.busy ≡ s.busy
      → Reach V n s' (ps ++ inside ∷ qs)
  leaves :
      (s : Session) (ps qs : List Place) (reply : Reply V)
      → Reach V n s (ps ++ inside ∷ qs)
      → Reach V n (session_release (reply, s)).1 (ps ++ outside ∷ qs)

inside_count-outside :
    (ps qs : List Place) → inside_count (ps ++ outside ∷ qs) ≡ inside_count (ps ++ qs)
inside_count-outside [] qs = refl
inside_count-outside (outside ∷ ps) qs = inside_count-outside ps qs
inside_count-outside (refused ∷ ps) qs = inside_count-outside ps qs
inside_count-outside (inside ∷ ps) qs = ap suc (inside_count-outside ps qs)

inside_count-refused :
    (ps qs : List Place) → inside_count (ps ++ refused ∷ qs) ≡ inside_count (ps ++ qs)
inside_count-refused [] qs = refl
inside_count-refused (outside ∷ ps) qs = inside_count-refused ps qs
inside_count-refused (refused ∷ ps) qs = inside_count-refused ps qs
inside_count-refused (inside ∷ ps) qs = ap suc (inside_count-refused ps qs)

inside_count-inside :
    (ps qs : List Place) → inside_count (ps ++ inside ∷ qs) ≡ suc (inside_count (ps ++ qs))
inside_count-inside [] qs = refl
inside_count-inside (outside ∷ ps) qs = inside_count-inside ps qs
inside_count-inside (refused ∷ ps) qs = inside_count-inside ps qs
inside_count-inside (inside ∷ ps) qs = ap suc (inside_count-inside ps qs)

all_outside-count : (n : ℕ) → inside_count (all_outside n) ≡ 0
all_outside-count zero = refl
all_outside-count (suc n) = all_outside-count n

abbrev one_if : Bool → ℕ
one_if b = if b then 1 else 0

release-free :
    {V : Type 0} (reply : Reply V) (s : Session) → (session_release (reply, s)).1.busy ≡ false
unfolding session_release
release-free (accepted v) s = refl
release-free (rejected code message) s = refl

acquire-count :
    (s : Session) (ps qs : List Place)
    → inside_count (ps ++ qs) ≡ one_if s.busy
    → inside_count (ps ++ entered (session_acquire s).0 ∷ qs) ≡ one_if (session_acquire s).1.busy
unfolding session_acquire
acquire-count s ps qs e = elim (Bool-cases s.busy) [
  | inl taken ↦ rw taken (inside_count-refused ps qs ∙ e ∙ ap one_if taken)
  | inr free ↦ rw free (inside_count-inside ps qs ∙ ap suc (e ∙ ap one_if free))
]

-- Whatever the threads do, in any order: the number of threads in a call on the session is one if
-- the session is busy and none otherwise, so two calls never run at the same time.
pub inside_count-Reach :
    {V : Type 0} {n : ℕ} {s : Session} {ps : List Place}
    → Reach V n s ps
    → inside_count ps ≡ (if s.busy then 1 else 0)
inside_count-Reach {n = n} (creates s free) = all_outside-count n ∙ ap one_if (sym free)
inside_count-Reach (enters s ps qs reached) =
    acquire-count s ps qs (sym (inside_count-outside ps qs) ∙ inside_count-Reach reached)
inside_count-Reach (goes s ps qs reached) =
    inside_count-outside ps qs ∙ sym (inside_count-refused ps qs) ∙ inside_count-Reach reached
inside_count-Reach (works s s' ps qs reached same) =
    inside_count-Reach reached ∙ ap one_if (sym same)
inside_count-Reach (leaves s ps qs reply reached) =
    let before = inside_count-Reach reached in
    let counted : suc (inside_count (ps ++ qs)) ≡ one_if s.busy =
      sym (inside_count-inside ps qs) ∙ before in
    let empty : inside_count (ps ++ qs) ≡ 0 = ground arith in
    inside_count-outside ps qs ∙ empty ∙ ap one_if (sym (release-free reply s))
