-- ===== src/Fault/Clean.antt =====
-- Calls that fail with a message of the program, and never outside an array or for lack of fuel.
use jev_bush.Prelude.{◌≡◌, refl, sym, subst, Bool, true, false, if◌then◌else◌}
use jev_bush.Fault.{Fault, Result, ok, err, ◌>>=◌, ◌>>◌, die_if, out_of_bounds, out_of_fuel}

-- A message of the program.
abbrev pub is_message : Fault → Bool
is_message out_of_bounds = false
is_message out_of_fuel = false
is_message _ = true

-- The call dies with a message, or returns a value for which `P` holds.
abbrev pub Clean : {V : Type 0} → (V → Type 0) → Result V → Type 0
Clean P (err fault) = is_message fault ≡ true
Clean P (ok v) = P v

pub Clean->>= :
    {V W : Type 0} (P : V → Type 0) (Q : W → Type 0) (r : Result V) (next : V → Result W)
    → Clean P r
    → ((v : V) → P v → Clean Q (next v))
    → Clean Q (r >>= next)
Clean->>= P Q (err fault) next c h = c
Clean->>= P Q (ok v) next c h = h v c

pub Clean-die_if :
    {W : Type 0} (Q : W → Type 0) (b : Bool) (fault : Fault) (rest : Result W)
    → is_message fault ≡ true
    → (b ≡ false → Clean Q rest)
    → Clean Q (die_if b fault >> rest)
Clean-die_if Q false fault rest m h = h refl
Clean-die_if Q true fault rest m h = m

pub Clean-if :
    {W : Type 0} (Q : W → Type 0) (b : Bool) (x y : Result W)
    → Clean Q x
    → (b ≡ false → Clean Q y)
    → Clean Q (if b then x else y)
Clean-if Q true x y p q = p
Clean-if Q false x y p q = q refl

-- A step whose result is known.
pub Clean-ok :
    {V W : Type 0} (Q : W → Type 0) (r : Result V) (v : V) (next : V → Result W)
    → r ≡ ok v
    → Clean Q (next v)
    → Clean Q (r >>= next)
Clean-ok {V} {W} Q r v next e c = subst (λ (x : Result V). Clean Q (x >>= next)) (sym e) c

-- A step whose result is remembered.
pub Clean-then :
    {V W : Type 0} (P : V → Type 0) (Q : W → Type 0) (r : Result V) (next : V → Result W)
    → Clean P r
    → ((v : V) → r ≡ ok v → P v → Clean Q (next v))
    → Clean Q (r >>= next)
Clean-then P Q (err fault) next c h = c
Clean-then P Q (ok v) next c h = h v refl c

pub Clean-weaken :
    {V : Type 0} (P Q : V → Type 0) (r : Result V) → Clean P r → ((v : V) → P v → Q v) → Clean Q r
Clean-weaken P Q (err fault) c h = c
Clean-weaken P Q (ok v) c h = h v c

-- A check that is known to be passed, whatever its fault.
pub Clean-pass :
    {W : Type 0} (Q : W → Type 0) (b : Bool) (fault : Fault) (rest : Result W)
    → b ≡ false
    → Clean Q rest
    → Clean Q (die_if b fault >> rest)
Clean-pass Q false fault rest e c = c
Clean-pass Q true fault rest e c = cc

-- No more is said of the value.
abbrev pub Always : {V : Type 0} → V → Type 0
Always v = Unit
