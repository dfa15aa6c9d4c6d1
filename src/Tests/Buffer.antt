-- ===== src/Tests/Buffer.antt =====
-- A buffer that has to grow.
use jev_bush.Prelude.{ℕ, ◌≡◌, inr, refl, arith, [], ◌∷◌, ◌++◌, true}
use jev_bush.Fault.{ok, err, output_too_large}
use jev_bush.Buffer.{Buffer, append}
use jev_bush.Buffer.Append.{IsRoomy, append-ok}

abbrev filled : Buffer
filled = record { content = b'a' ∷ b'b' ∷ b'c' ∷ []; cap = 4; limit = 5 }

append_runs :
    append true filled (b'd' ∷ b'e' ∷ [])
    ≡ ok (record filled { cap = 8; content = b'a' ∷ b'b' ∷ b'c' ∷ b'd' ∷ b'e' ∷ [] })
unfolding append
append_runs = refl

append_refused : append true filled (b'd' ∷ b'e' ∷ b'f' ∷ []) ≡ err output_too_large
unfolding append
append_refused = refl

append-ok_example :
    (c : ℕ) × (append true filled (b'd' ∷ b'e' ∷ [])
      ≡ ok (record filled { cap = c; content = filled.content ++ (b'd' ∷ b'e' ∷ []) }))
    × IsRoomy (record filled { cap = c; content = filled.content ++ (b'd' ∷ b'e' ∷ []) })
append-ok_example =
    append-ok filled (b'd' ∷ b'e' ∷ []) (inr (omega arith, omega arith)) (inr (omega arith))
      (omega arith)
