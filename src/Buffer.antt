-- ===== src/Buffer.antt =====
-- src/decision.inc: the growing text buffer, DGBuf with `db_need`, `db_mem` and `db_ch`. The bytes
-- in front of the terminator are a list; `memory` tells whether a reallocation succeeds.
pub mod Append
use jev_bush.Prelude.{
  ℕ, zero, suc, ◌+◌, ◌-◌, ◌*◌, ◌/◌, ◌<◌, List, [], ◌∷◌, ◌++◌, Bool, true, false, not, ◌&&◌, ◌||◌,
  ltb, ◌==◌, length, if◌then◌else◌,
}
use jev_bush.Fault.{
  Result, ok, err, ◌>>=◌, ◌>>◌, die_if, out_of_fuel, out_of_memory, output_too_large,
  string_size_overflow,
}
use jev_bush.Size.{size_max}

pub record Buffer : Type 0 where
  pub content : List ℕ
  pub cap : ℕ
  pub limit : ℕ

-- `while (c < need)`.
unfoldable pub double_until : ℕ → ℕ → ℕ → Result ℕ
double_until zero need c = if ltb c need then err out_of_fuel else ok c
double_until (suc fuel) need c = do
  let go = double_until fuel need (c * 2)
  if not (ltb c need) then ok c else if ltb (size_max / 2) c then err string_size_overflow else go

abbrev pub reallocate : Bool → Buffer → ℕ → Result Buffer
reallocate memory b c = if memory then ok (record b { cap = c }) else err out_of_memory

unfoldable pub need : Bool → Buffer → ℕ → Result Buffer
unfolding double_until
need memory b add = do
  let n = length b.content
  die_if (not (b.limit == 0) && (ltb b.limit n || ltb (b.limit - n) add)) output_too_large
  die_if (ltb (size_max - n - 1) add) string_size_overflow
  let wanted = n + add + 1
  if not (ltb b.cap wanted) then ok b else (do
    c ← double_until 64 wanted (if b.cap == 0 then 256 else b.cap)
    reallocate memory b c)

-- `db_mem`, and `db_ch` with one byte.
unfoldable pub append : Bool → Buffer → List ℕ → Result Buffer
unfolding need
append memory b bytes = do
  u ← need memory b (length bytes)
  ok (record u { content = u.content ++ bytes })
