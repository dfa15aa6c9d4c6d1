-- ===== src/Json/Keys.antt =====
-- `json_check_keys` and `json_tokens`. `qsort` is a parameter. Each array keeps its size: a write
-- past the end of the array of names or of the slab is a fault.
pub mod Clean
pub mod Members
pub mod Unique
use jev_bush.Prelude.{
  ℕ, zero, suc, ◌+◌, ◌-◌, ◌*◌, ◌/◌, ◌%◌, ◌^◌, ◌<◌, ◌≤◌, ◌≡◌, ◌≢◌, ◌↔◌, ◌⊎◌, inl, inr, refl, sym, ap,
  subst, ◌∙◌, arith, List, [], ◌∷◌, ◌++◌, Option, none, some, Bool, true, false, not, ◌&&◌, ◌||◌,
  ltb, leb, ◌==◌, length, get_elem?, get_or, set, take, drop, replicate, if◌then◌else◌, Bool-cases,
  Option-cases, All, length-append, length-set, length-drop, length-take, length-replicate,
  get_elem?_of_lt, get_elem?-lt, get_elem?-set_self, get_elem?-set_ne, lt→ltb, ltb→lt,
}
use jev_bush.Fault.{
  Fault, Result, ok, err, ◌>>=◌, ◌>>◌, die_if, out_of_bounds, out_of_fuel, key_array_overflow,
  duplicate_key,
}
use jev_bush.Size.{size_add}
use jev_bush.Json.Primitive.{same_bytes}
use jev_bush.Json.Tokens.{Token, tokens_unchecked}
use jev_bush.Json.Text.{string_copy_into}
use jev_bush.Json.Readers.{is_object, token_at, parent_before, parent_is}

-- The names that the loops over the members of the object `obj` stop at, from token `i` on.
unfoldable pub member_names : ℕ → List Token → ℕ → ℕ → Result (List Token)
member_names zero ts obj i = if ltb i (length ts) then err out_of_fuel else ok []
member_names (suc fuel) ts obj i =
    let behind = member_names fuel ts obj (i + 2) in
    let next = member_names fuel ts obj (i + 1) in
    if not (ltb i (length ts)) then ok [] else (do
      t ← token_at ts i
      if parent_before t.parent obj
          then ok []
          else if parent_is t.parent obj
          then (do rest ← behind; ok (t ∷ rest))
          else next)

-- `t[i].end - t[i].start`.
abbrev pub token_length : Token → Result ℕ
token_length t = elim t.end_at [ none ↦ err out_of_bounds | some e ↦ ok (e - t.start) ]

-- The array of names, doubled when it is full.
unfoldable pub grow_keys : ℕ → ℕ → Result ℕ
grow_keys cap nk =
    if nk == cap
    then (do
      die_if (ltb ((2 ^ 31 - 1) / 2) cap) key_array_overflow
      ok (if cap == 0 then 64 else cap * 2))
    else ok cap

-- The first loop: the size of the array of names, and the bytes of the slab.
unfoldable pub count_names : ℕ → ℕ → ℕ → List Token → Result (ℕ × ℕ)
unfolding grow_keys size_add
count_names cap slab nk [] = ok (cap, slab)
count_names cap slab nk (t ∷ ts) = do
  wide ← grow_keys cap nk
  n ← token_length t
  piece ← size_add (n * 3 % 2 ^ 64) 1
  more ← size_add slab piece
  count_names wide more (nk + 1) ts

-- The second loop: the names, one behind the other in the slab.
unfoldable pub write_names : List ℕ → ℕ → ℕ → ℕ → ℕ → List Token → Result (List (List ℕ))
unfolding string_copy_into
write_names s cap slab nk cursor [] = ok []
write_names s cap slab nk cursor (t ∷ ts) = do
  die_if (leb cap nk) out_of_bounds
  name ← string_copy_into (slab - cursor) s t
  rest ← write_names s cap slab (nk + 1) (cursor + length name + 1) ts
  ok (name ∷ rest)

-- `i && !strcmp(keys[i - 1], keys[i])` for some `i`.
unfoldable pub has_repeat : List (List ℕ) → Bool
unfolding same_bytes
has_repeat [] = false
has_repeat (x ∷ []) = false
has_repeat (x ∷ y ∷ r) = same_bytes x y || has_repeat (y ∷ r)

module _ (qsort : List (List ℕ) → List (List ℕ)) where
  -- One round of the loop over the objects: the size of the array of names behind it.
  unfoldable pub check_object : List ℕ → List Token → ℕ → ℕ → Result ℕ
  unfolding member_names count_names write_names has_repeat
  check_object s ts cap obj = do
    t ← token_at ts obj
    if not (is_object t.kind) || ltb t.size 4 then ok cap else (do
      members ← member_names (length ts) ts obj (obj + 1)
      (wide, bytes) ← count_names cap 0 0 members
      let slab = if leb bytes 4096 then 4096 else bytes
      names ← write_names s wide slab 0 0 members
      die_if (has_repeat (if ltb 1 (length names) then qsort names else names)) duplicate_key
      ok wide)

  unfoldable pub check_from : ℕ → List ℕ → List Token → ℕ → ℕ → Result (Unit {0})
  unfolding check_object
  check_from zero s ts cap obj = ok tt
  check_from (suc left) s ts cap obj = do
    wide ← check_object s ts cap obj
    check_from left s ts wide (obj + 1)

  abbrev pub check_keys : List ℕ → List Token → Result (Unit {0})
  check_keys s ts = check_from (length ts) s ts 0 0

  unfoldable pub json_tokens : List ℕ → Result (List Token)
  unfolding tokens_unchecked check_from
  json_tokens s = do ts ← tokens_unchecked s; check_keys s ts; ok ts
