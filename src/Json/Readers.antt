-- ===== src/Json/Readers.antt =====
-- The readers of the tokens. A result that is -1 in the program is `none`.
pub mod Numbers
pub mod Lookup
use jev_bush.Prelude.{
  ℕ, zero, suc, ◌+◌, ◌-◌, ◌*◌, ◌/◌, ◌%◌, ◌^◌, List, [], ◌∷◌, Option, none, some, Bool, true, false,
  not, ◌&&◌, ◌||◌, ltb, ◌==◌, length, get_elem?, if◌then◌else◌,
}
use jev_bush.Fault.{
  Result, ok, err, ◌>>=◌, ◌>>◌, die_if, out_of_bounds, out_of_fuel, expected_integer,
  expected_unsigned, bad_unsigned,
}
use jev_bush.Json.Primitive.{same_bytes}
use jev_bush.Json.Tokens.{Kind, object, string, primitive, Token}
use jev_bush.Json.Text.{span, string_alloc}

abbrev pub is_string : Kind → Bool
is_string string = true
is_string _ = false

abbrev pub is_primitive : Kind → Bool
is_primitive primitive = true
is_primitive _ = false

abbrev pub is_object : Kind → Bool
is_object object = true
is_object _ = false

-- `memchr`.
unfoldable pub has_byte : ℕ → List ℕ → Bool
has_byte b [] = false
has_byte b (c ∷ cs) = c == b || has_byte b cs

unfoldable pub token_eq : List ℕ → Token → List ℕ → Result Bool
unfolding has_byte string_alloc same_bytes span
token_eq s t z = if not (is_string t.kind) then ok false else (do
  body ← span s t
  if not (has_byte b'\\' body)
      then ok (same_bytes body z)
      else (do text ← string_alloc s t; ok (same_bytes text z)))

unfoldable pub token_literal : List ℕ → Token → List ℕ → Result Bool
unfolding same_bytes span
token_literal s t z =
    if not (is_primitive t.kind) then ok false else (do body ← span s t; ok (same_bytes body z))

-- `t[i].parent < obj`, with -1 for a token outside any container.
abbrev pub parent_before : Option ℕ → ℕ → Bool
parent_before none obj = true
parent_before (some q) obj = ltb q obj

abbrev pub parent_is : Option ℕ → ℕ → Bool
parent_is none obj = false
parent_is (some q) obj = q == obj

abbrev pub token_at : List Token → ℕ → Result Token
token_at ts i = elim (get_elem? ts i) [ none ↦ err out_of_bounds | some t ↦ ok t ]

-- The loop of `jt_obj_get`, from token `i` on.
unfoldable pub object_scan : ℕ → List ℕ → List Token → ℕ → List ℕ → ℕ → Result (Option ℕ)
unfolding token_eq
object_scan zero s ts obj key i = if ltb (i + 1) (length ts) then err out_of_fuel else ok none
object_scan (suc fuel) s ts obj key i = if not (ltb (i + 1) (length ts)) then ok none else (do
  t ← token_at ts i
  if parent_before t.parent obj
      then ok none
      else if parent_is t.parent obj && is_string t.kind
      then (do
        same ← token_eq s t key
        let next = object_scan fuel s ts obj key (i + 2)
        if same then ok (some (i + 1)) else next)
      else object_scan fuel s ts obj key (i + 1))

-- `jt_obj_get`; an `obj` below 0 is `none`.
unfoldable pub object_get : List ℕ → List Token → Option ℕ → List ℕ → Result (Option ℕ)
unfolding object_scan
object_get s ts none key = ok none
object_get s ts (some obj) key = elim (get_elem? ts obj) [
  | none ↦ ok none
  | some t ↦
      if not (is_object t.kind) then ok none else object_scan (length ts) s ts obj key (obj + 1)
]

-- The loop of `jt_nonnegative_int` over the digits; an `int` holds nine of them.
unfoldable pub int_loop : ℕ → List ℕ → Result ℕ
int_loop v [] = ok v
int_loop v (c ∷ cs) =
    let rest = int_loop (v * 10 + (c - b'0')) cs in
    if ltb c b'0' || ltb b'9' c then err expected_integer else rest

unfoldable pub nonnegative_int : List ℕ → Token → Result ℕ
unfolding int_loop span
nonnegative_int s t = do
  die_if (not (is_primitive t.kind)) expected_integer
  body ← span s t
  die_if (length body == 0 || ltb 9 (length body)) expected_integer
  int_loop 0 body

abbrev pub uint64_max : ℕ
uint64_max = 2 ^ 64 - 1

-- The loop of `jt_u64`; `c - '0'` is an `unsigned`.
unfoldable pub u64_loop : ℕ → List ℕ → Result ℕ
u64_loop v [] = ok v
u64_loop v (c ∷ cs) =
    let d = (c + 2 ^ 32 - b'0') % 2 ^ 32 in
    let rest = u64_loop (v * 10 + d) cs in
    if ltb 9 d || ltb ((uint64_max - d) / 10) v then err bad_unsigned else rest

unfoldable pub token_u64 : List ℕ → Token → Result ℕ
unfolding u64_loop span
token_u64 s t = do
  die_if (not (is_primitive t.kind)) expected_unsigned
  body ← span s t
  die_if (length body == 0 || ltb 20 (length body)) expected_unsigned
  u64_loop 0 body
