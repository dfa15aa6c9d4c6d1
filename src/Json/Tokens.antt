-- ===== src/Json/Tokens.antt =====
-- The tokenizer. The text is a list of bytes with its length, the tokens a list in the order of
-- their numbers, and `pos` an offset into the text. The containers a value stands in are recursion;
-- `fuel` bounds the nested calls and the rounds of their loops together. Growing the token array does
-- not fail for lack of memory here.
pub mod Spans
pub mod Clean
pub mod Bounds
use jev_bush.Prelude.{
  ℕ, zero, suc, ◌+◌, ◌-◌, ◌*◌, ◌/◌, ◌^◌, ◌<◌, ◌≡◌, List, [], ◌∷◌, ◌++◌, Option, none, some, Bool,
  true, false, not, ◌&&◌, ◌||◌, ltb, leb, ◌==◌, length, get_elem?, set, take, drop, if◌then◌else◌,
}
use jev_bush.Fault.{
  Fault, Result, ok, err, ◌>>=◌, ◌>>◌, die_if, out_of_bounds, out_of_fuel, json_token_overflow,
  bad_escape, bad_unicode_escape, control_byte, unterminated_string, missing_value,
  nesting_too_deep, unterminated_container, expected_comma, key_must_be_string, expected_colon,
  bad_primitive, trailing_data, input_too_large,
}
use jev_bush.Json.Bytes.{is_space, is_xdigit, ends_primitive, is_escape}
use jev_bush.Json.Primitive.{primitive_valid}

pub data Kind : Type 0 where
  object array string primitive : Kind

-- A token whose end is not known yet has `none`, and one outside any container has no parent.
pub record Token : Type 0 where
  pub kind : Kind
  pub start : ℕ
  pub end_at : Option ℕ
  pub parent : Option ℕ
  pub size : ℕ

pub record Parser : Type 0 where
  pub pos : ℕ
  pub tokens : List Token
  pub cap : ℕ
  pub depth : ℕ

abbrev pub int32_max : ℕ
int32_max = 2 ^ 31 - 1

abbrev pub max_depth : ℕ
max_depth = 256

abbrev pub max_json : ℕ
max_json = 64 * 1024 * 1024

-- `p->s[i]`.
abbrev pub byte_at : List ℕ → ℕ → Result ℕ
byte_at s i = elim (get_elem? s i) [ none ↦ err out_of_bounds | some c ↦ ok c ]

-- `p->t[i]` is changed.
abbrev pub with_token : Parser → ℕ → (Token → Token) → Result Parser
with_token p i f = elim (get_elem? p.tokens i) [
  | none ↦ err out_of_bounds
  | some t ↦ ok (record p { tokens = set p.tokens i (f t) })
]

abbrev pub grow : Parser → Result Parser
grow p =
    if not (length p.tokens == p.cap)
    then ok p
    else if ltb (int32_max / 2) p.cap
    then err json_token_overflow
    else ok (record p { cap = if p.cap == 0 then 256 else p.cap * 2 })

abbrev pub count_child : Option ℕ → Parser → Result Parser
count_child none p = ok p
count_child (some q) p = with_token p q (λ t. record t { size = t.size + 1 })

unfoldable pub token_new : Parser → Kind → ℕ → Option ℕ → Result (ℕ × Parser)
token_new p kind start parent = do
  q ← grow p
  die_if (leb q.cap (length q.tokens)) out_of_bounds
  let i = length q.tokens
  let t : Token = record { kind = kind; start = start; end_at = none; parent = parent; size = 0 }
  r ← count_child parent (record q { tokens = q.tokens ++ t ∷ [] })
  ok (i, r)

abbrev pub set_end : Parser → ℕ → ℕ → Result Parser
set_end p i e = with_token p i (λ t. record t { end_at = some e })

-- The bytes of the text from an offset on are a list in the loops below; each gives back how many
-- it passed.
unfoldable pub spaces : List ℕ → ℕ
spaces [] = 0
spaces (c ∷ cs) = let rest = spaces cs in if is_space c then suc rest else 0

unfoldable pub skip_space : List ℕ → Parser → Parser
unfolding spaces
skip_space s p = record p { pos = p.pos + spaces (drop p.pos s) }

-- Where the loop of `json_parse_string_tok` stands: between two characters, behind a backslash, or
-- with one more than `k` hexadecimal digits to come.
pub data Scan : Type 0 where
  plain escaped : Scan
  hex : ℕ → Scan

-- One byte; `none` is the closing quote.
unfoldable pub scan_byte : Scan → ℕ → Result (Option Scan)
scan_byte plain c =
    if c == b'"'
    then ok none
    else if c == b'\\'
    then ok (some escaped)
    else if ltb c 0x20
    then err control_byte
    else ok (some plain)
scan_byte escaped c =
    if c == b'u' then ok (some (hex 3)) else if is_escape c then ok (some plain) else err bad_escape
scan_byte (hex zero) c = if is_xdigit c then ok (some plain) else err bad_unicode_escape
scan_byte (hex (suc k)) c = if is_xdigit c then ok (some (hex k)) else err bad_unicode_escape

-- The text ends inside the string.
unfoldable pub scan_end : Scan → Fault
scan_end plain = unterminated_string
scan_end escaped = bad_escape
scan_end (hex k) = bad_unicode_escape

-- The number of bytes up to the closing quote and with it.
unfoldable pub string_scan : Scan → List ℕ → Result ℕ
unfolding scan_byte scan_end
string_scan m [] = err (scan_end m)
string_scan m (c ∷ cs) = do
  next ← scan_byte m c
  elim next [ none ↦ ok 1 | some m' ↦ (string_scan m' cs >>= λ k. ok (suc k)) ]

unfoldable pub parse_string_tok : List ℕ → Option ℕ → Parser → Result (ℕ × Parser)
unfolding token_new string_scan
parse_string_tok s parent p = do
  let begin = p.pos + 1
  (i, q) ← token_new (record p { pos = begin }) string begin parent
  k ← string_scan plain (drop begin s)
  r ← set_end (record q { pos = begin + k }) i (begin + k - 1)
  ok (i, r)

-- The bytes of a primitive.
unfoldable pub primitive_span : List ℕ → ℕ
primitive_span [] = 0
primitive_span (c ∷ cs) =
    let rest = primitive_span cs in if is_space c || ends_primitive c then 0 else suc rest

unfoldable pub parse_primitive : List ℕ → Option ℕ → Parser → Result (ℕ × Parser)
unfolding token_new primitive_span
parse_primitive s parent p = do
  (i, q) ← token_new p primitive p.pos parent
  let k = primitive_span (drop p.pos s)
  r ← set_end (record q { pos = p.pos + k }) i (p.pos + k)
  die_if (k == 0) bad_primitive
  die_if (not (primitive_valid (take k (drop p.pos s)))) bad_primitive
  ok (i, r)

-- What is parsed next: a value, or the rest of the container that token `i` stands for.
pub data Task : Type 0 where
  value : Option ℕ → Task
  items : Kind → ℕ → Task

abbrev pub closing : Kind → ℕ
closing object = b'}'
closing array = b']'
closing string = 0
closing primitive = 0

unfoldable pub parse_container :
    (Task → Parser → Result (ℕ × Parser)) → Kind → Option ℕ → Parser → Result (ℕ × Parser)
unfolding token_new
parse_container again kind parent p = do
  (i, q) ← token_new (record p { pos = p.pos + 1 }) kind p.pos parent
  die_if (ltb max_depth (q.depth + 1)) nesting_too_deep
  again (items kind i) (record q { depth = q.depth + 1 })

unfoldable pub parse_value :
    (Task → Parser → Result (ℕ × Parser)) → List ℕ → Option ℕ → Parser → Result (ℕ × Parser)
unfolding skip_space parse_string_tok parse_primitive parse_container
parse_value again s parent p₀ = do
  let p = skip_space s p₀
  die_if (leb (length s) p.pos) missing_value
  c ← byte_at s p.pos
  if c == b'"'
      then parse_string_tok s parent p
      else if c == b'{'
      then parse_container again object parent p
      else if c == b'['
      then parse_container again array parent p
      else parse_primitive s parent p

-- The comma behind an item.
unfoldable pub parse_comma : List ℕ → Token → Parser → Result Parser
unfolding skip_space
parse_comma s t p = if t.size == 0 then ok p else (do
  c ← byte_at s p.pos
  die_if (not (c == b',')) expected_comma
  ok (skip_space s (record p { pos = p.pos + 1 })))

-- The key and the colon in front of a value of an object.
unfoldable pub parse_key : List ℕ → ℕ → Parser → Result Parser
unfolding skip_space parse_string_tok
parse_key s i p = do
  die_if (leb (length s) p.pos) key_must_be_string
  c ← byte_at s p.pos
  die_if (not (c == b'"')) key_must_be_string
  (k, q) ← parse_string_tok s (some i) p
  let r = skip_space s q
  die_if (leb (length s) r.pos) expected_colon
  d ← byte_at s r.pos
  die_if (not (d == b':')) expected_colon
  ok (record r { pos = r.pos + 1 })

abbrev pub parse_key_of : Kind → List ℕ → ℕ → Parser → Result Parser
parse_key_of object s i p = parse_key s i p
parse_key_of array s i p = ok p
parse_key_of string s i p = ok p
parse_key_of primitive s i p = ok p

unfoldable pub parse_item :
    (Task → Parser → Result (ℕ × Parser)) → List ℕ → Kind → ℕ → Token → Parser → Result (ℕ × Parser)
unfolding parse_comma parse_key
parse_item again s kind i t p = do
  q ← parse_comma s t p
  r ← parse_key_of kind s i q
  (k, u) ← again (value (some i)) r
  again (items kind i) u

abbrev pub token_at : Parser → ℕ → Result Token
token_at p i = elim (get_elem? p.tokens i) [ none ↦ err out_of_bounds | some t ↦ ok t ]

-- One round of the loop over the items of a container.
unfoldable pub parse_items :
    (Task → Parser → Result (ℕ × Parser)) → List ℕ → Kind → ℕ → Parser → Result (ℕ × Parser)
unfolding skip_space parse_item
parse_items again s kind i p₀ = do
  let p = skip_space s p₀
  die_if (leb (length s) p.pos) unterminated_container
  c ← byte_at s p.pos
  if c == closing kind
      then (do
        q ← set_end (record p { pos = p.pos + 1 }) i (p.pos + 1)
        ok (i, record q { depth = q.depth - 1 }))
      else (do t ← token_at p i; parse_item again s kind i t p)

unfoldable pub parse : ℕ → List ℕ → Task → Parser → Result (ℕ × Parser)
unfolding parse_value parse_items
parse zero s task p = err out_of_fuel
parse (suc fuel) s (value parent) p = parse_value (parse fuel s) s parent p
parse (suc fuel) s (items kind i) p = parse_items (parse fuel s) s kind i p

-- `json_tokens` up to the test of the keys.
unfoldable pub tokens_unchecked : List ℕ → Result (List Token)
unfolding parse skip_space
tokens_unchecked s = do
  die_if (ltb max_json (length s)) input_too_large
  (i, p) ←
      parse (2 * length s + 1) s (value none) (record { pos = 0; tokens = []; cap = 0; depth = 0 })
  die_if (not ((skip_space s p).pos == length s)) trailing_data
  ok p.tokens
