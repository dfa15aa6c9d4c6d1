-- ===== src/Json/Tokens/Clean.antt =====
-- The pieces of the tokenizer stay inside the text and the token array.
use jev_bush.Prelude.{
  ℕ, zero, suc, ◌+◌, ◌-◌, ◌/◌, ◌<◌, ◌≤◌, ◌≡◌, inl, inr, refl, sym, ap, subst, ◌∙◌, arith, List, [],
  ◌∷◌, ◌++◌, Option, none, some, true, false, not, ltb, leb, ◌*◌, ◌==◌, if◌then◌else◌, length,
  get_elem?, set, take, drop, Bool-cases, length-append, length-set, length-drop, get_elem?_of_lt,
}
use jev_bush.Fault.{
  out_of_bounds, ok, err, ◌>>=◌, bad_escape, bad_unicode_escape, control_byte, bad_primitive,
}
use jev_bush.Fault.Clean.{
  is_message, Clean, Clean->>=, Clean-die_if, Clean-if, Clean-ok, Clean-then, Clean-pass,
}
use jev_bush.Json.Bytes.{is_xdigit, is_escape}
use jev_bush.Json.Primitive.{primitive_valid}
use jev_bush.Json.Tokens.Spans.{
  Body, Sound, Spans, Starts, Keeps, Keeps-trans, Keeps-snoc, get_elem?-last, Spans-snoc, Keeps-set,
  Spans-set, Spans-close,
}
use jev_bush.Json.Tokens.{
  Kind, string, primitive, Token, Parser, int32_max, byte_at, with_token, grow, count_child,
  token_new, set_end, spaces, skip_space, Scan, plain, escaped, hex, scan_byte, scan_end,
  string_scan, parse_string_tok, primitive_span, parse_primitive,
}

pub byte_at-Clean : (s : List ℕ) (i : ℕ) → i < length s → Clean (λ c. Unit {0}) (byte_at s i)
byte_at-Clean s i h = let (c, e) = get_elem?_of_lt s i h in rw (Clean, byte_at, e) tt

-- Tokens that go on from others: those that `closed` names were being parsed and are complete now.
abbrev pub Grown : List ℕ → List ℕ → List Token → List Token → Type 0
Grown s closed ts us =
    (length ts ≤ length us)
    × Keeps ts us
    × ((open_ones : List ℕ) → Spans s (closed ++ open_ones) ts → Spans s open_ones us)

pub Grown-refl : (s : List ℕ) (ts : List Token) → Grown s [] ts ts
Grown-refl s ts = (omega arith, λ j kind start at. at, λ open_ones spans. spans)

pub Grown-trans :
    (s closed : List ℕ) (ts us vs : List Token)
    → Grown s [] ts us
    → Grown s closed us vs
    → Grown s closed ts vs
Grown-trans s closed ts us vs (longer, keeps, spans) (longer', keeps', spans') = (
  omega arith,
  Keeps-trans ts us vs keeps keeps',
  λ open_ones given. spans' open_ones (spans (closed ++ open_ones) given),
)

-- Nothing but the tokens has changed.
abbrev Kept : List ℕ → Parser → Parser → Type 0
Kept s p q =
    (q.pos ≡ p.pos)
    × (q.cap ≡ p.cap)
    × (length q.tokens ≡ length p.tokens)
    × Grown s [] p.tokens q.tokens

-- The tokens lie in the array.
abbrev pub Held : Parser → Type 0
Held p = length p.tokens ≤ p.cap

-- There is room for one token more.
abbrev Roomy : Parser → Parser → Type 0
Roomy p q = (q.pos ≡ p.pos) × (q.tokens ≡ p.tokens) × (length p.tokens < q.cap)

doubled : (n : ℕ) → n < (if n == 0 then 256 else n * 2)
doubled n = ground arith

grow-Clean : (p : Parser) → Held p → Clean (Roomy p) (grow p)
grow-Clean p held = elim (Bool-cases (length p.tokens == p.cap)) [
  | inl full ↦ elim (Bool-cases (ltb (int32_max / 2) p.cap)) [
    | inl big ↦ rw (full, big) refl
    | inr small ↦
        let more = doubled p.cap in
        let wide = if p.cap == 0 then 256 else p.cap * 2 in
        let same : length p.tokens ≡ p.cap = ground arith in
        rw (full, small) (refl, refl, subst (λ n. n < wide) (sym same) more)
  ]
  | inr room ↦ let less : length p.tokens < p.cap = ground arith in rw room (refl, refl, less)
]

pub with_token_at :
    (p : Parser) (i : ℕ) (f : Token → Token) (t : Token)
    → get_elem? p.tokens i ≡ some t
    → with_token p i f ≡ ok (record p { tokens = set p.tokens i (f t) })
with_token_at p i f t at = rw (with_token, at) refl

abbrev pub Within : Option ℕ → ℕ → Type 0
Within none n = Unit
Within (some q) n = q < n

count_child-Clean :
    (s : List ℕ) (parent : Option ℕ) (p : Parser)
    → Within parent (length p.tokens)
    → Clean (Kept s p) (count_child parent p)
count_child-Clean s none p h = (refl, refl, refl, Grown-refl s p.tokens)
count_child-Clean s (some q) p h =
    let (t, at) = get_elem?_of_lt p.tokens q h in
    let u = record t { size = t.size + 1 } in
    let same = length-set p.tokens q u in
    subst (Clean (Kept s p)) (sym (with_token_at p q (λ t. record t { size = t.size + 1 }) t at)) (
      refl,
      refl,
      same,
      (
        omega arith,
        Keeps-set p.tokens q t u at refl refl,
        λ open_ones. Spans-set s open_ones p.tokens q t u at (λ sound. sound),
      ),
    )

-- A new token `i`, the last.
abbrev pub Added : List ℕ → Parser → Kind → ℕ → ℕ × Parser → Type 0
Added s p kind start r =
    (r.0 ≡ length p.tokens)
    × (r.1.pos ≡ p.pos)
    × (length r.1.tokens ≡ length p.tokens + 1)
    × Held r.1
    × Starts r.1.tokens r.0 kind start
    × Keeps p.tokens r.1.tokens
    × ((open_ones : List ℕ) → Spans s open_ones p.tokens → Spans s (r.0 ∷ open_ones) r.1.tokens)

pub Within-more : (parent : Option ℕ) (n m : ℕ) → n ≤ m → Within parent n → Within parent m
Within-more none n m h w = tt
Within-more (some q) n m h w = omega arith

has_room : (cap n : ℕ) → n < cap → leb cap n ≡ false
has_room cap n h = ground arith

pub token_new-Clean :
    (s : List ℕ) (p : Parser) (kind : Kind) (start : ℕ) (parent : Option ℕ)
    → Held p
    → Within parent (length p.tokens)
    → Clean (Added s p kind start) (token_new p kind start parent)
unfolding token_new
token_new-Clean s p kind start parent held h =
    Clean->>= _ (Added s p kind start) (grow p) _ (grow-Clean p held) λ q (here, same, room).
      Clean-pass (Added s p kind start) (leb q.cap (length q.tokens)) out_of_bounds _
        (has_room q.cap (length q.tokens) (subst (λ ts. length ts < q.cap) (sym same) room))
        (let t : Token = record {
          kind = kind;
          start = start;
          end_at = none;
          parent = parent;
          size = 0;
        } in
          let u = record q { tokens = q.tokens ++ t ∷ [] } in
          let longer : length u.tokens ≡ length p.tokens + 1 =
            omega (arith, length-append q.tokens (t ∷ []), ap length same) in
          Clean->>= (Kept s u) (Added s p kind start) (count_child parent u) _
            (count_child-Clean s parent u
              (Within-more parent (length p.tokens) (length u.tokens) (omega arith) h))
            λ r (there, caps, kept, (more, keeps, spans)). (
              ap length same,
              there ∙ here,
              kept ∙ longer,
              omega (arith, kept, longer, caps, room),
              keeps (length q.tokens) kind start (t, get_elem?-last q.tokens t, refl, refl),
              Keeps-trans p.tokens u.tokens r.tokens
                  (subst (λ ts. Keeps ts u.tokens) same (Keeps-snoc q.tokens t)) keeps,
              λ open_ones given.
                  spans (length q.tokens ∷ open_ones) (
                    Spans-snoc s open_ones q.tokens t (subst (Spans s open_ones) (sym same) given)),
            ))

-- Token `i` gets its end.
pub set_end_at :
    (p : Parser) (i e : ℕ) (t : Token)
    → get_elem? p.tokens i ≡ some t
    → set_end p i e ≡ ok (record p { tokens = set p.tokens i (record t { end_at = some e }) })
set_end_at p i e t at = with_token_at p i (λ t. record t { end_at = some e }) t at

pub Grown-close :
    (s : List ℕ) (ts : List Token) (i e : ℕ) (t : Token)
    → get_elem? ts i ≡ some t
    → Sound s (record t { end_at = some e })
    → Grown s (i ∷ []) ts (set ts i (record t { end_at = some e }))
Grown-close s ts i e t at sound =
    let u = record t { end_at = some e } in
    let same = length-set ts i u in
    (
      omega arith,
      Keeps-set ts i t u at refl refl,
      λ open_ones. Spans-close s open_ones ts i t u at sound,
    )

-- A new token that gets its end at once.
pub Grown-new :
    (s : List ℕ) (p : Parser) (i : ℕ) (us vs : List Token)
    → length us ≡ length p.tokens + 1
    → Keeps p.tokens us
    → ((open_ones : List ℕ) → Spans s open_ones p.tokens → Spans s (i ∷ open_ones) us)
    → Grown s (i ∷ []) us vs
    → Grown s [] p.tokens vs
Grown-new s p i us vs more keeps spans (longer, keeps', spans') = (
  omega arith,
  Keeps-trans p.tokens us vs keeps keeps',
  λ open_ones given. spans' open_ones (spans open_ones given),
)

spaces_bound : (cs : List ℕ) → spaces cs ≤ length cs
unfolding spaces
spaces_bound [] = omega arith
spaces_bound (c ∷ cs) = let rest = spaces_bound cs in ground arith

pub skip_space_bound :
    (s : List ℕ) (p : Parser)
    → p.pos ≤ length s
    → (p.pos ≤ (skip_space s p).pos) × ((skip_space s p).pos ≤ length s)
unfolding skip_space
skip_space_bound s p h =
    (omega arith, omega (arith, spaces_bound (drop p.pos s), length-drop p.pos s))

pub skip_space_tokens : (s : List ℕ) (p : Parser) → (skip_space s p).tokens ≡ p.tokens
unfolding skip_space
skip_space_tokens s p = refl

scan_byte-Clean : (m : Scan) (c : ℕ) → Clean (λ o. Unit {0}) (scan_byte m c)
unfolding scan_byte
scan_byte-Clean plain c =
    let P = λ (o : Option Scan). Unit {0} in
    Clean-if P (c == b'"') (ok none) _ tt λ _.
      Clean-if P (c == b'\\') (ok (some escaped)) _ tt
        λ _. Clean-if P (ltb c 0x20) (err control_byte) (ok (some plain)) refl λ _. tt
scan_byte-Clean escaped c =
    let P = λ (o : Option Scan). Unit {0} in
    Clean-if P (c == b'u') (ok (some (hex 3))) _ tt
      λ _. Clean-if P (is_escape c) (ok (some plain)) (err bad_escape) tt λ _. refl
scan_byte-Clean (hex zero) c =
    Clean-if (λ o. Unit {0}) (is_xdigit c) (ok (some plain)) (err bad_unicode_escape) tt λ _. refl
scan_byte-Clean (hex (suc k)) c =
    Clean-if (λ o. Unit {0}) (is_xdigit c) (ok (some (hex k))) (err bad_unicode_escape) tt λ _. refl

abbrev pub Scanned : List ℕ → ℕ → Type 0
Scanned cs k = (0 < k) × (k ≤ length cs)

scan_next :
    (o : Option Scan) (c : ℕ) (cs : List ℕ)
    → ((m : Scan) → Clean (Scanned cs) (string_scan m cs))
    → Clean
        (Scanned (c ∷ cs))
        (elim o [ none ↦ ok 1 | some m ↦ (string_scan m cs >>= λ k. ok (suc k)) ])
scan_next none c cs rest = (omega arith, omega arith)
scan_next (some m) c cs rest =
    Clean->>= (Scanned cs) (Scanned (c ∷ cs)) (string_scan m cs) _ (rest m)
      λ k h. (omega arith, omega arith)

scan_end-message : (m : Scan) → is_message (scan_end m) ≡ true
unfolding scan_end
scan_end-message plain = refl
scan_end-message escaped = refl
scan_end-message (hex k) = refl

pub string_scan-Clean : (m : Scan) (cs : List ℕ) → Clean (Scanned cs) (string_scan m cs)
unfolding string_scan
string_scan-Clean m [] = scan_end-message m
string_scan-Clean m (c ∷ cs) =
    Clean->>= (λ o. Unit {0}) (Scanned (c ∷ cs)) (scan_byte m c) _ (scan_byte-Clean m c)
      λ o _. scan_next o c cs (λ m'. string_scan-Clean m' cs)

primitive_span_bound : (cs : List ℕ) → primitive_span cs ≤ length cs
unfolding primitive_span
primitive_span_bound [] = omega arith
primitive_span_bound (c ∷ cs) = let rest = primitive_span_bound cs in ground arith

-- The parser has gone on inside the text.
abbrev pub Gone : List ℕ → List ℕ → Parser → Parser → Type 0
Gone s closed p q = (p.pos ≤ q.pos) × (q.pos ≤ length s) × Held q × Grown s closed p.tokens q.tokens

pub Gone-trans :
    (s closed : List ℕ) (p q r : Parser) → Gone s [] p q → Gone s closed q r → Gone s closed p r
Gone-trans s closed p q r (far, inside, held, grown) (far', inside', held', grown') =
    (omega arith, inside', held', Grown-trans s closed p.tokens q.tokens r.tokens grown grown')

-- It has read a byte at least, and gives back a token.
abbrev pub Parsed : List ℕ → List ℕ → Parser → ℕ × Parser → Type 0
Parsed s closed p r = (p.pos < r.1.pos) × (r.0 < length r.1.tokens) × Gone s closed p r.1

pub Parsed-trans :
    (s closed : List ℕ) (p q : Parser) (r : ℕ × Parser)
    → Gone s [] p q
    → Parsed s closed q r
    → Parsed s closed p r
Parsed-trans s closed p q r gone (more, inside, further) =
    (omega (arith, gone.0), inside, Gone-trans s closed p q r.1 gone further)

-- The last steps of a string or a primitive: its token `i` gets the end `e`.
finish-Parsed :
    (s : List ℕ) (p v r : Parser) (kind : Kind) (start i e : ℕ)
    (added : Added s p kind start (i, v))
    → r.tokens ≡ v.tokens
    → r.cap ≡ v.cap
    → p.pos < r.pos
    → r.pos ≤ length s
    → start ≤ e
    → e ≤ length s
    → Body s kind start e
    → let u = record added.4.0 { end_at = some e } in
      (set_end r i e ≡ ok (record r { tokens = set r.tokens i u }))
      × Parsed s [] p (i, record r { tokens = set r.tokens i u })
finish-Parsed s p v r kind start i e added same caps far inside after within body =
    let (last, here, more, held, (t, at, kinds, starts), keeps, spans) = added in
    let at' : get_elem? r.tokens i ≡ some t = subst (λ ts. get_elem? ts i ≡ some t) (sym same) at in
    let sound : Sound s (record t { end_at = some e }) = (
      e,
      refl,
      subst (λ (a : ℕ). a ≤ e) (sym starts) after,
      within,
      subst (λ k. Body s k t.start e) (sym kinds) (subst (λ a. Body s kind a e) (sym starts) body),
    ) in
    let u = record t { end_at = some e } in
    let size = length-set r.tokens i u in
    (
      set_end_at r i e t at',
      (
        far,
        omega (arith, ap length same),
        (
          omega arith,
          inside,
          omega (arith, size, ap length same, held, caps),
          Grown-new s p i v.tokens (set r.tokens i u) more keeps spans (
              subst (λ ts. Grown s (i ∷ []) ts (set r.tokens i u)) same
                (Grown-close s r.tokens i e t at' sound)),
        ),
      ),
    )

pub parse_string_tok-Clean :
    (s : List ℕ) (parent : Option ℕ) (p : Parser)
    → p.pos < length s
    → Held p
    → Within parent (length p.tokens)
    → Clean (Parsed s [] p) (parse_string_tok s parent p)
unfolding parse_string_tok
parse_string_tok-Clean s parent p inside held within =
    let begin = p.pos + 1 in
    let u = record p { pos = begin } in
    Clean->>= (Added s u string begin) (Parsed s [] p) (token_new u string begin parent) _
      (token_new-Clean s u string begin parent held within)
      λ (i, q) added.
        Clean-then (Scanned (drop begin s)) (Parsed s [] p) (string_scan plain (drop begin s)) _
          (string_scan-Clean plain (drop begin s))
          λ k scanned (some_bytes, few).
            let v = record q { pos = begin + k } in
            let bound : begin + k ≤ length s = omega (arith, few, length-drop begin s) in
            let size : begin + k - 1 - begin + 1 ≡ k = omega arith in
            let (ended, h) =
              finish-Parsed s u q v string begin i (begin + k - 1) added refl refl (omega arith)
                bound (omega arith) (omega arith) (scanned ∙ ap ok (sym size)) in
            Clean-ok (Parsed s [] p) (set_end v i (begin + k - 1)) _ _ ended
              (omega (arith, h.0), h.1, (omega (arith, h.0), h.2.1, h.2.2, h.2.3))

pub parse_primitive-Clean :
    (s : List ℕ) (parent : Option ℕ) (p : Parser)
    → p.pos < length s
    → Held p
    → Within parent (length p.tokens)
    → Clean (Parsed s [] p) (parse_primitive s parent p)
unfolding parse_primitive
parse_primitive-Clean s parent p inside held within =
    Clean->>= (Added s p primitive p.pos) (Parsed s [] p) (token_new p primitive p.pos parent) _
      (token_new-Clean s p primitive p.pos parent held within)
      λ (i, q) added.
        let k = primitive_span (drop p.pos s) in
        let v = record q { pos = p.pos + k } in
        let bound : p.pos + k ≤ length s =
          omega (arith, primitive_span_bound (drop p.pos s), length-drop p.pos s) in
        let (t, at, kinds, starts) = added.4 in
        Clean-ok (Parsed s [] p) (set_end v i (p.pos + k)) _ _ (set_end_at v i (p.pos + k) t at) (
          Clean-die_if (Parsed s [] p) (k == 0) bad_primitive _ refl λ some_bytes.
            Clean-die_if (Parsed s [] p) (not (primitive_valid (take k (drop p.pos s))))
              bad_primitive _ refl
              λ fine.
                let valid : primitive_valid (take k (drop p.pos s)) ≡ true = ground arith in
                let size : p.pos + k - p.pos ≡ k = omega arith in
                (finish-Parsed s p q v primitive p.pos i (p.pos + k) added refl refl (ground arith)
                  bound (omega arith) bound
                  (subst (λ n. primitive_valid (take n (drop p.pos s)) ≡ true) (sym size) valid)).1)
