-- ===== src/Json/Tokens/Bounds.antt =====
-- The tokenizer stays inside the text and the token array, and ends; its tokens fit the text.
use jev_bush.Prelude.{
  ℕ, zero, suc, ◌+◌, ◌-◌, ◌*◌, ◌<◌, ◌≤◌, ◌≡◌, inl, inr, refl, sym, subst, arith, List, [], ◌∷◌,
  Option, none, some, not, ltb, leb, ◌==◌, length, get_elem?, set, length-set, get_elem?_of_lt,
  get_elem?-lt,
}
use jev_bush.Fault.{
  Result, ok, missing_value, nesting_too_deep, unterminated_container, expected_comma,
  key_must_be_string, expected_colon, trailing_data, input_too_large,
}
use jev_bush.Fault.Clean.{Clean, Clean->>=, Clean-die_if, Clean-if, Clean-ok, Clean-weaken}
use jev_bush.Json.Tokens.{
  Kind, object, array, string, primitive, Token, Parser, max_depth, max_json, byte_at, token_new,
  set_end, skip_space, parse_string_tok, Task, value, items, closing, parse_container, parse_value,
  parse_comma, parse_key, parse_key_of, parse_item, token_at, parse_items, parse, tokens_unchecked,
}
use jev_bush.Json.Tokens.Spans.{Body, Sound, Spans, Starts}
use jev_bush.Json.Tokens.Clean.{
  byte_at-Clean, Within, Added, token_new-Clean, set_end_at, skip_space_bound, skip_space_tokens,
  Grown, Held, Grown-refl, Grown-trans, Grown-close, Grown-new, Gone, Gone-trans, Parsed,
  Parsed-trans, parse_string_tok-Clean, parse_primitive-Clean, Within-more,
}

abbrev IsContainer : Kind → Type 0
IsContainer object = Unit
IsContainer array = Unit
IsContainer string = ⊥
IsContainer primitive = ⊥

-- The token that a task hangs on exists, and a container's began before.
abbrev Fits : Task → Parser → Type 0
Fits (value parent) p = Within parent (length p.tokens)
Fits (items kind i) p =
    (start : ℕ) × Starts p.tokens i kind start × (start < p.pos) × IsContainer kind

-- The token that a task completes beside the new ones.
abbrev completed : Task → List ℕ
completed (value parent) = []
completed (items kind i) = i ∷ []

-- The fuel that a task needs: two for each byte left, and a little.
abbrev fuel_need : List ℕ → Task → Parser → ℕ
fuel_need s (value parent) p = 2 * (length s - p.pos) + 1
fuel_need s (items kind i) p = 2 * (length s - p.pos) + 2

abbrev Parses : List ℕ → ℕ → (Task → Parser → Result (ℕ × Parser)) → Type 0
Parses s fuel again =
    (task : Task) (p : Parser)
    → p.pos ≤ length s
    → Held p
    → Fits task p
    → fuel_need s task p ≤ fuel
    → Clean (Parsed s (completed task) p) (again task p)

Clean-Parsed :
    (s closed : List ℕ) (p q : Parser) (r : Result (ℕ × Parser))
    → Gone s [] p q
    → Clean (Parsed s closed q) r
    → Clean (Parsed s closed p) r
Clean-Parsed s closed p q r gone c =
    Clean-weaken (Parsed s closed q) (Parsed s closed p) r c
      λ v h. Parsed-trans s closed p q v gone h

Gone-refl : (s : List ℕ) (p : Parser) → p.pos ≤ length s → Held p → Gone s [] p p
Gone-refl s p h held = (omega arith, h, held, Grown-refl s p.tokens)

-- Bytes are passed over.
Gone-pos :
    (s : List ℕ) (p : Parser) (n : ℕ)
    → p.pos ≤ n
    → n ≤ length s
    → Held p
    → Gone s [] p (record p { pos = n })
Gone-pos s p n h k held = (h, k, held, Grown-refl s p.tokens)

skip_space-Gone :
    (s : List ℕ) (p : Parser) → p.pos ≤ length s → Held p → Gone s [] p (skip_space s p)
unfolding skip_space
skip_space-Gone s p h held =
    let bound = skip_space_bound s p h in
    (
      bound.0,
      bound.1,
      held,
      subst (λ ts. Grown s [] p.tokens ts) (sym (skip_space_tokens s p)) (Grown-refl s p.tokens),
    )

parse_container-Clean :
    (s : List ℕ) (fuel : ℕ) (again : Task → Parser → Result (ℕ × Parser)) (kind : Kind)
    (parent : Option ℕ) (p : Parser)
    → IsContainer kind
    → Parses s fuel again
    → p.pos < length s
    → Held p
    → Within parent (length p.tokens)
    → 2 * (length s - p.pos) ≤ fuel
    → Clean (Parsed s [] p) (parse_container again kind parent p)
unfolding parse_container
parse_container-Clean s fuel again kind parent p container parses inside held within enough =
    let u = record p { pos = p.pos + 1 } in
    Clean->>= (Added s u kind p.pos) (Parsed s [] p) (token_new u kind p.pos parent) _
      (token_new-Clean s u kind p.pos parent held within)
      λ (i, q) (last, here, more, held', starts, keeps, spans).
        Clean-die_if (Parsed s [] p) (ltb max_depth (q.depth + 1)) nesting_too_deep _ refl λ _.
          let v = record q { depth = q.depth + 1 } in
          Clean-weaken (Parsed s (i ∷ []) v) (Parsed s [] p) (again (items kind i) v)
            (parses (items kind i) v (omega arith) held' (p.pos, starts, omega arith, container)
              (omega arith))
            λ r (far, valid, (on, in_text, held'', grown)). (
              omega arith,
              valid,
              (
                omega arith,
                in_text,
                held'',
                Grown-new s p i q.tokens r.1.tokens more keeps spans grown,
              ),
            )

parse_value-Clean :
    (s : List ℕ) (fuel : ℕ) (again : Task → Parser → Result (ℕ × Parser)) (parent : Option ℕ)
    (p₀ : Parser)
    → Parses s fuel again
    → p₀.pos ≤ length s
    → Held p₀
    → Within parent (length p₀.tokens)
    → 2 * (length s - p₀.pos) ≤ fuel
    → Clean (Parsed s [] p₀) (parse_value again s parent p₀)
unfolding parse_value
parse_value-Clean s fuel again parent p₀ parses inside held within enough =
    let p = skip_space s p₀ in
    let gone = skip_space-Gone s p₀ inside held in
    let within' = Within-more parent (length p₀.tokens) (length p.tokens) gone.3.0 within in
    Clean-Parsed s [] p₀ p _ gone (
      Clean-die_if (Parsed s [] p) (leb (length s) p.pos) missing_value _ refl λ more.
        let left : p.pos < length s = ground arith in
        let container = λ (kind : Kind) (is : IsContainer kind).
          parse_container-Clean s fuel again kind parent p is parses left gone.2 within'
            (omega (arith, gone.0)) in
        Clean->>= (λ c. Unit {0}) (Parsed s [] p) (byte_at s p.pos) _ (byte_at-Clean s p.pos left)
          λ c _.
            Clean-if (Parsed s [] p) (c == b'"') _ _
              (parse_string_tok-Clean s parent p left gone.2 within')
              λ _. Clean-if (Parsed s [] p) (c == b'{') _ _ (container object tt) λ _.
                Clean-if (Parsed s [] p) (c == b'[') _ _ (container array tt)
                  λ _. parse_primitive-Clean s parent p left gone.2 within')

parse_comma-Clean :
    (s : List ℕ) (t : Token) (p : Parser)
    → p.pos < length s
    → Held p
    → Clean (Gone s [] p) (parse_comma s t p)
unfolding parse_comma
parse_comma-Clean s t p inside held =
    Clean-if (Gone s [] p) (t.size == 0) (ok p) _ (Gone-refl s p (omega arith) held) λ _.
      Clean->>= (λ c. Unit {0}) (Gone s [] p) (byte_at s p.pos) _ (byte_at-Clean s p.pos inside)
        λ c _. Clean-die_if (Gone s [] p) (not (c == b',')) expected_comma _ refl λ _.
          let u = record p { pos = p.pos + 1 } in
          Gone-trans s [] p u (skip_space s u)
            (Gone-pos s p (p.pos + 1) (omega arith) (omega arith) held)
            (skip_space-Gone s u (omega arith) held)

parse_key-Clean :
    (s : List ℕ) (i : ℕ) (p : Parser)
    → Held p
    → i < length p.tokens
    → Clean (Gone s [] p) (parse_key s i p)
unfolding parse_key
parse_key-Clean s i p held within =
    Clean-die_if (Gone s [] p) (leb (length s) p.pos) key_must_be_string _ refl λ more.
      let left : p.pos < length s = ground arith in
      Clean->>= (λ c. Unit {0}) (Gone s [] p) (byte_at s p.pos) _ (byte_at-Clean s p.pos left)
        λ c _. Clean-die_if (Gone s [] p) (not (c == b'"')) key_must_be_string _ refl λ _.
          Clean->>= (Parsed s [] p) (Gone s [] p) (parse_string_tok s (some i) p) _
            (parse_string_tok-Clean s (some i) p left held within)
            λ (k, q) h.
              let r = skip_space s q in
              let gone = skip_space-Gone s q h.2.1 h.2.2 in
              Clean-die_if (Gone s [] p) (leb (length s) r.pos) expected_colon _ refl λ still.
                let here : r.pos < length s = ground arith in
                Clean->>= (λ d. Unit {0}) (Gone s [] p) (byte_at s r.pos) _
                  (byte_at-Clean s r.pos here)
                  λ d _. Clean-die_if (Gone s [] p) (not (d == b':')) expected_colon _ refl λ _.
                    Gone-trans s [] p q (record r { pos = r.pos + 1 }) h.2
                      (Gone-trans s [] q r (record r { pos = r.pos + 1 }) gone
                        (Gone-pos s r (r.pos + 1) (omega arith) (omega arith) gone.2))

parse_key_of-Clean :
    (s : List ℕ) (kind : Kind) (i : ℕ) (p : Parser)
    → p.pos ≤ length s
    → Held p
    → i < length p.tokens
    → Clean (Gone s [] p) (parse_key_of kind s i p)
parse_key_of-Clean s object i p inside held within = parse_key-Clean s i p held within
parse_key_of-Clean s array i p inside held within = Gone-refl s p inside held
parse_key_of-Clean s string i p inside held within = Gone-refl s p inside held
parse_key_of-Clean s primitive i p inside held within = Gone-refl s p inside held

Starts-lt :
    (ts : List Token) (i : ℕ) (kind : Kind) (start : ℕ) → Starts ts i kind start → i < length ts
Starts-lt ts i kind start (t, at, kinds, starts) = get_elem?-lt ts i at

parse_item-Clean :
    (s : List ℕ) (fuel : ℕ) (again : Task → Parser → Result (ℕ × Parser)) (kind : Kind) (i : ℕ)
    (t : Token) (p : Parser)
    → Parses s fuel again
    → p.pos < length s
    → Held p
    → Fits (items kind i) p
    → 2 * (length s - p.pos) + 1 ≤ fuel
    → Clean (Parsed s (i ∷ []) p) (parse_item again s kind i t p)
unfolding parse_item
parse_item-Clean s fuel again kind i t p parses inside held (start, starts, before, container)
      enough =
    let known = Starts-lt p.tokens i kind start starts in
    Clean->>= (Gone s [] p) (Parsed s (i ∷ []) p) (parse_comma s t p) _
      (parse_comma-Clean s t p inside held)
      λ q (q_on, q_in, q_held, q_grown).
        Clean->>= (Gone s [] q) (Parsed s (i ∷ []) p) (parse_key_of kind s i q) _
          (parse_key_of-Clean s kind i q q_in q_held (omega (arith, q_grown.0)))
          λ r (r_on, r_in, r_held, r_grown).
            Clean->>= (Parsed s [] r) (Parsed s (i ∷ []) p) (again (value (some i)) r) _
              (parses (value (some i)) r r_in r_held (omega (arith, q_grown.0, r_grown.0))
                (omega arith))
              λ (k, u) (far, valid, (on, in_text, u_held, grown)).
                let grown_u =
                  Grown-trans s [] p.tokens q.tokens u.tokens q_grown
                    (Grown-trans s [] q.tokens r.tokens u.tokens r_grown grown) in
                Clean-Parsed s (i ∷ []) p u _ (omega arith, in_text, u_held, grown_u)
                  (parses (items kind i) u in_text u_held
                    (start, grown_u.1 i kind start starts, omega arith, container) (omega arith))

token_at-Clean : (p : Parser) (i : ℕ) → i < length p.tokens → Clean (λ t. Unit {0}) (token_at p i)
token_at-Clean p i h = let (t, e) = get_elem?_of_lt p.tokens i h in rw (Clean, token_at, e) tt

Body-container : (s : List ℕ) (kind : Kind) (a e : ℕ) → IsContainer kind → a < e → Body s kind a e
Body-container s object a e container h = h
Body-container s array a e container h = h
Body-container s string a e container h = absurd container
Body-container s primitive a e container h = absurd container

-- The closing byte of a container.
close-Parsed :
    (s : List ℕ) (kind : Kind) (i : ℕ) (p : Parser)
    → p.pos < length s
    → Held p
    → Fits (items kind i) p
    → (q : Parser) × (set_end (record p { pos = p.pos + 1 }) i (p.pos + 1) ≡ ok q)
      × Parsed s (i ∷ []) p (i, record q { depth = q.depth - 1 })
close-Parsed s kind i p inside held (start, (t, at, kinds, starts), before, container) =
    let u = record t { end_at = some (p.pos + 1) } in
    let v = record p { pos = p.pos + 1 } in
    let body = Body-container s kind start (p.pos + 1) container (omega arith) in
    let sound : Sound s u = (
      p.pos + 1,
      refl,
      omega arith,
      omega arith,
      subst (λ k. Body s k t.start (p.pos + 1)) (sym kinds)
          (subst (λ a. Body s kind a (p.pos + 1)) (sym starts) body),
    ) in
    let valid = get_elem?-lt p.tokens i at in
    let size = length-set p.tokens i u in
    (
      record v { tokens = set p.tokens i u },
      set_end_at v i (p.pos + 1) t at,
      (
        omega arith,
        omega arith,
        (
          omega arith,
          omega arith,
          omega (arith, size, held),
          Grown-close s p.tokens i (p.pos + 1) t at sound,
        ),
      ),
    )

parse_items-Clean :
    (s : List ℕ) (fuel : ℕ) (again : Task → Parser → Result (ℕ × Parser)) (kind : Kind) (i : ℕ)
    (p₀ : Parser)
    → Parses s fuel again
    → p₀.pos ≤ length s
    → Held p₀
    → Fits (items kind i) p₀
    → 2 * (length s - p₀.pos) + 1 ≤ fuel
    → Clean (Parsed s (i ∷ []) p₀) (parse_items again s kind i p₀)
unfolding parse_items
parse_items-Clean s fuel again kind i p₀ parses inside held (start, starts, before, container)
      enough =
    let p = skip_space s p₀ in
    let gone = skip_space-Gone s p₀ inside held in
    let starts' = gone.3.1 i kind start starts in
    let fits : Fits (items kind i) p = (start, starts', omega (arith, gone.0), container) in
    Clean-Parsed s (i ∷ []) p₀ p _ gone (
      Clean-die_if (Parsed s (i ∷ []) p) (leb (length s) p.pos) unterminated_container _ refl
        λ more.
          let left : p.pos < length s = ground arith in
          let (q, closed, done) = close-Parsed s kind i p left gone.2 fits in
          Clean->>= (λ c. Unit {0}) (Parsed s (i ∷ []) p) (byte_at s p.pos) _
            (byte_at-Clean s p.pos left)
            λ c _.
              Clean-if (Parsed s (i ∷ []) p) (c == closing kind) _ _
                (Clean-ok (Parsed s (i ∷ []) p)
                  (set_end (record p { pos = p.pos + 1 }) i (p.pos + 1)) q _ closed done)
                λ _.
                  Clean->>= (λ t. Unit {0}) (Parsed s (i ∷ []) p) (token_at p i) _
                    (token_at-Clean p i (Starts-lt p.tokens i kind start starts'))
                    λ t _.
                      parse_item-Clean s fuel again kind i t p parses left gone.2 fits
                        (omega (arith, gone.0)))

parse-Clean : (fuel : ℕ) (s : List ℕ) → Parses s fuel (parse fuel s)
unfolding parse
parse-Clean zero s (value parent) p inside held fits enough = absurd (omega arith)
parse-Clean zero s (items kind i) p inside held fits enough = absurd (omega arith)
parse-Clean (suc fuel) s (value parent) p inside held fits enough =
    parse_value-Clean s fuel (parse fuel s) parent p (parse-Clean fuel s) inside held fits
      (omega arith)
parse-Clean (suc fuel) s (items kind i) p inside held fits enough =
    parse_items-Clean s fuel (parse fuel s) kind i p (parse-Clean fuel s) inside held fits
      (omega arith)

Spans-nil : (s : List ℕ) → Spans s [] []
Spans-nil s j t e = absurd cc

Spans-all :
    (s : List ℕ) (ts : List Token)
    → Spans s [] ts
    → (j : ℕ) (t : Token) → get_elem? ts j ≡ some t
    → Sound s t
Spans-all s ts spans j t e = elim (spans j t e) [ inl busy ↦ absurd cc | inr sound ↦ sound ]

-- There is a token, and each token is complete and fits the text.
abbrev pub AllSound : List ℕ → List Token → Type 0
AllSound s ts = (0 < length ts) × ((j : ℕ) (t : Token) → get_elem? ts j ≡ some t → Sound s t)

-- Tokenizing any text ends, without a read or a write outside the text and the token array: it
-- dies with one of the messages, or gives at least one token, where every token has an end inside
-- the text, not before its start; what a primitive spans is a JSON literal or number, and what
-- follows the start of a string is its characters up to its end and the closing quote.
pub tokens_unchecked-Clean : (s : List ℕ) → Clean (AllSound s) (tokens_unchecked s)
unfolding tokens_unchecked
tokens_unchecked-Clean s =
    let p : Parser = record { pos = 0; tokens = []; cap = 0; depth = 0 } in
    let Q = AllSound s in
    Clean-die_if Q (ltb max_json (length s)) input_too_large _ refl λ _.
      Clean->>= (Parsed s [] p) Q (parse (2 * length s + 1) s (value none) p) _
        (parse-Clean (2 * length s + 1) s (value none) p (omega arith) (omega arith) tt
          (omega arith))
        λ (i, q) (far, valid, (on, in_text, held, grown)).
          Clean-die_if Q (not ((skip_space s q).pos == length s)) trailing_data _ refl
            λ _. (omega arith, Spans-all s q.tokens (grown.2 [] (Spans-nil s)))
