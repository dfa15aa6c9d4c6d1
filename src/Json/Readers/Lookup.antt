-- ===== src/Json/Readers/Lookup.antt =====
-- `jt_obj_get` on the tokens that the tokenizer gave.
use jev_bush.Prelude.{
  both_true, ℕ, zero, suc, ◌+◌, ◌-◌, ◌<◌, ◌≤◌, ◌∙◌, ◌==◌, [], ◌∷◌, ◌≡◌, inl, inr, refl, ap, arith,
  List, Option, none, some, true, false, not, ◌&&◌, ltb, length, get_elem?, take, drop,
  if◌then◌else◌, Bool-cases, get_elem?_of_lt,
}
use jev_bush.Fault.{>>=-eq-ok, Result, ok, ◌>>=◌}
use jev_bush.Fault.Clean.{Always, Clean, Clean->>=, Clean-if, Clean-ok, Clean-then}
use jev_bush.Json.Tokens.{Kind, object, array, string, primitive, Token}
use jev_bush.Json.Tokens.Spans.{Sound}
use jev_bush.Json.Tokens.Bounds.{AllSound}
use jev_bush.Json.Primitive.Grammar.{same_bytes_iff}
use jev_bush.Json.Text.Scanned.{ok_eq}
use jev_bush.Json.Text.{span, copy_loop, check_utf8, string_copy_of, string_copy, string_alloc}
use jev_bush.Json.Text.Copy.{Copy, string_copy_into-Clean, string_alloc-ok, span_sound}
use jev_bush.Json.Readers.{
  is_string, is_object, has_byte, token_eq, parent_before, parent_is, token_at, object_scan,
  object_get,
}

pub token_eq-Clean :
    (s : List ℕ) (t : Token) (key : List ℕ) → Sound s t → Clean Always (token_eq s t key)
unfolding token_eq
token_eq-Clean s t key sound =
    let (e, at, before, inside, _) = sound in
    let body = take (e - t.start) (drop t.start s) in
    Clean-if Always (not (is_string t.kind)) _ _ tt λ _.
      Clean-ok Always (span s t) body _ (span_sound s t e at inside) (
        Clean-if Always (not (has_byte b'\\' body)) _ _ tt λ _.
          Clean->>= (Copy s t (e - t.start)) Always (string_alloc s t) _
            (string_copy_into-Clean s t sound (e - t.start + 1) (omega arith)).1 λ z short. tt)

-- The string that a token spans, its escapes replaced, is `key`.
abbrev pub IsText : List ℕ → Token → List ℕ → Type 0
IsText s t key = (body : List ℕ) × (span s t ≡ ok body) × (copy_loop (length body) body ≡ ok key)

copy_loop-plain :
    (fuel : ℕ) (body : List ℕ)
    → length body ≤ fuel
    → has_byte b'\\' body ≡ false
    → copy_loop fuel body ≡ ok body
unfolding copy_loop has_byte
copy_loop-plain fuel [] enough none_escaped = refl
copy_loop-plain zero (c ∷ body) enough none_escaped = absurd (omega arith)
copy_loop-plain (suc fuel) (c ∷ body) enough none_escaped =
    let here : (c == b'\\') ≡ false = ground (arith, none_escaped) in
    let others : has_byte b'\\' body ≡ false = ground (arith, none_escaped) in
    rw (here, copy_loop-plain fuel body (omega arith) others) refl

string_copy_of-copy_loop :
    (kind : Kind) (body z : List ℕ)
    → kind ≡ string
    → string_copy_of kind body ≡ ok z
    → copy_loop (length body) body ≡ ok z
unfolding string_copy_of
string_copy_of-copy_loop string body z is e =
    let (text, copied, e₁) = >>=-eq-ok (copy_loop (length body) body) _ e in
    let (_, checked, e₂) = >>=-eq-ok (check_utf8 (length text) text 0) _ e₁ in copied ∙ e₂
string_copy_of-copy_loop object body z is e = absurd cc
string_copy_of-copy_loop array body z is e = absurd cc
string_copy_of-copy_loop primitive body z is e = absurd cc

-- What a comparison that succeeds says.
token_eq-IsText :
    (s : List ℕ) (t : Token) (key : List ℕ)
    → t.kind ≡ string
    → token_eq s t key ≡ ok true
    → IsText s t key
unfolding token_eq string_copy
token_eq-IsText s t key is e =
    let is_text : is_string t.kind ≡ true = rw is refl in
    let (body, spans, e₁) = >>=-eq-ok (span s t) _ (rw is_text at e) in
    elim (Bool-cases (has_byte b'\\' body)) [
      | inr plain_text ↦
          let same : body ≡ key = (same_bytes_iff body key).0 (ok_eq (rw plain_text at e₁)) in
          (body, spans, copy_loop-plain (length body) body (omega arith) plain_text ∙ ap ok same)
      | inl escapes ↦
          let (text, copied, e₂) = >>=-eq-ok (string_alloc s t) _ (rw escapes at e₁) in
          let same : text ≡ key = (same_bytes_iff text key).0 (ok_eq e₂) in
          let (body', spans', e₃) = >>=-eq-ok (span s t) _ (string_alloc-ok s t text copied) in
          (body', spans', string_copy_of-copy_loop t.kind body' text is e₃ ∙ ap ok same)
    ]

-- The value `v` stands behind a name of the object `obj` that is `key`.
abbrev pub Named : List ℕ → List Token → ℕ → List ℕ → ℕ → Type 0
Named s ts obj key v =
    (i : ℕ) × (t : Token) × (v ≡ i + 1)
    × (get_elem? ts i ≡ some t)
    × (t.kind ≡ string)
    × (t.parent ≡ some obj)
    × IsText s t key
    × (obj < i)
    × (v < length ts)

-- What a lookup gives.
abbrev pub Found : List ℕ → List Token → ℕ → List ℕ → Option ℕ → Type 0
Found s ts obj key none = Unit
Found s ts obj key (some v) = Named s ts obj key v

is_string-true : (k : Kind) → is_string k ≡ true → k ≡ string
is_string-true string e = refl
is_string-true object e = cc
is_string-true array e = cc
is_string-true primitive e = cc

parent_is-true : (o : Option ℕ) (obj : ℕ) → parent_is o obj ≡ true → o ≡ some obj
parent_is-true none obj e = cc
parent_is-true (some q) obj e = let same : q ≡ obj = ground arith in ap some same

pub token_at-ok :
    (ts : List Token) (i : ℕ)
    → i < length ts
    → (t : Token) × (get_elem? ts i ≡ some t) × (token_at ts i ≡ ok t)
token_at-ok ts i inside =
    let (t, here) = get_elem?_of_lt ts i inside in (t, here, rw (here, token_at) refl)

scan_hit :
    (s : List ℕ) (ts : List Token) (obj : ℕ) (key : List ℕ) (i : ℕ) (t : Token)
    (next : Result (Option ℕ))
    → get_elem? ts i ≡ some t
    → (parent_is t.parent obj && is_string t.kind) ≡ true
    → Sound s t
    → obj < i
    → i + 1 < length ts
    → Clean (Found s ts obj key) next
    → Clean
        (Found s ts obj key)
        (token_eq s t key >>= λ same. if same then ok (some (i + 1)) else next)
scan_hit s ts obj key i t next here fits sound behind inside more =
    Clean-then Always (Found s ts obj key) (token_eq s t key) _ (token_eq-Clean s t key sound)
      λ same e _.
        let (inside_obj, text) = both_true (parent_is t.parent obj) (is_string t.kind) fits in
        let found : token_eq s t key ≡ ok true → Named s ts obj key (i + 1) = λ hit. (
          i,
          t,
          refl,
          here,
          is_string-true t.kind text,
          parent_is-true t.parent obj inside_obj,
          token_eq-IsText s t key (is_string-true t.kind text) hit,
          behind,
          inside,
        ) in
        (elim same
            as (λ b.
              token_eq s t key ≡ ok b
              → Clean (Found s ts obj key) (if b then ok (some (i + 1)) else next)) [
                | true ↦ found
                | false ↦ λ _. more
              ])
          e

object_scan-Clean :
    (fuel : ℕ) (s : List ℕ) (ts : List Token) (obj : ℕ) (key : List ℕ) (i : ℕ)
    → ((j : ℕ) (t : Token) → get_elem? ts j ≡ some t → Sound s t)
    → length ts ≤ fuel + i
    → obj < i
    → Clean (Found s ts obj key) (object_scan fuel s ts obj key i)
unfolding object_scan
object_scan-Clean zero s ts obj key i sound fuel_left behind =
    let past : ltb (i + 1) (length ts) ≡ false = ground arith in rw past tt
object_scan-Clean (suc fuel) s ts obj key i sound fuel_left behind =
    let F = Found s ts obj key in
    Clean-if F (not (ltb (i + 1) (length ts))) _ _ tt λ inside.
      let (t, here, loads) = token_at-ok ts i (ground arith) in
      Clean-ok F (token_at ts i) t _ loads (
        Clean-if F (parent_before t.parent obj) _ _ tt λ _.
          elim (Bool-cases (parent_is t.parent obj && is_string t.kind)) [
            | inl fits ↦ rw fits (
                scan_hit s ts obj key i t _ here fits (sound i t here) behind (ground arith)
                  (object_scan-Clean fuel s ts obj key (i + 2) sound (omega arith) (omega arith)))
            | inr other ↦
                rw other
                  (object_scan-Clean fuel s ts obj key (i + 1) sound (omega arith) (omega arith))
          ])

-- The same of an index that may be below 0.
abbrev pub FoundIn : List ℕ → List Token → Option ℕ → List ℕ → Option ℕ → Type 0
FoundIn s ts none key v = v ≡ none
FoundIn s ts (some obj) key v = Found s ts obj key v

-- Looking a key up among the tokens that the tokenizer gave ends, without a read outside the text
-- or the tokens, whatever index is asked, below 0 too: it dies with one of the messages, or gives
-- nothing, or the place of a token, among the tokens, right behind a string token that stands in
-- the object and whose text, with its escapes replaced, is the key.
pub object_get-Clean :
    (s : List ℕ) (ts : List Token) (obj : Option ℕ) (key : List ℕ)
    → AllSound s ts
    → Clean (FoundIn s ts obj key) (object_get s ts obj key)
unfolding object_get
object_get-Clean s ts none key sound = refl
object_get-Clean s ts (some obj) key sound =
    let scan = object_scan (length ts) s ts obj key (obj + 1) in
    let safe =
      object_scan-Clean (length ts) s ts obj key (obj + 1) sound.1 (omega arith) (omega arith) in
    elim (get_elem? ts obj)
      as (λ o.
        Clean (Found s ts obj key)
          (elim o [ none ↦ ok none | some t ↦ if not (is_object t.kind) then ok none else scan ])) [
            | none ↦ tt
            | some t ↦
                Clean-if (Found s ts obj key) (not (is_object t.kind)) (ok none) scan tt λ _. safe
          ]
