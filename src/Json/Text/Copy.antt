-- ===== src/Json/Text/Copy.antt =====
-- `jt_string_copy` of a token that the tokenizer gave.
use jev_bush.Prelude.{
  ◌==◌, if◌then◌else◌, leb, subst, ◌*◌, ℕ, zero, suc, ◌+◌, ◌-◌, ◌<◌, ◌≤◌, ◌≡◌, inl, inr, refl, sym,
  ap, ◌∙◌, arith, List, [], ◌∷◌, ◌++◌, Option, none, some, false, ltb, length, take, drop,
  Bool-cases, length-drop, length-take,
}
use jev_bush.Fault.{>>=-eq-ok, >>=-ok, die_if-ok, out_of_bounds, Result, ok, err, ◌>>=◌}
use jev_bush.Fault.Clean.{Clean, Clean->>=, Clean-ok, Clean-weaken}
use jev_bush.Utf8.{next_cp}
use jev_bush.Utf8.Progress.{next_cp-Clean}
use jev_bush.Json.Tokens.{
  Kind, object, array, string, primitive, Token, Scan, plain, escaped, hex, scan_byte, string_scan,
}
use jev_bush.Json.Tokens.Clean.{Scanned, string_scan-Clean}
use jev_bush.Json.Tokens.Spans.{Body, Sound}
use jev_bush.Json.Text.{
  copy_into, escape, copy_loop, check_utf8, span, string_copy_of, string_copy, string_copy_within,
  string_copy_into, string_alloc,
}
use jev_bush.Json.Text.Scanned.{
  Passes, ok_eq, Clean-at, scan_step, copy_loop-Clean, copy_into-copy_loop,
}

scan_byte-quote : (m : Scan) (c : ℕ) → scan_byte m c ≡ ok none → c ≡ b'"'
unfolding scan_byte
scan_byte-quote plain c e = ground arith
scan_byte-quote escaped c e = ground arith
scan_byte-quote (hex zero) c e = ground arith
scan_byte-quote (hex (suc k)) c e = ground arith

scan_one :
    (o : Option Scan) (m : Scan) (c : ℕ) (ds : List ℕ)
    → scan_byte m c ≡ ok o
    → elim o as (λ o. Result ℕ) [ none ↦ ok 1 | some m' ↦ (string_scan m' ds >>= λ k. ok (suc k)) ]
      ≡ ok 1
    → c ≡ b'"'
scan_one none m c ds e h = scan_byte-quote m c e
scan_one (some m') m c ds e h =
    let (n, scanned, same) = >>=-eq-ok (string_scan m' ds) (λ k. ok (suc k)) h in
    let some_left = Clean-at (Scanned ds) (string_scan m' ds) n scanned (string_scan-Clean m' ds) in
    absurd (omega (arith, some_left.0, ok_eq same))

-- The scanner stops behind a quote.
scan_stops :
    (m : Scan) (ds : List ℕ) (k : ℕ)
    → string_scan m ds ≡ ok (suc k)
    → (rest : List ℕ) × (ds ≡ take k ds ++ b'"' ∷ rest) × (length (take k ds) ≡ k)
unfolding string_scan
scan_stops m [] k e = absurd cc
scan_stops m (c ∷ ds) zero e =
    let (o, first, more) = >>=-eq-ok (scan_byte m c) _ e in
    let quote = scan_one o m c ds first more in (ds, ap (λ x. x ∷ ds) quote, refl)
scan_stops m (c ∷ ds) (suc k) e =
    let (m', byte, more) = scan_step m c ds k e in
    let (rest, same, size) = scan_stops m' ds k more in (rest, ap (λ l. c ∷ l) same, ap suc size)

check_utf8-Clean :
    (fuel : ℕ) (z : List ℕ) (at : ℕ)
    → length z ≤ at + fuel
    → Clean (λ u. Unit {0}) (check_utf8 fuel z at)
unfolding check_utf8
check_utf8-Clean zero z at enough =
    let past : ltb at (length z) ≡ false = ground arith in rw past tt
check_utf8-Clean (suc fuel) z at enough = elim (Bool-cases (ltb at (length z))) [
  | inr past ↦ rw past tt
  | inl inside ↦ rw inside (
      Clean->>= (λ r. at < r.1) (λ u. Unit {0}) (next_cp z (length z) at) _
        (next_cp-Clean z at (ground arith)) λ (c, i) on. check_utf8-Clean fuel z i (omega arith))
]

string_copy_of-Clean :
    (kind : Kind) (body : List ℕ)
    → (kind ≡ string → (rest : List ℕ) × Passes plain body rest)
    → Clean (λ z. length z ≤ length body) (string_copy_of kind body)
unfolding string_copy_of
string_copy_of-Clean string body passes =
    let (rest, e) = passes refl in
    let Q = λ (z : List ℕ). length z ≤ length body in
    Clean->>= Q Q (copy_loop (length body) body) _
      (copy_loop-Clean (length body) body rest (omega arith) e)
      λ z short.
        Clean->>= (λ u. Unit {0}) Q (check_utf8 (length z) z 0) _
          (check_utf8-Clean (length z) z 0 (omega arith)) λ _ _. short
string_copy_of-Clean object body passes = omega arith
string_copy_of-Clean array body passes = omega arith
string_copy_of-Clean primitive body passes = omega arith

Body-Passes :
    (s : List ℕ) (kind : Kind) (a e : ℕ)
    → a ≤ e
    → Body s kind a e
    → kind ≡ string
    → (rest : List ℕ) × Passes plain (take (e - a) (drop a s)) rest
Body-Passes s string a e before body is =
    let size : e - a + 1 ≡ suc (e - a) = omega arith in
    let (rest, same, long) = scan_stops plain (drop a s) (e - a) (body ∙ ap ok size) in
    (rest, ap (string_scan plain) (sym same) ∙ body ∙ ap (λ (n : ℕ). ok (n + 1)) (sym long))
Body-Passes s object a e before body is = absurd cc
Body-Passes s array a e before body is = absurd cc
Body-Passes s primitive a e before body is = absurd cc

pub span_sound :
    (s : List ℕ) (t : Token) (e : ℕ)
    → t.end_at ≡ some e
    → e ≤ length s
    → span s t ≡ ok (take (e - t.start) (drop t.start s))
unfolding span
span_sound s t e at inside =
    let fits : ltb (length s) e ≡ false = ground arith in rw (at, fits) refl

Clean-known :
    {V : Type 0} (P : V → Type 0) (r : Result V) → Clean P r → Clean (λ v. P v × (r ≡ ok v)) r
Clean-known P (ok v) p = (p, refl)
Clean-known P (err e) p = p

-- What is written is the text, whatever room there is.
copy_into-ok :
    (fuel room : ℕ) (cs z : List ℕ) → copy_into fuel room cs ≡ ok z → copy_loop fuel cs ≡ ok z
unfolding copy_into copy_loop
copy_into-ok fuel room [] z e = ((die_if-ok (room == 0) out_of_bounds (ok []) z).0 e).1
copy_into-ok zero room (c ∷ cs) z e = absurd cc
copy_into-ok (suc fuel) room (c ∷ cs) z e =
    let ((out, rest), round, e₁) =
      >>=-eq-ok (if c == b'\\' then escape cs else ok (c ∷ [], cs)) _ e in
    let (_, e₂) = (die_if-ok (ltb room (length out)) out_of_bounds _ z).0 e₁ in
    let (more, copied, e₃) = >>=-eq-ok (copy_into fuel (room - length out) rest) _ e₂ in
    >>=-ok _ _ round (>>=-ok _ _ (copy_into-ok fuel (room - length out) rest more copied) e₃)

within-ok :
    (room : ℕ) (kind : Kind) (body z : List ℕ)
    → string_copy_within room kind body ≡ ok z
    → string_copy_of kind body ≡ ok z
unfolding string_copy_within string_copy_of
within-ok room string body z e =
    let (text, copied, rest) = >>=-eq-ok (copy_into (length body) room body) _ e in
    >>=-ok _ _ (copy_into-ok (length body) room body text copied) rest
within-ok room object body z e =
    ((die_if-ok (leb room (length body)) out_of_bounds (ok body) z).0 e).1
within-ok room array body z e =
    ((die_if-ok (leb room (length body)) out_of_bounds (ok body) z).0 e).1
within-ok room primitive body z e =
    ((die_if-ok (leb room (length body)) out_of_bounds (ok body) z).0 e).1

pub string_copy_into-ok :
    (room : ℕ) (s : List ℕ) (t : Token) (z : List ℕ)
    → string_copy_into room s t ≡ ok z
    → string_copy s t ≡ ok z
unfolding string_copy_into string_copy
string_copy_into-ok room s t z e =
    let (body, spans, rest) = >>=-eq-ok (span s t) _ e in
    >>=-ok _ _ spans (within-ok room t.kind body z rest)

pub string_alloc-ok :
    (s : List ℕ) (t : Token) (z : List ℕ) → string_alloc s t ≡ ok z → string_copy s t ≡ ok z
unfolding string_alloc
string_alloc-ok s t z e =
    let (body, spans, rest) = >>=-eq-ok (span s t) _ e in
    string_copy_into-ok (length body * 3 + 1) s t z rest

within-copy_of :
    (room : ℕ) (kind : Kind) (body : List ℕ)
    → length body < room
    → (kind ≡ string → (rest : List ℕ) × Passes plain body rest)
    → string_copy_within room kind body ≡ string_copy_of kind body
unfolding string_copy_within string_copy_of
within-copy_of room string body fits passes =
    let (rest, e) = passes refl in
    rw (copy_into-copy_loop (length body) room body rest (omega arith) fits e) refl
within-copy_of room object body fits passes =
    let there : leb room (length body) ≡ false = ground (arith, fits) in rw there refl
within-copy_of room array body fits passes =
    let there : leb room (length body) ≡ false = ground (arith, fits) in rw there refl
within-copy_of room primitive body fits passes =
    let there : leb room (length body) ≡ false = ground (arith, fits) in rw there refl

-- The text of a token that the tokenizer gave can be read, or there is a message for it, and it is
-- not longer than what the token spans.
pub string_copy-Clean :
    (s : List ℕ) (t : Token) (sound : Sound s t)
    → Clean (λ z. length z ≤ sound.0 - t.start) (string_copy s t)
unfolding string_copy
string_copy-Clean s t (e, at, before, inside, body) =
    let bytes = take (e - t.start) (drop t.start s) in
    let size : length bytes ≡ e - t.start =
      omega (arith, length-take (e - t.start) (drop t.start s), length-drop t.start s) in
    Clean-ok (λ z. length z ≤ e - t.start) (span s t) bytes _ (span_sound s t e at inside)
      (Clean-weaken (λ z. length z ≤ length bytes) (λ z. length z ≤ e - t.start)
        (string_copy_of t.kind bytes)
        (string_copy_of-Clean t.kind bytes (Body-Passes s t.kind t.start e before body))
        λ z short. omega arith)

-- With room for what the token spans and one byte more, the copy is the text of the token.
pub copy_into-string_copy :
    (s : List ℕ) (t : Token) (sound : Sound s t) (room : ℕ)
    → sound.0 - t.start < room
    → string_copy_into room s t ≡ string_copy s t
unfolding string_copy_into string_copy
copy_into-string_copy s t (e, at, before, inside, body) room fits =
    let bytes = take (e - t.start) (drop t.start s) in
    let size : length bytes ≡ e - t.start =
      omega (arith, length-take (e - t.start) (drop t.start s), length-drop t.start s) in
    let same =
      within-copy_of room t.kind bytes (omega arith) (Body-Passes s t.kind t.start e before body) in
    rw (span_sound s t e at inside) same

-- The text of a token, of `n` bytes at most.
abbrev pub Copy : List ℕ → Token → ℕ → List ℕ → Type 0
Copy s t n z = (length z ≤ n) × (string_copy s t ≡ ok z)

-- Copying the text of any token that the tokenizer gave, to a place with room for what the token
-- spans and one byte more, ends without a read past the token and without a write past the place,
-- the terminator's included: it dies with one of the messages, or gives the text of the token, which
-- is no longer than what the token spans. So does `jt_string`, which sets aside three times that and
-- one byte.
pub string_copy_into-Clean :
    (s : List ℕ) (t : Token) (sound : Sound s t) (room : ℕ)
    → sound.0 - t.start < room
    → Clean (Copy s t (sound.0 - t.start)) (string_copy_into room s t)
      × Clean (Copy s t (sound.0 - t.start)) (string_alloc s t)
unfolding string_alloc
string_copy_into-Clean s t sound room fits =
    let P = Copy s t (sound.0 - t.start) in
    let text =
      Clean-known (λ z. length z ≤ sound.0 - t.start) (string_copy s t)
        (string_copy-Clean s t sound) in
    let (e, at, before, inside, body) = sound in
    let bytes = take (e - t.start) (drop t.start s) in
    let size : length bytes ≡ e - t.start =
      omega (arith, length-take (e - t.start) (drop t.start s), length-drop t.start s) in
    (
      subst (Clean P) (sym (copy_into-string_copy s t sound room fits)) text,
      Clean-ok P (span s t) bytes _ (span_sound s t e at inside) (
          subst (Clean P)
            (sym (copy_into-string_copy s t sound (length bytes * 3 + 1) (omega arith))) text),
    )
