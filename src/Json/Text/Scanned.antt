-- ===== src/Json/Text/Scanned.antt =====
-- Copying the text of a string that the tokenizer has passed.
use jev_bush.Prelude.{
  ℕ, zero, suc, ◌+◌, ◌<◌, ◌≤◌, ◌≡◌, inl, inr, refl, sym, ap, subst, ◌∙◌, arith, List, [], ◌∷◌, ◌++◌,
  Option, none, some, true, not, ◌&&◌, ◌||◌, ltb, leb, ◌==◌, length, if◌then◌else◌, Bool-cases,
  length-append, false, ◌-◌,
}
use jev_bush.Fault.{>>=-eq-ok, Result, ok, err, ◌>>=◌, unpaired_surrogate, nul_in_string}
use jev_bush.Fault.Clean.{Clean, Clean->>=, Clean-die_if, Clean-if}
use jev_bush.Utf8.Safety.{length-put_utf8}
use jev_bush.Json.Tokens.{Scan, plain, escaped, hex, scan_byte, string_scan}
use jev_bush.Json.Tokens.Clean.{Scanned, string_scan-Clean}
use jev_bush.Json.Text.{
  hex4, surrogate_pair, code_point, unicode_escape, escape, copy_loop, copy_into,
}

-- The scanner passes these bytes and the quote behind them.
abbrev pub Passes : Scan → List ℕ → List ℕ → Type 0
Passes m cs rest = string_scan m (cs ++ b'"' ∷ rest) ≡ ok (length cs + 1)

pub ok_eq {ℓ} : {V : Type ℓ} {v w : V} → ◌≡◌ {A = Result V} (ok v) (ok w) → v ≡ w
ok_eq e = cc

scan_more :
    (o : Option Scan) (ds : List ℕ) (k : ℕ) (r : Result (Option Scan))
    → r ≡ ok o
    → elim o as (λ o. Result ℕ) [ none ↦ ok 1 | some m' ↦ (string_scan m' ds >>= λ k. ok (suc k)) ]
      ≡ ok (suc (suc k))
    → (m' : Scan) × (r ≡ ok (some m')) × (string_scan m' ds ≡ ok (suc k))
scan_more none ds k r e h = absurd (omega (arith, ok_eq h))
scan_more (some m) ds k r e h =
    let (n, scanned, same) = >>=-eq-ok (string_scan m ds) (λ k. ok (suc k)) h in
    let n_k : n ≡ suc k = omega (arith, ok_eq same) in (m, e, scanned ∙ ap ok n_k)

pub scan_step :
    (m : Scan) (c : ℕ) (ds : List ℕ) (k : ℕ)
    → string_scan m (c ∷ ds) ≡ ok (suc (suc k))
    → (m' : Scan) × (scan_byte m c ≡ ok (some m')) × (string_scan m' ds ≡ ok (suc k))
unfolding string_scan
scan_step m c ds k e =
    let (o, first, rest) = >>=-eq-ok (scan_byte m c) _ e in
    scan_more o ds k (scan_byte m c) first rest

-- One byte of the body.
Passes-step :
    (m : Scan) (c : ℕ) (cs rest : List ℕ)
    → Passes m (c ∷ cs) rest
    → (m' : Scan) × (scan_byte m c ≡ ok (some m')) × Passes m' cs rest
Passes-step m c cs rest e =
    let size : suc (length cs) + 1 ≡ suc (suc (length cs)) = omega arith in
    let (m', byte, more) = scan_step m c (cs ++ b'"' ∷ rest) (length cs) (e ∙ ap ok size) in
    let size' : suc (length cs) ≡ length cs + 1 = omega arith in (m', byte, more ∙ ap ok size')

pub Clean-at : {V : Type 0} (P : V → Type 0) (r : Result V) (v : V) → r ≡ ok v → Clean P r → P v
Clean-at P r v e c = subst (Clean P) e c

Passes-escaped_nil : (rest : List ℕ) → Passes escaped [] rest → ⊥
unfolding string_scan scan_byte
Passes-escaped_nil rest e =
    let (n, scanned, same) = >>=-eq-ok (string_scan plain rest) (λ k. ok (suc k)) e in
    let none_left : n ≡ 0 = omega (arith, ok_eq same) in
    let some_left =
      Clean-at (Scanned rest) (string_scan plain rest) n scanned (string_scan-Clean plain rest) in
    omega (arith, some_left.0)

Passes-hex_nil : (k : ℕ) (rest : List ℕ) → Passes (hex k) [] rest → ⊥
unfolding string_scan scan_byte
Passes-hex_nil zero rest e = cc
Passes-hex_nil (suc k) rest e = cc

abbrev after_digit : ℕ → Scan
after_digit zero = plain
after_digit (suc k) = hex k

scan_byte_hex : (k c : ℕ) (m : Scan) → scan_byte (hex k) c ≡ ok (some m) → m ≡ after_digit k
unfolding scan_byte
scan_byte_hex zero c m e = ground arith
scan_byte_hex (suc k) c m e = ground arith

scan_byte_escaped :
    (c : ℕ) (m : Scan)
    → scan_byte escaped c ≡ ok (some m)
    → m ≡ (if c == b'u' then hex 3 else plain)
unfolding scan_byte
scan_byte_escaped c m e = ground arith

scan_byte_plain :
    (c : ℕ) (m : Scan)
    → scan_byte plain c ≡ ok (some m)
    → m ≡ (if c == b'\\' then escaped else plain)
unfolding scan_byte
scan_byte_plain c m e = ground arith

Passes-hex :
    (k : ℕ) (cs rest : List ℕ)
    → Passes (hex k) cs rest
    → (a : ℕ) × (ds : List ℕ) × (cs ≡ a ∷ ds) × Passes (after_digit k) ds rest
Passes-hex k [] rest e = absurd (Passes-hex_nil k rest e)
Passes-hex k (c ∷ cs) rest e =
    let (m, byte, more) = Passes-step (hex k) c cs rest e in
    (c, cs, refl, subst (λ m. Passes m cs rest) (scan_byte_hex k c m byte) more)

Passes-digits :
    (cs rest : List ℕ)
    → Passes (hex 3) cs rest
    → (a b c d : ℕ) × (ds : List ℕ) × (cs ≡ a ∷ b ∷ c ∷ d ∷ ds) × Passes plain ds rest
Passes-digits cs rest e =
    let (a, as_, at_a, ea) = Passes-hex 3 cs rest e in
    let (b, bs, at_b, eb) = Passes-hex 2 as_ rest ea in
    let (c, cs', at_c, ec) = Passes-hex 1 bs rest eb in
    let (d, ds, at_d, ed) = Passes-hex 0 cs' rest ec in
    (a, b, c, d, ds, cc (at_a, at_b, at_c, at_d), ed)

-- What is left behind an escape is scanned on.
abbrev Left : List ℕ → List ℕ → List ℕ → Type 0
Left cs rest left = (length left ≤ length cs) × Passes plain left rest

escape-Passes :
    (x y : ℕ) (cs rest : List ℕ)
    → (x == b'\\') ≡ true
    → (y == b'u') ≡ true
    → Passes plain (x ∷ y ∷ cs) rest
    → Passes (hex 3) cs rest
escape-Passes x y cs rest back unicode e =
    let (m, byte, more) = Passes-step plain x (y ∷ cs) rest e in
    let m_e : m ≡ escaped = scan_byte_plain x m byte ∙ rw back refl in
    let (n, byte', more') =
      Passes-step escaped y cs rest (subst (λ k. Passes k (y ∷ cs) rest) m_e more) in
    subst (λ k. Passes k cs rest) (scan_byte_escaped y n byte' ∙ rw unicode refl) more'

surrogate_pair-Clean :
    (u : ℕ) (cs rest : List ℕ)
    → Passes plain cs rest
    → Clean (λ r. Left cs rest r.1) (surrogate_pair u cs)
unfolding surrogate_pair
surrogate_pair-Clean u [] rest e = refl
surrogate_pair-Clean u (x ∷ []) rest e = refl
surrogate_pair-Clean u (x ∷ y ∷ []) rest e = refl
surrogate_pair-Clean u (x ∷ y ∷ a ∷ []) rest e = refl
surrogate_pair-Clean u (x ∷ y ∷ a ∷ b ∷ []) rest e = refl
surrogate_pair-Clean u (x ∷ y ∷ a ∷ b ∷ c ∷ []) rest e = refl
surrogate_pair-Clean u (x ∷ y ∷ a ∷ b ∷ c ∷ d ∷ cs) rest e =
    let Q = λ (r : ℕ × List ℕ). Left (x ∷ y ∷ a ∷ b ∷ c ∷ d ∷ cs) rest r.1 in
    Clean-die_if Q (not (x == b'\\') || not (y == b'u')) unpaired_surrogate _ refl λ marks.
      Clean-die_if Q (ltb (hex4 a b c d) 0xdc00 || ltb 0xdfff (hex4 a b c d)) unpaired_surrogate _
        refl
        λ _.
          let back : (x == b'\\') ≡ true = ground arith in
          let unicode : (y == b'u') ≡ true = ground arith in
          let (a', b', c', d', ds, at, more) =
            Passes-digits (a ∷ b ∷ c ∷ d ∷ cs) rest
              (escape-Passes x y (a ∷ b ∷ c ∷ d ∷ cs) rest back unicode e) in
          let same : ds ≡ cs = cc in (omega arith, subst (λ l. Passes plain l rest) same more)

code_point-Clean :
    (u : ℕ) (cs rest : List ℕ)
    → Passes plain cs rest
    → Clean (λ r. Left cs rest r.1) (code_point u cs)
unfolding code_point
code_point-Clean u cs rest e =
    let Q = λ (r : ℕ × List ℕ). Left cs rest r.1 in
    Clean-if Q (leb 0xd800 u && leb u 0xdbff) _ _ (surrogate_pair-Clean u cs rest e) λ _.
      Clean-if Q (leb 0xdc00 u && leb u 0xdfff) (err unpaired_surrogate) _ refl
        λ _. Clean-if Q (u == 0) (err nul_in_string) (ok (u, cs)) refl λ _. (omega arith, e)

-- A round of the copy: what it writes and what is left take no more than there was.
abbrev Copied : List ℕ → List ℕ → List ℕ × List ℕ → Type 0
Copied cs rest r =
    (length r.1 < length cs) × (length r.0 + length r.1 ≤ length cs) × Passes plain r.1 rest

unicode_escape-Clean :
    (c e : ℕ) (cs rest : List ℕ)
    → Passes (hex 3) cs rest
    → Clean (Copied (c ∷ e ∷ cs) rest) (unicode_escape cs)
unfolding unicode_escape
unicode_escape-Clean c e cs rest passes =
    let (x, y, z, w, ds, at, more) = Passes-digits cs rest passes in
    subst (λ l. Clean (Copied (c ∷ e ∷ l) rest) (unicode_escape l)) (sym at)
      (Clean->>= (λ r. Left ds rest r.1) (Copied (c ∷ e ∷ x ∷ y ∷ z ∷ w ∷ ds) rest)
        (code_point (hex4 x y z w) ds) _ (code_point-Clean (hex4 x y z w) ds rest more)
        λ (u, left) (short, passed).
          let size = length-put_utf8 u in (omega arith, omega (arith, size.2), passed))

escape-Clean :
    (c : ℕ) (cs rest : List ℕ) → Passes escaped cs rest → Clean (Copied (c ∷ cs) rest) (escape cs)
unfolding escape
escape-Clean c [] rest passes = absurd (Passes-escaped_nil rest passes)
escape-Clean c (e ∷ cs) rest passes =
    let (m, byte, more) = Passes-step escaped e cs rest passes in
    let m_e = scan_byte_escaped e m byte in
    elim (Bool-cases (e == b'u')) [
      | inl unicode ↦ rw unicode (
          unicode_escape-Clean c e cs rest
            (subst (λ k. Passes k cs rest) (m_e ∙ rw unicode refl) more))
      | inr other ↦
          rw other
            (omega arith, omega arith, subst (λ k. Passes k cs rest) (m_e ∙ rw other refl) more)
    ]

round-Clean :
    (c : ℕ) (cs rest : List ℕ)
    → Passes plain (c ∷ cs) rest
    → Clean (Copied (c ∷ cs) rest) (if c == b'\\' then escape cs else ok (c ∷ [], cs))
round-Clean c cs rest passes =
    let (m, byte, more) = Passes-step plain c cs rest passes in
    let m_c = scan_byte_plain c m byte in
    elim (Bool-cases (c == b'\\')) [
      | inl back ↦
          rw back (escape-Clean c cs rest (subst (λ k. Passes k cs rest) (m_c ∙ rw back refl) more))
      | inr other ↦
          rw other
            (omega arith, omega arith, subst (λ k. Passes k cs rest) (m_c ∙ rw other refl) more)
    ]

pub copy_loop-Clean :
    (fuel : ℕ) (cs rest : List ℕ)
    → length cs ≤ fuel
    → Passes plain cs rest
    → Clean (λ z. length z ≤ length cs) (copy_loop fuel cs)
unfolding copy_loop
copy_loop-Clean fuel [] rest enough passes = omega arith
copy_loop-Clean zero (c ∷ cs) rest enough passes = absurd (omega arith)
copy_loop-Clean (suc fuel) (c ∷ cs) rest enough passes =
    let Q = λ (z : List ℕ). length z ≤ length (c ∷ cs) in
    Clean->>= (Copied (c ∷ cs) rest) Q (if c == b'\\' then escape cs else ok (c ∷ [], cs)) _
      (round-Clean c cs rest passes)
      λ (out, left) (shorter, fits, passed).
        Clean->>= (λ z. length z ≤ length left) Q (copy_loop fuel left) _
          (copy_loop-Clean fuel left rest (omega arith) passed)
          λ z short. omega (arith, length-append out z)

-- A step that goes on alike on both sides, where it succeeds.
Clean-step :
    {V W : Type 0} (P : V → Type 0) (r : Result V) (f g : V → Result W)
    → Clean P r
    → ((v : V) → P v → f v ≡ g v)
    → (r >>= f) ≡ (r >>= g)
Clean-step P (ok v) f g p same = same v p
Clean-step P (err e) f g p same = refl

-- Where there is room for what the token spans and for the terminator, no write goes past it.
pub copy_into-copy_loop :
    (fuel room : ℕ) (cs rest : List ℕ)
    → length cs ≤ fuel
    → length cs < room
    → Passes plain cs rest
    → copy_into fuel room cs ≡ copy_loop fuel cs
unfolding copy_loop copy_into
copy_into-copy_loop fuel room [] rest enough fits passes =
    let there : (room == 0) ≡ false = ground (arith, fits) in rw there refl
copy_into-copy_loop zero room (c ∷ cs) rest enough fits passes = absurd (omega arith)
copy_into-copy_loop (suc fuel) room (c ∷ cs) rest enough fits passes =
    Clean-step (Copied (c ∷ cs) rest) (if c == b'\\' then escape cs else ok (c ∷ [], cs)) _ _
      (round-Clean c cs rest passes)
      λ (out, left) (shorter, short, passed).
        let there : ltb room (length out) ≡ false = ground (arith, fits, short) in
        let same =
          copy_into-copy_loop fuel (room - length out) left rest (omega arith) (omega arith)
            passed in
        rw (there, same) refl
