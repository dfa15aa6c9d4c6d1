-- ===== src/Writer/Chunks.antt =====
-- What is written for one code point, scanned and copied.
use Prim.Native.Nat.{bit_and}
use jev_bush.Prelude.{
  ℕ, zero, suc, ◌+◌, ◌-◌, ◌*◌, ◌/◌, ◌%◌, ◌^◌, ◌<◌, ◌≤◌, ◌≡◌, ◌≢◌, ◌⊎◌, inl, inr, refl, sym, ap,
  subst, ◌∙◌, arith, List, [], ◌∷◌, ◌++◌, some, Bool, true, false, ◌&&◌, ◌||◌, ltb, leb, ◌==◌,
  length, if◌then◌else◌, Bool-cases, All,
}
use mathlib.Core.List.{append_assoc}
use jev_bush.Prelude.Bits.{bit_and-ones}
use jev_bush.Fault.{ok}
use jev_bush.Utf8.{put_utf8}
use jev_bush.Utf8.RoundTrip.{IsScalar, encoding, put_utf8-encoding}
use jev_bush.Json.Bytes.{is_xdigit, is_escape}
use jev_bush.Json.Tokens.{Scan, plain, escaped, hex, scan_byte, string_scan}
use jev_bush.Json.Text.{
  hex4, hex_digit, surrogate_pair, code_point, unicode_escape, unescape, escape, copy_loop,
}
use jev_bush.Json.Text.Scanned.{Passes}
use jev_bush.Writer.{nibble, escape_unit, escape_units, chunk}

-- Between the quotes of a string, these bytes stand for that text.
pub record Reads (cs z : List ℕ) : Type 0 where
  pub passes : (rest : List ℕ) → Passes plain cs rest
  pub copies : (fuel : ℕ) → length cs ≤ fuel → copy_loop fuel cs ≡ ok z

pub Reads-nil : Reads [] []
unfolding string_scan scan_byte copy_loop
Reads-nil = record { passes = λ rest. refl; copies = λ fuel h. refl }

scan_cons :
    (m m' : Scan) (c : ℕ) (cs rest : List ℕ)
    → scan_byte m c ≡ ok (some m')
    → Passes m' cs rest
    → Passes m (c ∷ cs) rest
unfolding string_scan
scan_cons m m' c cs rest byte more =
    let size : suc (length cs + 1) ≡ suc (length cs) + 1 = omega arith in
    rw byte (rw more (ap ok size))

copy_cons :
    (c : ℕ) (cs out left z : List ℕ)
    → (if c == b'\\' then escape cs else ok (c ∷ [], cs)) ≡ ok (out, left)
    → length left ≤ length cs
    → ((fuel : ℕ) → length left ≤ fuel → copy_loop fuel left ≡ ok z)
    → (fuel : ℕ) → length (c ∷ cs) ≤ fuel
    → copy_loop fuel (c ∷ cs) ≡ ok (out ++ z)
unfolding copy_loop
copy_cons c cs out left z round short more zero enough = absurd (omega arith)
copy_cons c cs out left z round short more (suc fuel) enough =
    rw round (rw (more fuel (omega arith)) refl)

-- A byte that stands for itself.
abbrev pub IsPlain : ℕ → Type 0
IsPlain c = (0x20 ≤ c) × (c ≢ b'"') × (c ≢ b'\\')

Reads-plain : (c : ℕ) (cs z : List ℕ) → IsPlain c → Reads cs z → Reads (c ∷ cs) (c ∷ z)
unfolding scan_byte
Reads-plain c cs z p r = record {
  passes = λ rest. scan_cons plain plain c cs rest (ground arith) (r.passes rest);
  copies =
      let plain_byte : (c == b'\\') ≡ false = ground arith in
      copy_cons c cs (c ∷ []) cs z (rw plain_byte refl) (omega arith) r.copies;
}

pub Reads-plains : (raw cs z : List ℕ) → All IsPlain raw → Reads cs z → Reads (raw ++ cs) (raw ++ z)
Reads-plains [] cs z p r = r
Reads-plains (c ∷ raw) cs z p r =
    Reads-plain c (raw ++ cs) (raw ++ z) p.0 (Reads-plains raw cs z p.1 r)

-- A backslash and one character.
pub Reads-escape :
    (c : ℕ) (cs z : List ℕ)
    → is_escape c ≡ true
    → (c == b'u') ≡ false
    → Reads cs z
    → Reads (b'\\' ∷ c ∷ cs) (unescape c ∷ z)
unfolding scan_byte escape
Reads-escape c cs z e n r = record {
  passes = λ rest.
      scan_cons plain escaped b'\\' (c ∷ cs) rest refl
        (scan_cons escaped plain c cs rest (rw (n, e) refl) (r.passes rest));
  copies = copy_cons b'\\' (c ∷ cs) (unescape c ∷ []) cs z (rw n refl) (omega arith) r.copies;
}

hex_digit-nibble : (n : ℕ) → n < 16 → hex_digit (nibble n) ≡ n
hex_digit-nibble n h = ground arith

is_xdigit-nibble : (n : ℕ) → n < 16 → is_xdigit (nibble n) ≡ true
is_xdigit-nibble n h = ground arith

hex4-nibbles :
    (v : ℕ)
    → v < 0x10000
    → hex4 (nibble (v / 4096 % 16)) (nibble (v / 256 % 16)) (nibble (v / 16 % 16)) (nibble (v % 16))
      ≡ v
unfolding hex4
hex4-nibbles v h =
    rw
      (
        hex_digit-nibble (v / 4096 % 16) (omega arith),
        hex_digit-nibble (v / 256 % 16) (omega arith),
        hex_digit-nibble (v / 16 % 16) (omega arith),
        hex_digit-nibble (v % 16) (omega arith),
      )
      (omega arith)

hex_scan :
    (k n : ℕ)
    → n < 16
    → scan_byte (hex k) (nibble n) ≡ ok (some (elim k [ zero ↦ plain | suc j ↦ hex j ]))
unfolding scan_byte
hex_scan zero n h = rw (is_xdigit-nibble n h) refl
hex_scan (suc k) n h = rw (is_xdigit-nibble n h) refl

-- The escape of a 16-bit unit, scanned.
unit-Passes :
    (v : ℕ) (cs rest : List ℕ) → Passes plain cs rest → Passes plain (escape_unit v ++ cs) rest
unfolding escape_unit scan_byte
unit-Passes v cs rest more =
    let a = nibble (v / 4096 % 16) in
    let b = nibble (v / 256 % 16) in
    let c = nibble (v / 16 % 16) in
    let d = nibble (v % 16) in
    scan_cons plain escaped b'\\' (b'u' ∷ a ∷ b ∷ c ∷ d ∷ cs) rest refl (
      scan_cons escaped (hex 3) b'u' (a ∷ b ∷ c ∷ d ∷ cs) rest refl (
        scan_cons (hex 3) (hex 2) a (b ∷ c ∷ d ∷ cs) rest (hex_scan 3 (v / 4096 % 16) (omega arith))
          (scan_cons (hex 2) (hex 1) b (c ∷ d ∷ cs) rest (hex_scan 2 (v / 256 % 16) (omega arith)) (
            scan_cons (hex 1) (hex 0) c (d ∷ cs) rest (hex_scan 1 (v / 16 % 16) (omega arith))
              (scan_cons (hex 0) plain d cs rest (hex_scan 0 (v % 16) (omega arith)) more)))))

-- A unit that is no surrogate.
Reads-unit :
    (v : ℕ) (cs z : List ℕ)
    → 0 < v
    → v < 0x10000
    → (v < 0xd800) ⊎ (0xdfff < v)
    → Reads cs z
    → Reads (escape_unit v ++ cs) (put_utf8 v ++ z)
unfolding escape_unit escape unicode_escape code_point
Reads-unit v cs z pos small scalar r = record {
  passes = λ rest. unit-Passes v cs rest (r.passes rest);
  copies =
      let high : (leb 0xd800 v && leb v 0xdbff) ≡ false = ground arith in
      let low : (leb 0xdc00 v && leb v 0xdfff) ≡ false = ground arith in
      let some_unit : (v == 0) ≡ false = ground arith in
      copy_cons b'\\' _ (put_utf8 v) cs z (rw (hex4-nibbles v small, high, low, some_unit) refl)
        (omega arith) r.copies;
}

surrogates_read :
    (u v c : ℕ) (cs : List ℕ)
    → 0xd800 ≤ u
    → u ≤ 0xdbff
    → 0xdc00 ≤ v
    → v ≤ 0xdfff
    → 0x10000 + (u - 0xd800) * 2 ^ 10 + (v - 0xdc00) ≡ c
    → code_point u (escape_unit v ++ cs) ≡ ok (c, cs)
unfolding escape_unit code_point surrogate_pair
surrogates_read u v c cs u_from u_to v_from v_to joined =
    let high : (leb 0xd800 u && leb u 0xdbff) ≡ true = ground arith in
    let low : (ltb v 0xdc00 || ltb 0xdfff v) ≡ false = ground arith in
    rw (high, hex4-nibbles v (omega arith), low, joined) refl

-- A pair of surrogates.
Reads-pair :
    (u v c : ℕ) (cs z : List ℕ)
    → 0xd800 ≤ u
    → u ≤ 0xdbff
    → 0xdc00 ≤ v
    → v ≤ 0xdfff
    → 0x10000 + (u - 0xd800) * 2 ^ 10 + (v - 0xdc00) ≡ c
    → Reads cs z
    → Reads (escape_unit u ++ escape_unit v ++ cs) (put_utf8 c ++ z)
unfolding escape unicode_escape escape_unit
Reads-pair u v c cs z u_from u_to v_from v_to joined r = record {
  passes = λ rest. unit-Passes u (escape_unit v ++ cs) rest (unit-Passes v cs rest (r.passes rest));
  copies =
      copy_cons b'\\' _ (put_utf8 c) cs z
        (rw (hex4-nibbles u (omega arith), surrogates_read u v c cs u_from u_to v_from v_to joined)
          refl)
        (omega arith) r.copies;
}

encoding-IsPlain : (c : ℕ) → 32 ≤ c → c ≢ b'"' → c ≢ b'\\' → c ≤ 0x10ffff → All IsPlain (encoding c)
encoding-IsPlain c printable quote back last = ground arith

escape_units-Reads :
    (c : ℕ) (cs z : List ℕ)
    → 0 < c
    → IsScalar c
    → Reads cs z
    → Reads (escape_units c ++ cs) (put_utf8 c ++ z)
unfolding escape_units
escape_units-Reads c cs z pos scalar r = elim (Bool-cases (leb c 0xffff)) [
  | inl small ↦ rw small (Reads-unit c cs z pos (ground arith) (ground arith) r)
  | inr large ↦
      let w = c - 0x10000 in
      let mask : bit_and w 1023 ≡ w % 1024 = bit_and-ones 10 w in
      rw (large, append_assoc, mask)
        (Reads-pair (0xd800 + w / 2 ^ 10) (0xdc00 + w % 1024) c cs z (omega arith) (ground arith)
          (omega arith) (omega arith) (ground arith) r)
]

-- All that is written for one code point.
abbrev pub piece : Bool → ℕ → List ℕ → List ℕ
piece ascii c raw = if c == b'"' || c == b'\\' then b'\\' ∷ c ∷ [] else chunk ascii c raw

-- A character with a short escape of its own.
short_Reads :
    (c e : ℕ) (raw cs z : List ℕ)
    → raw ≡ unescape e ∷ []
    → is_escape e ≡ true
    → (e == b'u') ≡ false
    → Reads cs z
    → Reads (b'\\' ∷ e ∷ cs) (raw ++ z)
short_Reads c e raw cs z same is other r =
    subst (λ l. Reads (b'\\' ∷ e ∷ cs) (l ++ z)) (sym same) (Reads-escape e cs z is other r)

single : (c : ℕ) → c < 0x80 → put_utf8 c ≡ c ∷ []
single c h = put_utf8-encoding c (omega arith) ∙ ground arith

Reads-if :
    (b : Bool) (xs ys cs z : List ℕ)
    → (b ≡ true → Reads (xs ++ cs) z)
    → (b ≡ false → Reads (ys ++ cs) z)
    → Reads ((if b then xs else ys) ++ cs) z
Reads-if true xs ys cs z p q = p refl
Reads-if false xs ys cs z p q = q refl

pub piece-Reads :
    (ascii : Bool) (c : ℕ) (raw cs z : List ℕ)
    → raw ≡ put_utf8 c
    → 0 < c
    → IsScalar c
    → Reads cs z
    → Reads (piece ascii c raw ++ cs) (raw ++ z)
unfolding chunk
piece-Reads ascii c raw cs z same pos scalar r =
    let short =
      λ (e : ℕ) (is : is_escape e ≡ true) (other : (e == b'u') ≡ false) (it : c ≡ unescape e)
          (low : c < 0x80).
        short_Reads c e raw cs z (same ∙ single c low ∙ ap (λ x. x ∷ []) it) is other r in
    Reads-if (c == b'"' || c == b'\\') (b'\\' ∷ c ∷ []) _ cs (raw ++ z)
      (λ e. short c (ground arith) (ground arith) (ground arith) (ground arith))
      λ not_marked.
        Reads-if (c == 8) _ _ cs (raw ++ z)
          (λ e. short b'b' refl refl (ground arith) (ground arith))
          λ _.
            Reads-if (c == 12) _ _ cs (raw ++ z)
              (λ e. short b'f' refl refl (ground arith) (ground arith))
              λ _.
                Reads-if (c == 10) _ _ cs (raw ++ z)
                  (λ e. short b'n' refl refl (ground arith) (ground arith))
                  λ _.
                    Reads-if (c == 13) _ _ cs (raw ++ z)
                      (λ e. short b'r' refl refl (ground arith) (ground arith))
                      λ _.
                        Reads-if (c == 9) _ _ cs (raw ++ z)
                          (λ e. short b't' refl refl (ground arith) (ground arith))
                          λ _.
                            Reads-if (ltb c 32 || (ascii && ltb 127 c)) _ _ cs (raw ++ z)
                              (λ e.
                                subst (λ l. Reads (escape_units c ++ cs) (l ++ z)) (sym same)
                                  (escape_units-Reads c cs z pos scalar r))
                              λ printable.
                                let all_plain =
                                  encoding-IsPlain c (ground arith) (ground arith) (ground arith)
                                    (ground arith) in
                                Reads-plains raw cs z
                                  (subst (All IsPlain)
                                    (sym (same ∙ put_utf8-encoding c (ground arith))) all_plain)
                                  r
