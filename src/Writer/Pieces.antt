-- ===== src/Writer/Pieces.antt =====
-- The bytes that `db_json_string` appends for one code point, counted, and appended with success.
use Prim.Native.Nat.{bit_and}
use mathlib.Core.List.{append_assoc}
use jev_bush.Prelude.{
  ℕ, ◌+◌, ◌-◌, ◌*◌, ◌/◌, ◌^◌, ◌<◌, ◌≤◌, ◌≡◌, inl, inr, refl, ap, subst, ◌∙◌, arith, List, [], ◌∷◌,
  ◌++◌, Bool, true, false, ◌&&◌, ◌||◌, ltb, leb, ◌==◌, length, if◌then◌else◌, Bool-cases,
  length-append,
}
use jev_bush.Fault.{Result, ok, ◌>>=◌}
use jev_bush.Utf8.{put_utf8}
use jev_bush.Utf8.Safety.{length-put_utf8}
use jev_bush.Utf8.RoundTrip.{put_utf8-encoding}
use jev_bush.Buffer.{Buffer, append}
use jev_bush.Buffer.Append.{IsRoomy, append-ok}
use jev_bush.Writer.{escape_unit, escape_units, chunk, write_code_point}
use jev_bush.Writer.Chunks.{piece}

length-if :
    (b : Bool) (xs ys : List ℕ) (n : ℕ)
    → length xs ≤ n
    → (b ≡ false → length ys ≤ n)
    → length (if b then xs else ys) ≤ n
length-if true xs ys n p q = p
length-if false xs ys n p q = q refl

length-put_utf8_large : (c : ℕ) → 0xffff < c → c ≤ 0x10ffff → 2 ≤ length (put_utf8 c)
length-put_utf8_large c h last = rw (put_utf8-encoding c last) (ground arith)

length-escape_unit : (v : ℕ) → length (escape_unit v) ≡ 6
unfolding escape_unit
length-escape_unit v = refl

length-escape_units :
    (c n : ℕ) → c ≤ 0x10ffff → 1 ≤ n → (0xffff < c → 2 ≤ n) → length (escape_units c) ≤ 6 * n
unfolding escape_units
length-escape_units c n last one large =
    length-if (leb c 0xffff) (escape_unit c) _ (6 * n) (omega (arith, length-escape_unit c)) λ big.
      let much = large (ground arith) in
      let u = 0xd800 + (c - 0x10000) / 2 ^ 10 in
      let v = 0xdc00 + bit_and (c - 0x10000) 1023 in
      omega (
        arith,
        length-append (escape_unit u) (escape_unit v),
        length-escape_unit u,
        length-escape_unit v,
      )

pub length-piece :
    (ascii : Bool) (c : ℕ) (raw : List ℕ)
    → raw ≡ put_utf8 c
    → c ≤ 0x10ffff
    → length (piece ascii c raw) ≤ 6 * length raw
unfolding chunk
length-piece ascii c raw same last =
    let size = length-put_utf8 c in
    let one : 1 ≤ length raw = omega (arith, size.1, ap length same) in
    let n = 6 * length raw in
    length-if (c == b'"' || c == b'\\') _ _ n (omega arith) λ _.
      length-if (c == 8) _ _ n (omega arith) λ _. length-if (c == 12) _ _ n (omega arith) λ _.
        length-if (c == 10) _ _ n (omega arith) λ _. length-if (c == 13) _ _ n (omega arith) λ _.
          length-if (c == 9) _ _ n (omega arith) λ _.
            length-if (ltb c 32 || (ascii && ltb 127 c)) _ raw n
              (length-escape_units c (length raw) last one
                (λ big. omega (arith, length-put_utf8_large c big last, ap length same)))
              λ _. omega arith

-- Bytes have been appended, and there is room for more.
abbrev pub Appended : Buffer → List ℕ → Result Buffer → Type 0
Appended b bytes r =
    (cap : ℕ) × (r ≡ ok (record b { cap = cap; content = b.content ++ bytes }))
    × IsRoomy (record b { cap = cap; content = b.content ++ bytes })

pub append_free :
    (b : Buffer) (bytes : List ℕ)
    → IsRoomy b
    → b.limit ≡ 0
    → length b.content + length bytes + 1 ≤ 2 ^ 63
    → Appended b bytes (append true b bytes)
append_free b bytes roomy unlimited fits = append-ok b bytes roomy (inl unlimited) fits

Appended-two :
    (b : Buffer) (xs ys : List ℕ)
    → IsRoomy b
    → b.limit ≡ 0
    → length b.content + length xs + length ys + 1 ≤ 2 ^ 63
    → Appended b (xs ++ ys) (append true b xs >>= λ u. append true u ys)
Appended-two b xs ys roomy unlimited fits =
    let (c, runs, roomy') = append_free b xs roomy unlimited (omega arith) in
    let u = record b { cap = c; content = b.content ++ xs } in
    let (d, runs', roomy'') =
      append_free u ys roomy' unlimited (omega (arith, length-append b.content xs)) in
    let joined = append_assoc b.content xs ys in
    (
      d,
      ap (λ r. r >>= λ u. append true u ys) runs
          ∙ runs'
          ∙ ap (λ l. let r : Result Buffer = ok (record b { cap = d; content = l }) in r) joined,
      subst (λ l. IsRoomy (record b { cap = d; content = l })) joined roomy'',
    )

pub write_code_point-ok :
    (b : Buffer) (ascii : Bool) (c : ℕ) (raw : List ℕ)
    → IsRoomy b
    → b.limit ≡ 0
    → length b.content + length (piece ascii c raw) + 1 ≤ 2 ^ 63
    → Appended b (piece ascii c raw) (write_code_point true b ascii c raw)
unfolding write_code_point
write_code_point-ok b ascii c raw roomy unlimited fits =
    elim (Bool-cases (c == b'"' || c == b'\\')) [
      | inl marked ↦
          let fits' : length b.content + 1 + 1 + 1 ≤ 2 ^ 63 =
            (let two = rw marked at fits in
              let two' : length b.content + 2 + 1 ≤ 2 ^ 63 = two in omega (arith, two')) in
          rw marked (Appended-two b (b'\\' ∷ []) (c ∷ []) roomy unlimited fits')
      | inr other ↦
          let fits' : length b.content + length (chunk ascii c raw) + 1 ≤ 2 ^ 63 =
            rw other at fits in
          rw other (append_free b (chunk ascii c raw) roomy unlimited fits')
    ]
