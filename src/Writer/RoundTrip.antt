-- ===== src/Writer/RoundTrip.antt =====
-- What `db_json_string` writes is read back by the tokenizer and `jt_string_copy`.
use mathlib.Core.List.{append_assoc, append-nil}
use jev_bush.Prelude.{
  drop_at, drop_all, ℕ, zero, suc, ◌+◌, ◌-◌, ◌*◌, ◌^◌, ◌<◌, ◌≤◌, ◌≡◌, inl, inr, refl, sym, ap,
  subst, ◌∙◌, arith, List, [], ◌∷◌, ◌++◌, Bool, true, ltb, length, get_elem?-All, take, drop,
  Bool-cases, All, length-append,
}
use jev_bush.Prelude.{Holds}
use jev_bush.Fault.{>>=-eq-ok, Result, ok, ◌>>=◌}
use jev_bush.Utf8.{put_utf8, next_cp}
use jev_bush.Utf8.RoundTrip.{IsScalar, IsBytes, next_cp_iff}
use jev_bush.Json.Tokens.{string, plain, string_scan}
use jev_bush.Json.Text.{check_utf8, string_copy_of}
use jev_bush.Buffer.{Buffer}
use jev_bush.Buffer.Append.{IsRoomy}
use jev_bush.Writer.{write_code_point, string_loop, json_string}
use jev_bush.Writer.Chunks.{Reads, Reads-nil, piece, piece-Reads}
use jev_bush.Writer.Pieces.{length-piece, Appended, append_free, write_code_point-ok}

Holds-drop :
    (s : List ℕ) (i j : ℕ) (xs : List ℕ)
    → Holds s i xs
    → j ≡ i + length xs
    → drop i s ≡ xs ++ drop j s
Holds-drop s i j [] h e = let same : i ≡ j = omega arith in ap (λ k. drop k s) same
Holds-drop s i j (x ∷ xs) h e =
    let next : suc i ≡ i + 1 = omega arith in
    drop_at s i x h.0
    ∙ ap (λ k. x ∷ drop k s) next
    ∙ ap (λ l. x ∷ l) (Holds-drop s (i + 1) j xs h.1 (omega arith))

take-append : (xs ys : List ℕ) → take (length xs) (xs ++ ys) ≡ xs
take-append [] ys = refl
take-append (x ∷ xs) ys = ap (λ l. x ∷ l) (take-append xs ys)

-- No terminator stands in a C string.
abbrev pub IsText : List ℕ → Type 0
IsText = All (λ c. (0 < c) × (c < 256))

IsText-IsBytes : (s : List ℕ) → IsText s → IsBytes s
IsText-IsBytes [] h = tt
IsText-IsBytes (c ∷ s) h = (h.0.1, IsText-IsBytes s h.1)

-- The code point at a place of a valid text.
record CodePoint (s : List ℕ) (i c j : ℕ) : Type 0 where
  scalar : IsScalar c
  real : 0 < c
  bytes : take (j - i) (drop i s) ≡ put_utf8 c
  behind : drop i s ≡ put_utf8 c ++ drop j s

code_point_positive : (s : List ℕ) (i c : ℕ) → IsText s → Holds s i (put_utf8 c) → 0 < c
unfolding put_utf8
code_point_positive s i zero text holds =
    (get_elem?-All (λ x. (0 < x) × (x < 256)) s i text (holds.0)).0
code_point_positive s i (suc c) text holds = omega arith

next_cp-CodePoint :
    (s : List ℕ) (i c j : ℕ) → IsText s → next_cp s (length s) i ≡ ok (c, j) → CodePoint s i c j
next_cp-CodePoint s i c j text e =
    let (scalar, holds, far) = (next_cp_iff s i (IsText-IsBytes s text) c j).0 e in
    let behind = Holds-drop s i j (put_utf8 c) holds far in
    let size : j - i ≡ length (put_utf8 c) = omega arith in
    record {
      scalar = scalar;
      real = code_point_positive s i c text holds;
      bytes = rw (behind, size) (take-append (put_utf8 c) (drop j s));
      behind = behind;
    }

check_step :
    (fuel : ℕ) (s : List ℕ) (i : ℕ)
    → ltb i (length s) ≡ true
    → check_utf8 (suc fuel) s i ≡ ok tt
    → (v : ℕ × ℕ) × (next_cp s (length s) i ≡ ok v) × (check_utf8 fuel s v.1 ≡ ok tt)
unfolding check_utf8
check_step fuel s i inside valid =
    let valid' = rw inside at valid in
    >>=-eq-ok (next_cp s (length s) i) (λ v. check_utf8 fuel s v.1) valid'

-- The bytes that the loop has appended from byte `i` on.
abbrev Written : Buffer → List ℕ → ℕ → Result Buffer → Type 0
Written b s i r =
    (body : List ℕ) × Appended b body r
    × (length body ≤ 6 * length (drop i s))
    × Reads body (drop i s)

Written-nil : (b : Buffer) (s : List ℕ) (i : ℕ) → IsRoomy b → length s ≤ i → Written b s i (ok b)
Written-nil b s i roomy past =
    let same = sym (append-nil b.content) in
    let at_end = sym (drop_all s i past) in
    (
      [],
      (
        b.cap,
        ap (λ l. let r : Result Buffer = ok (record b { content = l }) in r) same,
        subst (λ l. IsRoomy (record b { content = l })) same roomy,
      ),
      omega arith,
      subst (Reads []) at_end Reads-nil,
    )

Written-cons :
    (b : Buffer) (ascii : Bool) (s : List ℕ) (i c j : ℕ) (next : Buffer → Result Buffer)
    → IsRoomy b
    → b.limit ≡ 0
    → length b.content + 6 * length (drop i s) + 1 ≤ 2 ^ 63
    → CodePoint s i c j
    → ((u : Buffer)
        → IsRoomy u
        → u.limit ≡ 0
        → length u.content + 6 * length (drop j s) + 1 ≤ 2 ^ 63
        → Written u s j (next u))
    → Written b s i (write_code_point true b ascii c (take (j - i) (drop i s)) >>= next)
Written-cons b ascii s i c j next roomy unlimited fits point more =
    let raw = take (j - i) (drop i s) in
    let first = piece ascii c raw in
    let split : drop i s ≡ raw ++ drop j s =
      point.behind ∙ ap (λ l. l ++ drop j s) (sym point.bytes) in
    let small = length-piece ascii c raw point.bytes (ground (arith, point.scalar)) in
    let sizes : length (drop i s) ≡ length raw + length (drop j s) =
      ap length split ∙ length-append raw (drop j s) in
    let (cap, runs, roomy') =
      write_code_point-ok b ascii c raw roomy unlimited (omega (arith, small, sizes)) in
    let u = record b { cap = cap; content = b.content ++ first } in
    let size_u : length u.content ≡ length b.content + length first =
      length-append b.content first in
    let (body, (cap', runs', roomy''), short, reads) =
      more u roomy' unlimited (omega (arith, small, sizes, size_u)) in
    let joined = append_assoc b.content first body in
    (
      first ++ body,
      (
        cap',
        ap (λ r. r >>= next) runs
            ∙ runs'
            ∙ ap (λ l. let r : Result Buffer = ok (record b { cap = cap'; content = l }) in r)
                joined,
        subst (λ l. IsRoomy (record b { cap = cap'; content = l })) joined roomy'',
      ),
      omega (arith, small, sizes, short, length-append first body),
      subst (Reads (first ++ body)) (sym split)
          (piece-Reads ascii c raw body (drop j s) point.bytes point.real point.scalar reads),
    )

string_loop-Written :
    (fuel : ℕ) (b : Buffer) (s : List ℕ) (ascii : Bool) (i : ℕ)
    → IsText s
    → check_utf8 fuel s i ≡ ok tt
    → IsRoomy b
    → b.limit ≡ 0
    → length b.content + 6 * length (drop i s) + 1 ≤ 2 ^ 63
    → Written b s i (string_loop fuel true b s ascii i)
unfolding string_loop check_utf8
string_loop-Written zero b s ascii i text valid roomy unlimited fits =
    elim (Bool-cases (ltb i (length s))) [
      | inl inside ↦ (let no = rw inside at valid in cc)
      | inr past ↦ rw past (Written-nil b s i roomy (ground arith))
    ]
string_loop-Written (suc fuel) b s ascii i text valid roomy unlimited fits =
    elim (Bool-cases (ltb i (length s))) [
      | inl inside ↦
          let ((c, j), loaded, rest) = check_step fuel s i inside valid in
          let step =
            Written-cons b ascii s i c j (λ u. string_loop fuel true u s ascii j) roomy unlimited
              fits (next_cp-CodePoint s i c j text loaded)
              (λ u roomy' unlimited' fits'.
                string_loop-Written fuel u s ascii j text rest roomy' unlimited' fits') in
          rw (inside, loaded) step
      | inr past ↦ rw past (Written-nil b s i roomy (ground arith))
    ]

-- Where memory is there and the buffer has no limit, writing a valid UTF-8 text without a NUL ends
-- and succeeds when the old text and six bytes for each of the text's, with three more, take at
-- most 2^63 bytes, whether or not only ASCII is asked for: a quote, a body and a quote stand behind
-- the old text. The tokenizer, scanning the body and the quote with any bytes behind them, stops
-- at that quote, and copying the body as a string token gives the text back.
pub json_string-string_copy_of :
    (b : Buffer) (s : List ℕ) (ascii : Bool)
    → IsText s
    → check_utf8 (length s) s 0 ≡ ok tt
    → IsRoomy b
    → b.limit ≡ 0
    → length b.content + 6 * length s + 3 ≤ 2 ^ 63
    → (body : List ℕ) × (cap : ℕ) × (json_string true b s ascii
        ≡ ok (record b { cap = cap; content = b.content ++ (b'"' ∷ (body ++ b'"' ∷ [])) }))
      × ((rest : List ℕ) → string_scan plain (body ++ b'"' ∷ rest) ≡ ok (length body + 1))
      × (string_copy_of string body ≡ ok s)
unfolding json_string string_copy_of
json_string-string_copy_of b s ascii text valid roomy unlimited fits =
    let (cap, opens, roomy') = append_free b (b'"' ∷ []) roomy unlimited (omega arith) in
    let u = record b { cap = cap; content = b.content ++ b'"' ∷ [] } in
    let size_u : length u.content ≡ length b.content + 1 = length-append b.content (b'"' ∷ []) in
    let (body, (cap', loops, roomy''), short, reads) =
      string_loop-Written (length s) u s ascii 0 text valid roomy' unlimited
        (omega (arith, size_u)) in
    let v = record u { cap = cap'; content = u.content ++ body } in
    let size_v : length v.content ≡ length u.content + length body = length-append u.content body in
    let (cap'', closes, _) =
      append_free v (b'"' ∷ []) roomy'' unlimited (omega (arith, size_u, size_v, short)) in
    let all : (u.content ++ body) ++ b'"' ∷ [] ≡ b.content ++ (b'"' ∷ (body ++ b'"' ∷ [])) =
      append_assoc u.content body (b'"' ∷ [])
      ∙ append_assoc b.content (b'"' ∷ []) (body ++ b'"' ∷ []) in
    (
      body,
      cap'',
      rw (opens, loops, closes)
          (ap (λ l. let r : Result Buffer = ok (record b { cap = cap''; content = l }) in r) all),
      reads.passes,
      rw (reads.copies (length body) (omega arith), valid) refl,
    )
