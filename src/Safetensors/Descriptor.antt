-- ===== src/Safetensors/Descriptor.antt =====
-- The descriptor of one tensor: the bytes that it gives lie in the shard and are as many as its
-- shape asks for.
use jev_bush.Prelude.{
  ℕ, zero, suc, ◌+◌, ◌-◌, ◌*◌, ◌/◌, ◌%◌, ◌^◌, ◌<◌, ◌≤◌, ◌≡◌, ◌⊎◌, inl, inr, refl, ap, ◌∙◌, arith,
  List, [], ◌∷◌, Option, none, some, Bool, true, false, not, ◌&&◌, ◌||◌, ltb, ◌==◌, length,
  get_elem?, take, drop, Bool-cases,
}
use native.Mathlib.Nat.{mul_assoc}
use jev_bush.Size.{product_fits}
use jev_bush.Size.{product_fits}
use jev_bush.Fault.{
  Fault, Result, ok, err, ◌>>=◌, die_if, out_of_bounds_data, tensor_size_overflow,
  byte_size_mismatch, bad_descriptor, incomplete_descriptor, unsupported_text_encoding,
  unsupported_text_dtype, too_many_dimensions, bad_offsets, expected_unsigned, bad_unsigned,
}
use jev_bush.Fault.Clean.{
  Clean, Always, is_message, Clean->>=, Clean-if, Clean-die_if, Clean-ok, Clean-weaken,
}
use jev_bush.Json.Tokens.{Token}
use jev_bush.Json.Tokens.Spans.{Sound}
use jev_bush.Json.Tokens.Bounds.{AllSound}
use jev_bush.Json.Text.{span}
use jev_bush.Json.Text.Copy.{span_sound}
use jev_bush.Json.Readers.{
  is_object, is_primitive, token_at, parent_before, parent_is, token_eq, uint64_max, u64_loop,
  token_u64,
}
use jev_bush.Json.Readers.Lookup.{Found, token_at-ok, token_eq-Clean, object_get-Clean}
use jev_bush.Safetensors.{
  Dtype, unknown, bf16, u8, f8e4m3, f32, item, Tensor, is_text, is_array, is_unknown, dtype_of,
  numbers, elements, check_bytes, data_span, required, descriptor, read_fields,
}

abbrev pub product : List ℕ → ℕ
product [] = 1
product (d ∷ ds) = d * product ds

elements-Clean :
    (count : ℕ) (ds : List ℕ)
    → count < 2 ^ 64
    → Clean (λ p. (p ≡ count * product ds) × (p < 2 ^ 64)) (elements count ds)
unfolding elements
elements-Clean count [] small = (omega arith, small)
elements-Clean count (d ∷ ds) small =
    let P = λ (p : ℕ). (p ≡ count * (d * product ds)) × (p < 2 ^ 64) in
    Clean-die_if P (not (d == 0) && ltb (uint64_max / d) count) tensor_size_overflow _ refl
      λ passed.
        let fits : count * d < 2 ^ 64 = product_fits d count passed in
        let wrapped : count * d % 2 ^ 64 ≡ count * d = omega (arith, fits) in
        Clean-weaken (λ p. (p ≡ count * d % 2 ^ 64 * product ds) × (p < 2 ^ 64)) P _
          (elements-Clean (count * d % 2 ^ 64) ds (omega arith))
          λ p h. (h.0 ∙ ap (λ x. x * product ds) wrapped ∙ mul_assoc count d (product ds), h.1)

-- A tensor of a known encoding has the bytes that its shape asks for.
abbrev pub Matches : Dtype → List ℕ → ℕ → Type 0
Matches dtype shape bytes = (dtype ≡ unknown) ⊎ (bytes ≡ product shape * item dtype)

is_unknown-true : (d : Dtype) → is_unknown d ≡ true → d ≡ unknown
is_unknown-true unknown e = refl
is_unknown-true bf16 e = cc
is_unknown-true u8 e = cc
is_unknown-true f8e4m3 e = cc
is_unknown-true f32 e = cc

Clean-check :
    (Q : Unit {0} → Type 0) (b : Bool) (fault : Fault)
    → is_message fault ≡ true
    → (b ≡ false → Q tt)
    → Clean Q (die_if b fault)
Clean-check Q false fault m h = h refl
Clean-check Q true fault m h = m

check_bytes-Clean :
    (dtype : Dtype) (shape : List ℕ) (bytes : ℕ)
    → Clean (λ _. Matches dtype shape bytes) (check_bytes dtype shape bytes)
unfolding check_bytes
check_bytes-Clean dtype shape bytes = elim (Bool-cases (is_unknown dtype)) [
  | inl other ↦ rw other (inl (is_unknown-true dtype other))
  | inr known ↦
      let M = λ (_ : Unit {0}). Matches dtype shape bytes in
      rw known (
        Clean->>= (λ p. (p ≡ 1 * product shape) × (p < 2 ^ 64)) M (elements 1 shape) _
          (elements-Clean 1 shape (omega arith))
          λ count is.
            Clean-check M
              (ltb (uint64_max / item dtype) count || not (bytes == count * item dtype % 2 ^ 64))
              byte_size_mismatch refl
              λ passed.
                let guard : (not (item dtype == 0) && ltb (uint64_max / item dtype) count) ≡ false =
                  ground arith in
                let fits = product_fits (item dtype) count guard in
                let one : count ≡ product shape = omega (arith, is.0) in
                let here : bytes ≡ count * item dtype = ground (arith, fits, passed) in
                inr (here ∙ ap (λ x. x * item dtype) one))
]

data_span-Clean :
    (base size : ℕ) (offsets : List ℕ)
    → Clean (λ v. (base ≤ v.0) × (v.0 + v.1 ≤ size)) (data_span base size offsets)
unfolding data_span
data_span-Clean base size [] = refl
data_span-Clean base size (x ∷ []) = refl
data_span-Clean base size (from ∷ to ∷ []) =
    Clean-die_if (λ v. (base ≤ v.0) × (v.0 + v.1 ≤ size))
      (ltb to from || ltb size base || ltb (size - base) to) out_of_bounds_data
      (ok (base + from, to - from)) refl λ passed. (omega arith, ground arith)
data_span-Clean base size (x ∷ y ∷ z ∷ r) = refl

u64_loop-Clean : (v : ℕ) (cs : List ℕ) → Clean Always (u64_loop v cs)
unfolding u64_loop
u64_loop-Clean v [] = tt
u64_loop-Clean v (c ∷ cs) =
    let d = (c + 2 ^ 32 - b'0') % 2 ^ 32 in
    Clean-if Always (ltb 9 d || ltb ((uint64_max - d) / 10) v) (err bad_unsigned) _ refl
      λ _. u64_loop-Clean (v * 10 + d) cs

token_u64-Clean : (s : List ℕ) (t : Token) → Sound s t → Clean Always (token_u64 s t)
unfolding token_u64
token_u64-Clean s t sound =
    let (e, at, before, inside, _) = sound in
    Clean-die_if Always (not (is_primitive t.kind)) expected_unsigned _ refl λ _.
      Clean-ok Always (span s t) (take (e - t.start) (drop t.start s)) _
        (span_sound s t e at inside)
        (let body = take (e - t.start) (drop t.start s) in
          Clean-die_if {W = ℕ} Always (length body == 0 || ltb 20 (length body)) expected_unsigned
            (u64_loop 0 body) refl λ _. u64_loop-Clean 0 body)

numbers-Clean :
    (most : ℕ) (fault : Fault) (s : List ℕ) (ts : List Token) (at n fuel k : ℕ)
    → is_message fault ≡ true
    → ((j : ℕ) (t : Token) → get_elem? ts j ≡ some t → Sound s t)
    → length ts ≤ fuel + k
    → n ≤ most
    → Clean (λ l. n + length l ≤ most) (numbers most fault s ts at n fuel k)
unfolding numbers
numbers-Clean most fault s ts at n zero k message sound enough fits =
    let past : ltb k (length ts) ≡ false = ground arith in rw past (omega arith)
numbers-Clean most fault s ts at n (suc fuel) k message sound enough fits =
    let P = λ (l : List ℕ). n + length l ≤ most in
    Clean-if P (not (ltb k (length ts))) _ _ (omega arith) λ inside.
      let (t, here, loads) = token_at-ok ts k (ground arith) in
      Clean-ok P (token_at ts k) t _ loads (
        Clean-if P (parent_before t.parent at) _ _ (omega arith) λ _.
          elim (Bool-cases (parent_is t.parent at)) [
            | inl item ↦ rw item (
                Clean-die_if P (n == most) fault _ message λ room.
                  Clean->>= Always P (token_u64 s t) _ (token_u64-Clean s t (sound k t here)) λ v _.
                    Clean->>= (λ l. n + 1 + length l ≤ most) P _ _
                      (numbers-Clean most fault s ts at (n + 1) fuel (k + 1) message sound
                        (omega arith) (ground arith))
                      λ l short. omega (arith, short))
            | inr other ↦
                rw other
                  (numbers-Clean most fault s ts at n fuel (k + 1) message sound (omega arith) fits)
          ])

dtype_of-Clean :
    (s : List ℕ) (t : Token) (name : List ℕ) → Sound s t → Clean Always (dtype_of s t name)
unfolding dtype_of
dtype_of-Clean s t name sound =
    let A = Always {V = Dtype} in
    let ask = λ (asked : Bool) (text : List ℕ).
      Clean-if (Always {V = Bool}) asked (ok false) (token_eq s t text) tt
        (λ _. token_eq-Clean s t text sound) in
    Clean->>= Always A _ _ (token_eq-Clean s t _ sound) λ first _.
      Clean->>= Always A _ _ (ask first _) λ second _.
        Clean->>= Always A _ _ (ask (first || second) _) λ third _.
          Clean->>= Always A _ _ (ask (first || second || third) _) λ fourth _.
            Clean-if A first (ok bf16) _ tt λ _. Clean-if A second (ok u8) _ tt λ _.
              Clean-if A third (ok f8e4m3) _ tt λ _. Clean-if A fourth (ok f32) _ tt λ _.
                Clean-if A (is_text name) (err unsupported_text_dtype) (ok unknown) refl λ _. tt

-- A tensor lies behind the header in a shard of `size` bytes whose data begins at `base`, and its
-- bytes are as many as its shape and its encoding ask for.
abbrev pub InShard : ℕ → ℕ → Tensor → Type 0
InShard base size t =
    (base ≤ t.data_at)
    × (t.data_at + t.bytes ≤ size)
    × (length t.shape ≤ 4)
    × Matches t.dtype t.shape t.bytes

read_fields-Clean :
    (s : List ℕ) (ts : List Token) (nvfp4 : Bool) (base size : ℕ) (name : List ℕ) (t : Token)
    (shape_at offsets_at : ℕ)
    → ((j : ℕ) (t : Token) → get_elem? ts j ≡ some t → Sound s t)
    → Sound s t
    → Clean (InShard base size) (read_fields s ts nvfp4 base size name t shape_at offsets_at)
unfolding read_fields
read_fields-Clean s ts nvfp4 base size name t shape_at offsets_at sound dtype_sound =
    let I = InShard base size in
    Clean->>= Always I (dtype_of s t name) _ (dtype_of-Clean s t name dtype_sound) λ dtype _.
      Clean-die_if I _ unsupported_text_encoding _ refl λ _.
        Clean->>= (λ l. 0 + length l ≤ 4) I _ _
          (numbers-Clean 4 too_many_dimensions s ts shape_at 0 (length ts) (shape_at + 1) refl sound
            (omega arith) (omega arith))
          λ shape dimensions.
            Clean->>= Always I
              (numbers 2 bad_offsets s ts offsets_at 0 (length ts) (offsets_at + 1)) _
              (Clean-weaken (λ l. 0 + length l ≤ 2) Always _
                (numbers-Clean 2 bad_offsets s ts offsets_at 0 (length ts) (offsets_at + 1) refl
                  sound (omega arith) (omega arith))
                λ _ _. tt)
              λ offsets _.
                Clean->>= (λ v. (base ≤ v.0) × (v.0 + v.1 ≤ size)) I _ _
                  (data_span-Clean base size offsets)
                  λ v within.
                    Clean->>= (λ _. Matches dtype shape v.1) I (check_bytes dtype shape v.1)
                      (λ _. ok (record {
                        name = name;
                        data_at = v.0;
                        shape = shape;
                        bytes = v.1;
                        dtype = dtype;
                      }))
                      (check_bytes-Clean dtype shape v.1)
                      λ _ matches. (within.0, within.1, omega (arith, dimensions), matches)

pub Clean-required :
    {V W : Type 0} (Q : W → Type 0) (o : Option V) (fault : Fault) (next : V → Result W)
    → is_message fault ≡ true
    → ((v : V) → o ≡ some v → Clean Q (next v))
    → Clean Q (required o fault >>= next)
Clean-required Q none fault next m h = m
Clean-required Q (some v) fault next m h = h v refl

-- A token that a lookup has found.
Found-token :
    (s : List ℕ) (ts : List Token) (obj : ℕ) (key : List ℕ) (o : Option ℕ) (v : ℕ)
    → Found s ts obj key o
    → o ≡ some v
    → (t : Token) × (get_elem? ts v ≡ some t) × (token_at ts v ≡ ok t)
Found-token s ts obj key none v found e = cc
Found-token s ts obj key (some w) v (i, t, next, here, is, parent, hit, behind, inside) e =
    let same : w ≡ v = cc in token_at-ok ts v (omega arith)

-- Reading the descriptor of a tensor ends, without a read outside the header: it dies with one of
-- the messages, or gives a tensor whose bytes lie behind the header and inside the shard, with at
-- most four dimensions, whose product, times the size of an element where the encoding is a known
-- one, is the number of its bytes.
pub descriptor-Clean :
    (s : List ℕ) (ts : List Token) (nvfp4 : Bool) (base size obj : ℕ) (name : List ℕ)
    → AllSound s ts
    → Clean (InShard base size) (descriptor s ts nvfp4 base size obj name)
unfolding descriptor
descriptor-Clean s ts nvfp4 base size obj name sound =
    let I = InShard base size in
    Clean-required I (get_elem? ts obj) bad_descriptor _ refl λ t _.
      Clean-die_if I (not (is_object t.kind)) bad_descriptor _ refl λ _.
        Clean->>= (Found s ts obj _) I _ _ (object_get-Clean s ts (some obj) _ sound) λ d is_d.
          Clean->>= (Found s ts obj _) I _ _ (object_get-Clean s ts (some obj) _ sound) λ h is_h.
            Clean->>= (Found s ts obj _) I _ _ (object_get-Clean s ts (some obj) _ sound) λ o is_o.
              Clean-required I d incomplete_descriptor _ refl λ dtype_at some_d.
                Clean-required I h incomplete_descriptor _ refl λ shape_at some_h.
                  Clean-required I o incomplete_descriptor _ refl λ offsets_at some_o.
                    let (shape_token, _, shape_loads) =
                      Found-token s ts obj _ h shape_at is_h some_h in
                    let (offsets_token, _, offsets_loads) =
                      Found-token s ts obj _ o offsets_at is_o some_o in
                    let (dtype_token, dtype_here, dtype_loads) =
                      Found-token s ts obj _ d dtype_at is_d some_d in
                    Clean-ok I _ shape_token _ shape_loads (
                      Clean-ok I _ offsets_token _ offsets_loads (
                        Clean-die_if I
                          (not (is_array shape_token.kind) || not (is_array offsets_token.kind))
                          incomplete_descriptor _ refl
                          λ _. Clean-ok I _ dtype_token _ dtype_loads (
                            read_fields-Clean s ts nvfp4 base size name dtype_token shape_at
                              offsets_at sound.1 (sound.1 dtype_at dtype_token dtype_here))))
