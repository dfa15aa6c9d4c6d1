-- ===== src/Json/Keys/Clean.antt =====
-- `json_check_keys` on the tokens that the tokenizer gave: its arrays are large enough.
use jev_bush.Prelude.{
  ℕ, zero, suc, ◌+◌, ◌-◌, ◌*◌, ◌/◌, ◌%◌, ◌^◌, ◌<◌, ◌≤◌, ◌≡◌, inl, inr, refl, sym, ap, subst, arith,
  List, [], ◌∷◌, some, false, not, ◌||◌, ltb, leb, ◌==◌, length, get_elem?, if◌then◌else◌,
  Bool-cases, All,
}
use jev_bush.Fault.{die_if-ok, ok, out_of_bounds, key_array_overflow, duplicate_key}
use jev_bush.Fault.Clean.{
  Always, Clean-pass, Clean, Clean->>=, Clean-if, Clean-die_if, Clean-ok, Clean-then, Clean-weaken,
}
use jev_bush.Size.{size_add, size_add_lem}
use jev_bush.Json.Tokens.{max_json, Token, tokens_unchecked}
use jev_bush.Json.Tokens.Spans.{Sound}
use jev_bush.Json.Tokens.Bounds.{AllSound, tokens_unchecked-Clean}
use jev_bush.Json.Text.{string_copy_into}
use jev_bush.Json.Text.Copy.{Copy, string_copy_into-Clean}
use jev_bush.Json.Readers.{is_object, token_at, parent_before, parent_is}
use jev_bush.Json.Readers.Lookup.{token_at-ok}
use jev_bush.Json.Keys.{
  member_names, token_length, grow_keys, count_names, write_names, has_repeat, check_object,
  check_from, json_tokens,
}

pub size_add-Clean : (a b : ℕ) → a < 2 ^ 64 → Clean (λ c. (c ≡ a + b) × (c < 2 ^ 64)) (size_add a b)
size_add-Clean a b small =
    let P = λ (c : ℕ). (c ≡ a + b) × (c < 2 ^ 64) in
    subst (Clean P) (sym (size_add_lem a b small)) (elim (Bool-cases (ltb (a + b) (2 ^ 64))) [
      | inl fits ↦ rw fits (refl, ground arith)
      | inr large ↦ rw large refl
    ])

-- The slab bytes that the texts of the tokens need at most, terminators included.
room : (s : List ℕ) (ts : List Token) → All (Sound s) ts → ℕ
room s [] sound = 0
room s (t ∷ ts) sound = sound.0.0 - t.start + 1 + room s ts sound.1

member_names-Clean :
    (fuel : ℕ) (s : List ℕ) (ts : List Token) (obj i : ℕ)
    → ((j : ℕ) (t : Token) → get_elem? ts j ≡ some t → Sound s t)
    → length ts ≤ fuel + i
    → Clean (All (Sound s)) (member_names fuel ts obj i)
unfolding member_names
member_names-Clean zero s ts obj i sound enough =
    let past : ltb i (length ts) ≡ false = ground arith in rw past tt
member_names-Clean (suc fuel) s ts obj i sound enough =
    let P = All (Sound s) in
    Clean-if P (not (ltb i (length ts))) _ _ tt λ inside.
      let (t, here, loads) = token_at-ok ts i (ground arith) in
      Clean-ok P (token_at ts i) t _ loads (
        Clean-if P (parent_before t.parent obj) _ _ tt λ _.
          elim (Bool-cases (parent_is t.parent obj)) [
            | inl member ↦ rw member (
                Clean->>= P P (member_names fuel ts obj (i + 2)) _
                  (member_names-Clean fuel s ts obj (i + 2) sound (omega arith))
                  λ rest good. (sound i t here, good))
            | inr other ↦ rw other (member_names-Clean fuel s ts obj (i + 1) sound (omega arith))
          ])

grow_keys-Clean : (cap nk : ℕ) → nk ≤ cap → Clean (λ wide. nk < wide) (grow_keys cap nk)
unfolding grow_keys
grow_keys-Clean cap nk fits = elim (Bool-cases (nk == cap)) [
  | inl full ↦ rw full (
      Clean-die_if (λ wide. nk < wide) (ltb ((2 ^ 31 - 1) / 2) cap) key_array_overflow _ refl
        λ _. ground arith)
  | inr free ↦ rw free (ground arith)
]

-- What the first loop leaves is enough for the second.
Enough : ℕ → ℕ → ℕ → ℕ × ℕ → Type 0
Enough names bytes nk v = (nk + names ≤ v.0) × (bytes ≤ v.1)

count_names-Clean :
    (s : List ℕ) (cap slab nk : ℕ) (ts : List Token) (sound : All (Sound s) ts)
    → length s < 2 ^ 62
    → nk ≤ cap
    → slab < 2 ^ 64
    → Clean (Enough (length ts) (slab + room s ts sound) nk) (count_names cap slab nk ts)
unfolding count_names Enough room
count_names-Clean s cap slab nk [] sound short fits small = (omega arith, omega arith)
count_names-Clean s cap slab nk (t ∷ ts) sound short fits small =
    let (e, at, before, inside, _) = sound.0 in
    let n = e - t.start in
    let G = Enough (suc (length ts)) (slab + (n + 1 + room s ts sound.1)) nk in
    Clean->>= (λ wide. nk < wide) G (grow_keys cap nk) _ (grow_keys-Clean cap nk fits)
      λ wide more_names. Clean-ok G (token_length t) n _ (rw at refl) (
        Clean->>= (λ c. (c ≡ n * 3 % 2 ^ 64 + 1) × (c < 2 ^ 64)) G (size_add (n * 3 % 2 ^ 64) 1) _
          (size_add-Clean (n * 3 % 2 ^ 64) 1 (omega arith))
          λ piece is_piece.
            Clean->>= (λ c. (c ≡ slab + piece) × (c < 2 ^ 64)) G (size_add slab piece) _
              (size_add-Clean slab piece small)
              λ more is_more.
                Clean-weaken (Enough (length ts) (more + room s ts sound.1) (nk + 1)) G
                  (count_names wide more (nk + 1) ts)
                  (count_names-Clean s wide more (nk + 1) ts sound.1 short (omega arith) is_more.1)
                  λ v enough.
                    (omega (arith, enough.0), omega (arith, enough.1, is_piece.0, is_more.0)))

write_names-Clean :
    (s : List ℕ) (cap slab nk cursor : ℕ) (ts : List Token) (sound : All (Sound s) ts)
    → nk + length ts ≤ cap
    → cursor + room s ts sound ≤ slab
    → Clean (λ names. length names ≡ length ts) (write_names s cap slab nk cursor ts)
unfolding write_names room
write_names-Clean s cap slab nk cursor [] sound fits small = refl
write_names-Clean s cap slab nk cursor (t ∷ ts) sound fits small =
    let n = sound.0.0 - t.start in
    let N = λ (names : List (List ℕ)). length names ≡ suc (length ts) in
    Clean-pass N (leb cap nk) out_of_bounds _ (ground (arith, fits)) (
      Clean->>= (Copy s t n) N (string_copy_into (slab - cursor) s t) _
        (string_copy_into-Clean s t sound.0 (slab - cursor) (omega (arith, small))).0
        λ name (short, _).
          (Clean->>= (λ names. length names ≡ length ts) N _ _
            (write_names-Clean s cap slab (nk + 1) (cursor + length name + 1) ts sound.1
              (omega arith) (omega (arith, short)))
            λ rest size. ap suc size))

check_object-Clean :
    (qsort : List (List ℕ) → List (List ℕ)) (s : List ℕ) (ts : List Token) (cap obj : ℕ)
    → length s < 2 ^ 62
    → ((j : ℕ) (t : Token) → get_elem? ts j ≡ some t → Sound s t)
    → obj < length ts
    → Clean Always (check_object qsort s ts cap obj)
unfolding check_object Enough
check_object-Clean qsort s ts cap obj short sound inside =
    let (t, here, loads) = token_at-ok ts obj inside in
    Clean-ok Always (token_at ts obj) t _ loads (
      Clean-if Always (not (is_object t.kind) || ltb t.size 4) _ _ tt λ _.
        Clean->>= (All (Sound s)) Always (member_names (length ts) ts obj (obj + 1)) _
          (member_names-Clean (length ts) s ts obj (obj + 1) sound (omega arith))
          λ members good.
            Clean->>= (Enough (length members) (0 + room s members good) 0) Always
              (count_names cap 0 0 members) _
              (count_names-Clean s cap 0 0 members good short (omega arith) (omega arith))
              λ v enough.
                Clean->>= (λ names. length names ≡ length members) Always _ _
                  (write_names-Clean s v.0 (if leb v.1 4096 then 4096 else v.1) 0 0 members good
                    (omega (arith, enough.0)) (ground (arith, enough.1)))
                  λ names _.
                    Clean-die_if {W = ℕ} Always
                      (has_repeat (if ltb 1 (length names) then qsort names else names))
                      duplicate_key (ok v.0) refl λ _. tt)

check_from-Clean :
    (qsort : List (List ℕ) → List (List ℕ)) (left : ℕ) (s : List ℕ) (ts : List Token) (cap obj : ℕ)
    → length s < 2 ^ 62
    → ((j : ℕ) (t : Token) → get_elem? ts j ≡ some t → Sound s t)
    → left + obj ≤ length ts
    → Clean Always (check_from qsort left s ts cap obj)
unfolding check_from
check_from-Clean qsort zero s ts cap obj short sound inside = tt
check_from-Clean qsort (suc left) s ts cap obj short sound inside =
    Clean->>= Always Always (check_object qsort s ts cap obj) _
      (check_object-Clean qsort s ts cap obj short sound (omega arith))
      λ wide _. check_from-Clean qsort left s ts wide (obj + 1) short sound (omega arith)

tokens_unchecked-short :
    (s : List ℕ) (ts : List Token) → tokens_unchecked s ≡ ok ts → length s ≤ max_json
unfolding tokens_unchecked
tokens_unchecked-short s ts e =
    let (fits, _) = (die_if-ok (ltb max_json (length s)) _ _ ts).0 e in ground arith

-- Whatever the sort does, tokenizing any text and checking the names of its objects ends, without
-- a read or a write outside the text, the tokens, the array of names or the slab of their texts: it
-- dies with one of the messages, or gives at least one token, where every token has an end inside
-- the text, not before its start; what a primitive spans is a JSON literal or number, and what
-- follows the start of a string is its characters up to its end and the closing quote.
pub json_tokens-Clean :
    (qsort : List (List ℕ) → List (List ℕ)) (s : List ℕ) → Clean (AllSound s) (json_tokens qsort s)
unfolding json_tokens
json_tokens-Clean qsort s =
    Clean-then (AllSound s) (AllSound s) (tokens_unchecked s) _ (tokens_unchecked-Clean s)
      λ ts ran sound.
        Clean->>= Always (AllSound s) (check_from qsort (length ts) s ts 0 0) _
          (check_from-Clean qsort (length ts) s ts 0 0
            (omega (arith, tokens_unchecked-short s ts ran)) sound.1 (omega arith))
          λ _ _. sound
