-- ===== src/Json/Keys/Unique.antt =====
-- An object that `json_check_keys` accepts has no name twice.
use jev_bush.Prelude.{
  ◌≢◌, ℕ, zero, suc, ◌+◌, ◌-◌, ◌<◌, ◌≤◌, ◌≡◌, inl, inr, refl, subst, arith, List, [], ◌∷◌, some,
  true, false, not, ◌||◌, ltb, leb, ◌==◌, length, get_elem?, if◌then◌else◌, Bool-cases,
  get_elem?-lt,
}
use mathlib.Core.List.{Nodup}
use jev_bush.Fault.{>>=-eq-ok, die_if-ok, >>=-ok, ok, duplicate_key}
use jev_bush.Json.Tokens.{Token, tokens_unchecked}
use jev_bush.Json.Text.{string_copy_into}
use jev_bush.Json.Text.Copy.{string_copy_into-ok}
use jev_bush.Json.Readers.{is_object, token_at}
use jev_bush.Json.Keys.Members.{texts, names_of, IsName, Apart, names_from-Apart}
use jev_bush.Json.Keys.{
  member_names, count_names, write_names, has_repeat, check_object, check_from, json_tokens,
}
use jev_bush.Names.{Sorts, Sorts-Nodup, few-Nodup}

write_names-texts :
    (s : List ℕ) (cap slab nk cursor : ℕ) (ts : List Token) (names : List (List ℕ))
    → write_names s cap slab nk cursor ts ≡ ok names
    → texts s ts ≡ ok names
unfolding write_names texts
write_names-texts s cap slab nk cursor [] names e = e
write_names-texts s cap slab nk cursor (t ∷ ts) names e =
    let (_, e₁) = (die_if-ok _ _ _ names).0 e in
    let (x, into, e₂) = >>=-eq-ok (string_copy_into (slab - cursor) s t) _ e₁ in
    let copied = string_copy_into-ok (slab - cursor) s t x into in
    let (rest, written, e₃) =
      >>=-eq-ok (write_names s cap slab (nk + 1) (cursor + length x + 1) ts) _ e₂ in
    >>=-ok _ _ copied (
      >>=-ok _ _ (write_names-texts s cap slab (nk + 1) (cursor + length x + 1) ts rest written) e₃)

sorted-Nodup :
    (qsort : List (List ℕ) → List (List ℕ)) (names : List (List ℕ))
    → Sorts qsort
    → has_repeat (if ltb 1 (length names) then qsort names else names) ≡ false
    → Nodup names
sorted-Nodup qsort names sorts apart = elim (Bool-cases (ltb 1 (length names))) [
  | inl many ↦ Sorts-Nodup qsort names sorts (rw many at apart)
  | inr few ↦ few-Nodup names few
]

check_object-Nodup :
    (qsort : List (List ℕ) → List (List ℕ)) (s : List ℕ) (ts : List Token) (cap obj wide : ℕ)
    (t : Token)
    → Sorts qsort
    → check_object qsort s ts cap obj ≡ ok wide
    → get_elem? ts obj ≡ some t
    → (not (is_object t.kind) || ltb t.size 4) ≡ false
    → (names : List (List ℕ)) × (names_of s ts obj ≡ ok names) × Nodup names
unfolding check_object
check_object-Nodup qsort s ts cap obj wide t sorts accepted here large =
    let loads : token_at ts obj ≡ ok t = rw (here, token_at) refl in
    let e₀ = rw (loads, large) at accepted in
    let (members, found, e₁) = >>=-eq-ok (member_names (length ts) ts obj (obj + 1)) _ e₀ in
    let (v, counted, e₂) = >>=-eq-ok (count_names cap 0 0 members) _ e₁ in
    let (names, written, e₃) =
      >>=-eq-ok (write_names s v.0 (if leb v.1 4096 then 4096 else v.1) 0 0 members) _ e₂ in
    let (apart, _) =
      (die_if-ok (has_repeat (if ltb 1 (length names) then qsort names else names)) duplicate_key _
          wide).0
        e₃ in
    (
      names,
      >>=-ok _ _ found
          (write_names-texts s v.0 (if leb v.1 4096 then 4096 else v.1) 0 0 members names written),
      sorted-Nodup qsort names sorts apart,
    )

check_from-check_object :
    (qsort : List (List ℕ) → List (List ℕ)) (left : ℕ) (s : List ℕ) (ts : List Token)
    (cap at obj : ℕ)
    → check_from qsort left s ts cap at ≡ ok tt
    → at ≤ obj
    → obj < at + left
    → (before : ℕ) × (behind : ℕ) × (check_object qsort s ts before obj ≡ ok behind)
unfolding check_from
check_from-check_object qsort zero s ts cap at obj e from to = absurd (omega arith)
check_from-check_object qsort (suc left) s ts cap at obj e from to =
    let (wide, checked, rest) = >>=-eq-ok (check_object qsort s ts cap at) _ e in
    elim (Bool-cases (at == obj)) [
      | inl here ↦
          let same : at ≡ obj = ground arith in
          (cap, wide, subst (λ k. check_object qsort s ts cap k ≡ ok wide) same checked)
      | inr later ↦
          check_from-check_object qsort left s ts wide (at + 1) obj rest (ground (arith, from))
            (omega arith)
    ]

json_tokens-Nodup :
    (qsort : List (List ℕ) → List (List ℕ)) (s : List ℕ) (ts : List Token) (obj : ℕ) (t : Token)
    → Sorts qsort
    → json_tokens qsort s ≡ ok ts
    → get_elem? ts obj ≡ some t
    → is_object t.kind ≡ true
    → 4 ≤ t.size
    → (names : List (List ℕ)) × (names_of s ts obj ≡ ok names) × Nodup names
unfolding json_tokens
json_tokens-Nodup qsort s ts obj t sorts accepted here object large =
    let (all, tokenized, e₁) = >>=-eq-ok (tokens_unchecked s) _ accepted in
    let (_, checked, e₂) = >>=-eq-ok (check_from qsort (length all) s all 0 0) _ e₁ in
    let same : all ≡ ts = cc in
    let checked' =
      subst (λ (l : List Token). check_from qsort (length l) s l 0 0 ≡ ok tt) same checked in
    let (before, behind, ran) =
      check_from-check_object qsort (length ts) s ts 0 0 obj checked' (omega arith)
        (omega (arith, get_elem?-lt ts obj here)) in
    check_object-Nodup qsort s ts before obj behind t sorts ran here (ground (arith, object, large))

-- When `qsort` sorts and json_tokens accepts a text, then in every object that has two members or
-- more, any two names at different places have texts that can be read and that are different.
pub json_tokens-Apart :
    (qsort : List (List ℕ) → List (List ℕ)) (s : List ℕ) (ts : List Token) (obj k l : ℕ)
    (o t u : Token)
    → Sorts qsort
    → json_tokens qsort s ≡ ok ts
    → get_elem? ts obj ≡ some o
    → is_object o.kind ≡ true
    → 4 ≤ o.size
    → IsName ts obj k t
    → IsName ts obj l u
    → k ≢ l
    → Apart s t u
json_tokens-Apart qsort s ts obj k l o t u sorts accepted at object large first second other =
    let (names, read, apart) = json_tokens-Nodup qsort s ts obj o sorts accepted at object large in
    names_from-Apart s ts obj (length ts) (obj + 1) k l t u names read apart first.reached
      first.stands first.inside second.reached second.stands second.inside other
