-- ===== src/Json/Tokens/Spans.antt =====
-- What the tokens say of the text.
use mathlib.Core.Option.{some-injective}
use jev_bush.Prelude.{
  ℕ, zero, suc, ◌+◌, ◌-◌, ◌<◌, ◌≤◌, ◌≡◌, ◌≢◌, ◌⊎◌, refl, sym, ap, subst, ◌∙◌, arith, List, [], ◌∷◌,
  ◌++◌, some, Bool, true, false, ◌||◌, ◌==◌, length, get_elem?, set, take, drop, Bool-cases, inl,
  inr, get_elem?-lt, get_elem?-set_self, get_elem?-set_ne,
}
use jev_bush.Fault.{ok}
use jev_bush.Json.Primitive.{primitive_valid}
use jev_bush.Json.Tokens.{Kind, object, array, string, primitive, Token, plain, string_scan}

-- What stands between the ends of a token: a literal or a number; the characters of a string, with
-- the closing quote behind them.
abbrev pub Body : List ℕ → Kind → ℕ → ℕ → Type 0
Body s object a e = a < e
Body s array a e = a < e
Body s string a e = string_scan plain (drop a s) ≡ ok (e - a + 1)
Body s primitive a e = primitive_valid (take (e - a) (drop a s)) ≡ true

-- A token that is complete, inside the text.
abbrev pub Sound : List ℕ → Token → Type 0
Sound s t = (e : ℕ) × (t.end_at ≡ some e) × (t.start ≤ e) × (e ≤ length s) × Body s t.kind t.start e

abbrev pub is_in : ℕ → List ℕ → Bool
is_in j [] = false
is_in j (i ∷ is) = i == j || is_in j is

-- Every token is complete, but those that are being parsed.
abbrev pub Spans : List ℕ → List ℕ → List Token → Type 0
Spans s open_ones ts =
    (j : ℕ) (t : Token) → get_elem? ts j ≡ some t → (is_in j open_ones ≡ true) ⊎ Sound s t

-- Token `i` is one of this kind, from this byte on.
abbrev pub Starts : List Token → ℕ → Kind → ℕ → Type 0
Starts ts i kind start =
    (t : Token) × (get_elem? ts i ≡ some t) × (t.kind ≡ kind) × (t.start ≡ start)

-- A list of tokens that goes on from another: no token is lost, nor changed in kind or start.
abbrev pub Keeps : List Token → List Token → Type 0
Keeps ts ts' = (j : ℕ) (kind : Kind) (start : ℕ) → Starts ts j kind start → Starts ts' j kind start

pub Keeps-trans : (ts us vs : List Token) → Keeps ts us → Keeps us vs → Keeps ts vs
Keeps-trans ts us vs h k j kind start at = k j kind start (h j kind start at)

get_elem?-append_left :
    (ts us : List Token) (j : ℕ) (t : Token)
    → get_elem? ts j ≡ some t
    → get_elem? (ts ++ us) j ≡ some t
get_elem?-append_left [] us j t e = cc
get_elem?-append_left (u ∷ ts) us zero t e = e
get_elem?-append_left (u ∷ ts) us (suc j) t e = get_elem?-append_left ts us j t e

get_elem?-snoc :
    (ts : List Token) (u : Token) (j : ℕ) (t : Token)
    → get_elem? (ts ++ u ∷ []) j ≡ some t
    → (get_elem? ts j ≡ some t) ⊎ ((length ts == j) ≡ true)
get_elem?-snoc [] u zero t e = inr refl
get_elem?-snoc [] u (suc j) t e = absurd cc
get_elem?-snoc (v ∷ ts) u zero t e = inl e
get_elem?-snoc (v ∷ ts) u (suc j) t e = elim (get_elem?-snoc ts u j t e) [
  | inl here ↦ inl here
  | inr last ↦ inr (ground arith)
]

pub get_elem?-last : (ts : List Token) (u : Token) → get_elem? (ts ++ u ∷ []) (length ts) ≡ some u
get_elem?-last [] u = refl
get_elem?-last (t ∷ ts) u = get_elem?-last ts u

pub Keeps-snoc : (ts : List Token) (u : Token) → Keeps ts (ts ++ u ∷ [])
Keeps-snoc ts u j kind start (t, at, same, here) =
    (t, get_elem?-append_left ts (u ∷ []) j t at, same, here)

-- A new token is being parsed.
pub Spans-snoc :
    (s open_ones : List ℕ) (ts : List Token) (u : Token)
    → Spans s open_ones ts
    → Spans s (length ts ∷ open_ones) (ts ++ u ∷ [])
Spans-snoc s open_ones ts u spans j t e = elim (get_elem?-snoc ts u j t e) [
  | inr last ↦ inl (rw last refl)
  | inl old ↦ elim (spans j t old) [ inl busy ↦ inl (ground arith) | inr sound ↦ inr sound ]
]

-- The token that a change of token `i` leaves at `j`.
changed_at :
    (ts : List Token) (i j : ℕ) (u t : Token)
    → i < length ts
    → get_elem? (set ts i u) j ≡ some t
    → ((i ≡ j) × (t ≡ u)) ⊎ ((i ≢ j) × (get_elem? ts j ≡ some t))
changed_at ts i j u t inside e = elim (Bool-cases (i == j)) [
  | inl same ↦
      let p : i ≡ j = ground arith in
      inl (
        p,
        some-injective t u (
            sym e
            ∙ subst (λ k. get_elem? (set ts i u) k ≡ some u) p (get_elem?-set_self ts i u inside)),
      )
  | inr other ↦ let p : i ≢ j = ground arith in inr (p, sym (get_elem?-set_ne ts u p) ∙ e)
]

pub Keeps-set :
    (ts : List Token) (i : ℕ) (t u : Token)
    → get_elem? ts i ≡ some t
    → u.kind ≡ t.kind
    → u.start ≡ t.start
    → Keeps ts (set ts i u)
Keeps-set ts i t u at same_kind same_start j kind start (v, here, kinds, starts) =
    let inside = get_elem?-lt ts i at in
    elim (Bool-cases (i == j)) [
      | inl same ↦
          let p : i ≡ j = ground arith in
          let v_t : v ≡ t =
            some-injective v t (sym here ∙ subst (λ k. get_elem? ts k ≡ some t) p at) in
          (
            u,
            subst (λ k. get_elem? (set ts i u) k ≡ some u) p (get_elem?-set_self ts i u inside),
            same_kind ∙ ap (λ (w : Token). w.kind) (sym v_t) ∙ kinds,
            same_start ∙ ap (λ (w : Token). w.start) (sym v_t) ∙ starts,
          )
      | inr other ↦
          let p : i ≢ j = ground arith in (v, get_elem?-set_ne ts u p ∙ here, kinds, starts)
    ]

-- A change that keeps what a token says.
pub Spans-set :
    (s open_ones : List ℕ) (ts : List Token) (i : ℕ) (t u : Token)
    → get_elem? ts i ≡ some t
    → (Sound s t → Sound s u)
    → Spans s open_ones ts
    → Spans s open_ones (set ts i u)
Spans-set s open_ones ts i t u at keeps spans j v e =
    elim (changed_at ts i j u v (get_elem?-lt ts i at) e) [
      | inr (other, old) ↦ spans j v old
      | inl (same, now) ↦ elim (spans i t at) [
        | inl busy ↦ inl (subst (λ k. is_in k open_ones ≡ true) same busy)
        | inr sound ↦ inr (subst (Sound s) (sym now) (keeps sound))
      ]
    ]

-- The token that was being parsed is complete.
pub Spans-close :
    (s open_ones : List ℕ) (ts : List Token) (i : ℕ) (t u : Token)
    → get_elem? ts i ≡ some t
    → Sound s u
    → Spans s (i ∷ open_ones) ts
    → Spans s open_ones (set ts i u)
Spans-close s open_ones ts i t u at sound spans j v e =
    elim (changed_at ts i j u v (get_elem?-lt ts i at) e) [
      | inl (same, now) ↦ inr (subst (Sound s) (sym now) sound)
      | inr (other, old) ↦ elim (spans j v old) [
        | inl busy ↦ inl (ground arith)
        | inr done ↦ inr done
      ]
    ]
