-- ===== src/Json/Keys/Members.antt =====
-- The names of an object, as the tokens that a walk through it comes to.
use jev_bush.Prelude.{
  ◌≢◌, sym, ◌∙◌, ℕ, zero, suc, ◌+◌, ◌<◌, ◌≡◌, refl, subst, arith, List, [], ◌∷◌, some, true, false,
  ltb, length, get_elem?, get_elem?-lt,
}
use mathlib.Core.List.{Mem, Nodup, Nodup-cons, mem-cons_self, mem-cons_of_mem}
use jev_bush.Fault.{>>=-eq-ok, >>=-ok, Result, ok, ◌>>=◌}
use jev_bush.Json.Tokens.{Token}
use jev_bush.Json.Text.{string_copy}
use jev_bush.Json.Readers.{token_at, parent_before, parent_is}
use jev_bush.Json.Keys.{member_names}

-- The texts of string tokens.
unfoldable pub texts : List ℕ → List Token → Result (List (List ℕ))
texts s [] = ok []
texts s (t ∷ ts) = do x ← string_copy s t; rest ← texts s ts; ok (x ∷ rest)

-- The names of an object.
abbrev pub names_of : List ℕ → List Token → ℕ → Result (List (List ℕ))
names_of s ts obj = member_names (length ts) ts obj (obj + 1) >>= λ members. texts s members

-- Going on from token `i` through what stands in the object `obj`, passing over the token behind
-- each of its names, one comes to token `k`.
pub data Reaches (ts : List Token) (obj : ℕ) : ℕ → ℕ → Type 0 where
  here : {i : ℕ} → Reaches ts obj i i
  deeper :
      {i k q : ℕ} {t : Token}
      → get_elem? ts i ≡ some t
      → t.parent ≡ some q
      → obj < q
      → Reaches ts obj (i + 1) k
      → Reaches ts obj i k
  behind :
      {i k : ℕ} {t : Token}
      → get_elem? ts i ≡ some t
      → t.parent ≡ some obj
      → Reaches ts obj (i + 2) k
      → Reaches ts obj i k

-- Token `k` is a name of the object `obj`.
pub record IsName (ts : List Token) (obj k : ℕ) (t : Token) : Type 0 where
  pub reached : Reaches ts obj (obj + 1) k
  pub stands : get_elem? ts k ≡ some t
  pub inside : t.parent ≡ some obj

step_deeper :
    (fuel : ℕ) (ts : List Token) (obj i q : ℕ) (t : Token)
    → get_elem? ts i ≡ some t
    → t.parent ≡ some q
    → obj < q
    → member_names (suc fuel) ts obj i ≡ member_names fuel ts obj (i + 1)
unfolding member_names
step_deeper fuel ts obj i q t at parent under =
    let inside : ltb i (length ts) ≡ true = ground (arith, get_elem?-lt ts i at) in
    let loads : token_at ts i ≡ ok t = rw (at, token_at) refl in
    let before : parent_before t.parent obj ≡ false = rw parent (ground (arith, under)) in
    let other : parent_is t.parent obj ≡ false = rw parent (ground (arith, under)) in
    rw (inside, loads, before, other) refl

step_name :
    (fuel : ℕ) (ts : List Token) (obj i : ℕ) (t : Token)
    → get_elem? ts i ≡ some t
    → t.parent ≡ some obj
    → member_names (suc fuel) ts obj i
      ≡ (member_names fuel ts obj (i + 2) >>= λ rest. ok (t ∷ rest))
unfolding member_names
step_name fuel ts obj i t at parent =
    let inside : ltb i (length ts) ≡ true = ground (arith, get_elem?-lt ts i at) in
    let loads : token_at ts i ≡ ok t = rw (at, token_at) refl in
    let before : parent_before t.parent obj ≡ false = rw parent (ground arith) in
    let member : parent_is t.parent obj ≡ true = rw parent (ground arith) in
    rw (inside, loads, before, member) refl

no_fuel :
    (ts : List Token) (obj i : ℕ) (t : Token) (members : List Token)
    → get_elem? ts i ≡ some t
    → member_names zero ts obj i ≡ ok members
    → ⊥
unfolding member_names
no_fuel ts obj i t members at e =
    let inside : ltb i (length ts) ≡ true = ground (arith, get_elem?-lt ts i at) in
    let ran = rw inside at e in cc

-- The names from token `i` on.
abbrev pub names_from : ℕ → List ℕ → List Token → ℕ → ℕ → Result (List (List ℕ))
names_from fuel s ts obj i = member_names fuel ts obj i >>= λ members. texts s members

-- The first name and the others.
names_from-name :
    (fuel : ℕ) (s : List ℕ) (ts : List Token) (obj i : ℕ) (t : Token) (names : List (List ℕ))
    → get_elem? ts i ≡ some t
    → t.parent ≡ some obj
    → names_from (suc fuel) s ts obj i ≡ ok names
    → (x : List ℕ) × (rest : List (List ℕ)) × (string_copy s t ≡ ok x)
      × (names_from fuel s ts obj (i + 2) ≡ ok rest)
      × (names ≡ x ∷ rest)
unfolding texts
names_from-name fuel s ts obj i t names at parent e =
    let (members, found, e₁) =
      >>=-eq-ok _ (texts s) (rw (step_name fuel ts obj i t at parent) at e) in
    let (others, found', e₂) = >>=-eq-ok (member_names fuel ts obj (i + 2)) _ found in
    let same : members ≡ t ∷ others = cc in
    let (x, copied, e₃) = >>=-eq-ok (string_copy s t) _ (rw same at e₁) in
    let (rest, copied', e₄) = >>=-eq-ok (texts s others) _ e₃ in
    let all : names ≡ x ∷ rest = cc in (x, rest, copied, >>=-ok _ _ found' copied', all)

-- A name that is reached is among the names, with its text.
names_from-Mem :
    (fuel : ℕ) (s : List ℕ) (ts : List Token) (obj i k : ℕ) (t : Token) (names : List (List ℕ))
    → names_from fuel s ts obj i ≡ ok names
    → Reaches ts obj i k
    → get_elem? ts k ≡ some t
    → t.parent ≡ some obj
    → (x : List ℕ) × (string_copy s t ≡ ok x) × Mem x names
names_from-Mem zero s ts obj i k t names e here at parent =
    let (members, found, _) = >>=-eq-ok (member_names zero ts obj i) _ e in
    absurd (no_fuel ts obj i t members at found)
names_from-Mem zero s ts obj i k t names e (deeper {t = u} at' parent' under further) at parent =
    let (members, found, _) = >>=-eq-ok (member_names zero ts obj i) _ e in
    absurd (no_fuel ts obj i u members at' found)
names_from-Mem zero s ts obj i k t names e (behind {t = u} at' parent' further) at parent =
    let (members, found, _) = >>=-eq-ok (member_names zero ts obj i) _ e in
    absurd (no_fuel ts obj i u members at' found)
names_from-Mem (suc fuel) s ts obj i k t names e here at parent =
    let (x, rest, copied, _, all) = names_from-name fuel s ts obj i t names at parent e in
    (x, copied, rw all mem-cons_self)
names_from-Mem (suc fuel) s ts obj i k t names e (deeper {q = q} {t = u} at' parent' under further)
      at parent =
    names_from-Mem fuel s ts obj (i + 1) k t names
      (rw (step_deeper fuel ts obj i q u at' parent' under) at e) further at parent
names_from-Mem (suc fuel) s ts obj i k t names e (behind {t = u} at' parent' further) at parent =
    let (y, rest, _, more, all) = names_from-name fuel s ts obj i u names at' parent' e in
    let (x, copied, mem) = names_from-Mem fuel s ts obj (i + 2) k t rest more further at parent in
    (x, copied, rw all (mem-cons_of_mem y mem))

-- The texts of two tokens can be read and are different.
abbrev pub Apart : List ℕ → Token → Token → Type 0
Apart s t u =
    (x : List ℕ) × (y : List ℕ) × (string_copy s t ≡ ok x) × (string_copy s u ≡ ok y) × (x ≢ y)

-- A name is no token inside one.
name_or_deeper :
    (ts : List Token) (obj i q : ℕ) (t u : Token)
    → get_elem? ts i ≡ some t
    → t.parent ≡ some obj
    → get_elem? ts i ≡ some u
    → u.parent ≡ some q
    → obj < q
    → ⊥
name_or_deeper ts obj i q t u at parent at' parent' under =
    let same : some t ≡ some u = sym at ∙ at' in
    let alike : t ≡ u = cc in let equal : obj ≡ q = cc in omega arith

-- The first name and a later one.
first-Apart :
    (fuel : ℕ) (s : List ℕ) (ts : List Token) (obj i l : ℕ) (t u : Token) (names : List (List ℕ))
    → names_from (suc fuel) s ts obj i ≡ ok names
    → Nodup names
    → get_elem? ts i ≡ some t
    → t.parent ≡ some obj
    → Reaches ts obj (i + 2) l
    → get_elem? ts l ≡ some u
    → u.parent ≡ some obj
    → Apart s t u × Apart s u t
first-Apart fuel s ts obj i l t u names e apart at parent reached at' parent' =
    let (x, rest, copied, more, all) = names_from-name fuel s ts obj i t names at parent e in
    let (y, copied', mem) =
      names_from-Mem fuel s ts obj (i + 2) l u rest more reached at' parent' in
    let (new, _) = Nodup-cons.0 (rw all at apart) in
    (
      (x, y, copied, copied', λ same. new (subst (λ z. Mem z rest) (sym same) mem)),
      (y, x, copied', copied, λ same. new (subst (λ z. Mem z rest) same mem)),
    )

pub names_from-Apart :
    (s : List ℕ) (ts : List Token) (obj fuel i k l : ℕ) (t u : Token) (names : List (List ℕ))
    → names_from fuel s ts obj i ≡ ok names
    → Nodup names
    → Reaches ts obj i k
    → get_elem? ts k ≡ some t
    → t.parent ≡ some obj
    → Reaches ts obj i l
    → get_elem? ts l ≡ some u
    → u.parent ≡ some obj
    → k ≢ l
    → Apart s t u
names_from-Apart s ts obj fuel i k l t u names e apart here at parent here at' parent' other =
    absurd (other refl)
names_from-Apart s ts obj fuel i k l t u names e apart here at parent
      (deeper {q = q} {t = v} at₁ parent₁ under further) at' parent' other =
    absurd (name_or_deeper ts obj i q t v at parent at₁ parent₁ under)
names_from-Apart s ts obj zero i k l t u names e apart here at parent
      (behind {t = v} at₁ parent₁ further) at' parent' other =
    let (members, found, _) = >>=-eq-ok (member_names zero ts obj i) _ e in
    absurd (no_fuel ts obj i v members at₁ found)
names_from-Apart s ts obj (suc fuel) i k l t u names e apart here at parent
      (behind {t = v} at₁ parent₁ further) at' parent' other =
    (first-Apart fuel s ts obj i l t u names e apart at parent further at' parent').0
names_from-Apart s ts obj fuel i k l t u names e apart
      (deeper {q = q} {t = v} at₁ parent₁ under further) at parent here at' parent' other =
    absurd (name_or_deeper ts obj i q u v at' parent' at₁ parent₁ under)
names_from-Apart s ts obj zero i k l t u names e apart
      (deeper {q = q} {t = v} at₁ parent₁ under further) at parent reached at' parent' other =
    let (members, found, _) = >>=-eq-ok (member_names zero ts obj i) _ e in
    absurd (no_fuel ts obj i v members at₁ found)
names_from-Apart s ts obj (suc fuel) i k l t u names e apart
      (deeper {q = q} {t = v} at₁ parent₁ under further) at parent
      (deeper at₂ parent₂ under₂ further₂) at' parent' other =
    names_from-Apart s ts obj fuel (i + 1) k l t u names
      (rw (step_deeper fuel ts obj i q v at₁ parent₁ under) at e) apart further at parent further₂
      at' parent' other
names_from-Apart s ts obj fuel i k l t u names e apart
      (deeper {q = q} {t = v} at₁ parent₁ under further) at parent
      (behind {t = w} at₂ parent₂ further₂) at' parent' other =
    absurd (name_or_deeper ts obj i q w v at₂ parent₂ at₁ parent₁ under)
names_from-Apart s ts obj zero i k l t u names e apart (behind {t = v} at₁ parent₁ further) at
      parent reached at' parent' other =
    let (members, found, _) = >>=-eq-ok (member_names zero ts obj i) _ e in
    absurd (no_fuel ts obj i v members at₁ found)
names_from-Apart s ts obj (suc fuel) i k l t u names e apart (behind {t = v} at₁ parent₁ further) at
      parent here at' parent' other =
    (first-Apart fuel s ts obj i k u t names e apart at' parent' further at parent).1
names_from-Apart s ts obj fuel i k l t u names e apart (behind {t = v} at₁ parent₁ further) at
      parent (deeper {q = q} {t = w} at₂ parent₂ under₂ further₂) at' parent' other =
    absurd (name_or_deeper ts obj i q v w at₁ parent₁ at₂ parent₂ under₂)
names_from-Apart s ts obj (suc fuel) i k l t u names e apart (behind {t = v} at₁ parent₁ further) at
      parent (behind {t = w} at₂ parent₂ further₂) at' parent' other =
    let (y, rest, _, more, all) = names_from-name fuel s ts obj i v names at₁ parent₁ e in
    names_from-Apart s ts obj fuel (i + 2) k l t u rest more (Nodup-cons.0 (rw all at apart)).1
      further at parent further₂ at' parent' other
