-- ===== src/Random/Twist.antt =====
-- The loop of `dg_mt_u32` that makes 624 new words, in place.
use jev_bush.Prelude.{
  [], get_or, subst, sym, ℕ, zero, suc, ◌+◌, ◌-◌, ◌/◌, ◌%◌, ◌<◌, ◌≤◌, ◌≡◌, inl, inr, refl, ap, ◌∙◌,
  arith, List, ◌∷◌, true, ltb, ◌==◌, length, set, if◌then◌else◌, Bool-cases, length-set,
}
use Prim.Native.Nat.{bit_and, bit_or, bit_xor}
use jev_bush.Fault.{>>=-ok, ok}
use jev_bush.Sha256.{read, write}
use jev_bush.Random.{twist}

pub write-ok : (xs : List ℕ) (i x : ℕ) → i < length xs → write xs i x ≡ ok (set xs i x)
write-ok xs i x inside = let there : ltb i (length xs) ≡ true = ground arith in rw there refl

-- Word `i`.
abbrev pub word : List ℕ → ℕ → ℕ
word xs i = get_or xs i 0

-- The word that the recurrence gives for the upper bit of one word, the lower bits of the next and
-- a word further on.
abbrev pub recur : ℕ → ℕ → ℕ → ℕ
recur x z far =
    let y = bit_or (bit_and x 0x80000000) (bit_and z 0x7fffffff) in
    bit_xor far (bit_xor (y / 2) (if bit_and y 1 == 0 then 0 else 0x9908b0df))

-- Word `i` of the words `new` made of `old`: where a word that it needs is made before, it is the
-- new one.
abbrev pub renewed : List ℕ → List ℕ → ℕ → ℕ
renewed old new i =
    recur (word old i) (if i == 623 then word new 0 else word old (i + 1))
      (if ltb i 227 then word old (i + 397) else word new (i - 227))

-- The words before `i` are made, and the others are the old ones.
abbrev pub Partly : List ℕ → ℕ → List ℕ → Type 0
Partly old i mt =
    (length mt ≡ 624)
    × ((j : ℕ) → i ≤ j → word mt j ≡ word old j)
    × ((j : ℕ) → j < i → j < 624 → word mt j ≡ renewed old mt j)

pub read-word : (xs : List ℕ) (i : ℕ) → i < length xs → read xs i ≡ ok (word xs i)
read-word [] i h = absurd (omega arith)
read-word (x ∷ xs) zero h = refl
read-word (x ∷ xs) (suc i) h = read-word xs i (omega arith)

word-set_self : (xs : List ℕ) (i x : ℕ) → i < length xs → word (set xs i x) i ≡ x
word-set_self [] i x h = absurd (omega arith)
word-set_self (y ∷ xs) zero x h = refl
word-set_self (y ∷ xs) (suc i) x h = word-set_self xs i x (omega arith)

word-set_ne : (xs : List ℕ) (i j x : ℕ) → (i ≡ j → ⊥) → word (set xs i x) j ≡ word xs j
word-set_ne [] i j x h = refl
word-set_ne (y ∷ xs) zero zero x h = absurd (h refl)
word-set_ne (y ∷ xs) zero (suc j) x h = refl
word-set_ne (y ∷ xs) (suc i) zero x h = refl
word-set_ne (y ∷ xs) (suc i) (suc j) x h = word-set_ne xs i j x (λ e. h (ap suc e))

-- The three words that the loop reads.
reads_next :
    (old mt : List ℕ) (i : ℕ)
    → Partly old i mt
    → i < 624
    → word mt ((i + 1) % 624) ≡ (if i == 623 then word mt 0 else word old (i + 1))
reads_next old mt i (size, later, made) inside = elim (Bool-cases (i == 623)) [
  | inl last ↦ let at : (i + 1) % 624 ≡ 0 = ground arith in rw (last, at) refl
  | inr more ↦
      let at : (i + 1) % 624 ≡ i + 1 = ground (arith, inside) in
      rw (more, at) (later (i + 1) (omega arith))
]

reads_far :
    (old mt : List ℕ) (i : ℕ)
    → Partly old i mt
    → i < 624
    → word mt ((i + 397) % 624) ≡ (if ltb i 227 then word old (i + 397) else word mt (i - 227))
reads_far old mt i (size, later, made) inside = elim (Bool-cases (ltb i 227)) [
  | inl early ↦
      let at : (i + 397) % 624 ≡ i + 397 = ground arith in
      rw (early, at) (later (i + 397) (omega arith))
  | inr late ↦ let at : (i + 397) % 624 ≡ i - 227 = ground (arith, inside) in rw (late, at) refl
]

-- Writing word `i` changes nothing that an earlier word, or word `i`, was made of.
renewed-set :
    (old mt : List ℕ) (i j x : ℕ) → j ≤ i → i < 624 → renewed old (set mt i x) j ≡ renewed old mt j
renewed-set old mt i j x before inside =
    let first : (if j == 623 then word (set mt i x) 0 else word old (j + 1))
        ≡ (if j == 623 then word mt 0 else word old (j + 1)) =
      elim (Bool-cases (j == 623)) [
        | inl last ↦ rw last (word-set_ne mt i 0 x (λ e. ground (arith, e)))
        | inr more ↦ rw more refl
      ] in
    let second : (if ltb j 227 then word old (j + 397) else word (set mt i x) (j - 227))
        ≡ (if ltb j 227 then word old (j + 397) else word mt (j - 227)) =
      elim (Bool-cases (ltb j 227)) [
        | inl early ↦ rw early refl
        | inr late ↦ rw late (word-set_ne mt i (j - 227) x (λ e. ground (arith, e)))
      ] in
    rw (first, second) refl

Partly-set :
    (old mt : List ℕ) (i : ℕ)
    → Partly old i mt
    → i < 624
    → Partly old (i + 1) (set mt i (renewed old mt i))
Partly-set old mt i (size, later, made) inside =
    let w = renewed old mt i in
    (
      length-set mt i w ∙ size,
      λ j behind. word-set_ne mt i j w (λ e. omega arith) ∙ later j (omega arith),
      λ j before small. elim (Bool-cases (j == i)) [
        | inl here ↦
            let same : i ≡ j = ground arith in
            subst (λ k. word (set mt i w) k ≡ renewed old (set mt i w) k) same
              (word-set_self mt i w (omega arith)
                ∙ sym (renewed-set old mt i i w (omega arith) inside))
        | inr other ↦
            word-set_ne mt i j w (λ e. ground arith)
            ∙ made j (ground arith) small
            ∙ sym (renewed-set old mt i j w (omega arith) inside)
      ],
    )

pub twist-ok :
    (left : ℕ) (old mt : List ℕ) (i : ℕ)
    → Partly old i mt
    → left + i ≤ 624
    → (v : List ℕ) × (twist left mt i ≡ ok v) × Partly old (left + i) v
unfolding twist
twist-ok zero old mt i partly inside =
    let none_left : i ≡ 0 + i = omega arith in
    (mt, refl, subst (λ n. Partly old n mt) none_left partly)
twist-ok (suc left) old mt i partly inside =
    let size = partly.0 in
    let first = read-word mt i (omega arith) ∙ ap ok (partly.1 i (omega arith)) in
    let second =
      read-word mt ((i + 1) % 624) (omega arith)
      ∙ ap ok (reads_next old mt i partly (omega arith)) in
    let third =
      read-word mt ((i + 397) % 624) (omega arith)
      ∙ ap ok (reads_far old mt i partly (omega arith)) in
    let w = renewed old mt i in
    let (v, twists, ends) =
      twist-ok left old (set mt i w) (i + 1) (Partly-set old mt i partly (omega arith))
        (omega arith) in
    let count : left + (i + 1) ≡ suc left + i = omega arith in
    (
      v,
      >>=-ok _ _ first (
          >>=-ok _ _ second (>>=-ok _ _ third (>>=-ok _ _ (write-ok mt i w (omega arith)) twists))),
      subst (λ n. Partly old n v) count ends,
    )
