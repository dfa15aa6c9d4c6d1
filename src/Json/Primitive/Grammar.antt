-- ===== src/Json/Primitive/Grammar.antt =====
-- `json_primitive_valid` accepts the literals and numbers of JSON, and nothing else.
use mathlib.Core.List.{append-nil, append_assoc}
use jev_bush.Prelude.{
  ℕ, ◌≡◌, ◌≢◌, ◌↔◌, ◌⊎◌, inl, inr, refl, sym, ap, ◌∙◌, arith, true, false, ◌||◌, ◌==◌, Bool-cases,
  List, [], ◌∷◌, ◌++◌, Option, none, some, Option-cases, All,
}
use jev_bush.Json.Bytes.{is_digit}
use jev_bush.Json.Primitive.{
  true_bytes, false_bytes, null_bytes, same_bytes, skip_digits, skip_minus, skip_integer, skip_run,
  skip_fraction, skip_sign, skip_exponent, is_end, ◌>>=◌, primitive_valid,
}

abbrev pub IsDigits : List ℕ → Type 0
IsDigits = All (λ c. is_digit c ≡ true)

-- One digit or more.
pub data IsRun : List ℕ → Type 0 where
  run : (d : ℕ) (ds : List ℕ) → is_digit d ≡ true → IsDigits ds → IsRun (d ∷ ds)

pub data IsMinus : List ℕ → Type 0 where
  none_written : IsMinus []
  minus : IsMinus (b'-' ∷ [])

pub data IsSign : List ℕ → Type 0 where
  unsigned : IsSign []
  signed : (c : ℕ) → (c ≡ b'+') ⊎ (c ≡ b'-') → IsSign (c ∷ [])

-- No leading zero.
pub data IsInteger : List ℕ → Type 0 where
  zero_digit : IsInteger (b'0' ∷ [])
  nonzero : (d : ℕ) (ds : List ℕ) → is_digit d ≡ true → d ≢ b'0' → IsDigits ds → IsInteger (d ∷ ds)

pub data IsFraction : List ℕ → Type 0 where
  whole : IsFraction []
  point : (ds : List ℕ) → IsRun ds → IsFraction (b'.' ∷ ds)

pub data IsExponent : List ℕ → Type 0 where
  plain : IsExponent []
  power :
      (e : ℕ) (sign ds : List ℕ)
      → (e ≡ b'e') ⊎ (e ≡ b'E')
      → IsSign sign
      → IsRun ds
      → IsExponent (e ∷ (sign ++ ds))

-- The number production of RFC 8259.
pub record IsNumber (s : List ℕ) : Type 0 where
  pub minus_part : List ℕ
  pub integer_part : List ℕ
  pub fraction_part : List ℕ
  pub exponent_part : List ℕ
  pub is_minus : IsMinus minus_part
  pub is_integer : IsInteger integer_part
  pub is_fraction : IsFraction fraction_part
  pub is_exponent : IsExponent exponent_part
  pub splits : s ≡ minus_part ++ (integer_part ++ (fraction_part ++ exponent_part))

pub same_bytes_iff : (a b : List ℕ) → (same_bytes a b ≡ true) ↔ (a ≡ b)
unfolding same_bytes
same_bytes_iff (x ∷ a) (y ∷ b) = ground (arith, same_bytes_iff a b)
same_bytes_iff _ _ = ground arith

-- What each step skips is of its form.
skip_digits_split : (s : List ℕ) → (ds : List ℕ) × IsDigits ds × (s ≡ ds ++ skip_digits s)
unfolding skip_digits
skip_digits_split [] = ([], tt, refl)
skip_digits_split (c ∷ cs) = elim (Bool-cases (is_digit c)) [
  | inl digit ↦
      let (ds, all, e) = skip_digits_split cs in (c ∷ ds, (digit, all), rw digit (ap (◌∷◌ c) e))
  | inr other ↦ ([], tt, rw other)
]

skip_run_split :
    (s rest : List ℕ) → skip_run s ≡ some rest → (ds : List ℕ) × IsRun ds × (s ≡ ds ++ rest)
unfolding skip_run
skip_run_split [] rest e = absurd (ground arith)
skip_run_split (c ∷ cs) rest e =
    let (ds, all, split) = skip_digits_split cs in
    (c ∷ ds, run c ds (ground arith) all, ground arith)

skip_minus_split : (s : List ℕ) → (m : List ℕ) × IsMinus m × (s ≡ m ++ skip_minus s)
unfolding skip_minus
skip_minus_split [] = ([], none_written, refl)
skip_minus_split (c ∷ cs) = elim (Bool-cases (c == b'-')) [
  | inl dash ↦ (b'-' ∷ [], minus, ground arith)
  | inr other ↦ ([], none_written, ground arith)
]

skip_integer_split :
    (s rest : List ℕ) → skip_integer s ≡ some rest → (i : List ℕ) × IsInteger i × (s ≡ i ++ rest)
unfolding skip_integer
skip_integer_split [] rest e = absurd (ground arith)
skip_integer_split (c ∷ cs) rest e = elim (Bool-cases (c == b'0')) [
  | inl lone ↦ (b'0' ∷ [], zero_digit, ground arith)
  | inr other ↦
      let (ds, all, split) = skip_digits_split cs in
      (c ∷ ds, nonzero c ds (ground arith) (ground arith) all, unfold skip_digits in ground arith)
]

skip_fraction_split :
    (s rest : List ℕ) → skip_fraction s ≡ some rest → (f : List ℕ) × IsFraction f × (s ≡ f ++ rest)
unfolding skip_fraction
skip_fraction_split [] rest e = ([], whole, ground arith)
skip_fraction_split (c ∷ cs) rest e = elim (Bool-cases (c == b'.')) [
  | inl dot ↦
      let (ds, is_run, split) = skip_run_split cs rest (ground arith) in
      (b'.' ∷ ds, point ds is_run, ground arith)
  | inr other ↦ ([], whole, ground arith)
]

skip_sign_split : (s : List ℕ) → (g : List ℕ) × IsSign g × (s ≡ g ++ skip_sign s)
unfolding skip_sign
skip_sign_split [] = ([], unsigned, refl)
skip_sign_split (c ∷ cs) = elim (Bool-cases (c == b'+' || c == b'-')) [
  | inl sign ↦ (c ∷ [], signed c (ground arith), ground arith)
  | inr other ↦ ([], unsigned, ground arith)
]

skip_exponent_split :
    (s rest : List ℕ) → skip_exponent s ≡ some rest → (x : List ℕ) × IsExponent x × (s ≡ x ++ rest)
unfolding skip_exponent
skip_exponent_split [] rest e = ([], plain, ground arith)
skip_exponent_split (c ∷ cs) rest e = elim (Bool-cases (c == b'e' || c == b'E')) [
  | inl letter ↦
      let (g, is_sign, before) = skip_sign_split cs in
      let (ds, is_run, split) = skip_run_split (skip_sign cs) rest (ground arith) in
      (
        c ∷ (g ++ ds),
        power c g ds (ground arith) is_sign is_run,
        ap (◌∷◌ c) (before ∙ ap (◌++◌ g) split ∙ sym (append_assoc g ds rest)),
      )
  | inr other ↦ ([], plain, ground arith)
]

-- The other way round: each step skips the whole of its part.
abbrev NoDigit : List ℕ → Type 0
NoDigit [] = Unit
NoDigit (c ∷ cs) = is_digit c ≡ false

skip_digits-all : (ds rest : List ℕ) → IsDigits ds → NoDigit rest → skip_digits (ds ++ rest) ≡ rest
unfolding skip_digits
skip_digits-all [] [] all no_digit = refl
skip_digits-all [] (c ∷ cs) all no_digit = rw no_digit
skip_digits-all (d ∷ ds) rest all no_digit = rw all.0 (skip_digits-all ds rest all.1 no_digit)

skip_run-all :
    {ds : List ℕ} (rest : List ℕ) → IsRun ds → NoDigit rest → skip_run (ds ++ rest) ≡ some rest
unfolding skip_run
skip_run-all rest (run d ds h all) no_digit = rw h (ap some (skip_digits-all ds rest all no_digit))

skip_integer-bare :
    {i : List ℕ} (rest : List ℕ) → IsInteger i → NoDigit rest → skip_integer (i ++ rest) ≡ some rest
unfolding skip_integer skip_digits
skip_integer-bare rest zero_digit no_digit = refl
skip_integer-bare rest (nonzero d ds h ne all) no_digit =
    ground (arith, skip_digits-all ds rest all no_digit)

skip_integer-all :
    {i : List ℕ} (rest : List ℕ)
    → IsInteger i
    → NoDigit rest
    → skip_integer (skip_minus (i ++ rest)) ≡ some rest
unfolding skip_integer skip_minus skip_digits
skip_integer-all rest zero_digit no_digit = refl
skip_integer-all rest (nonzero d ds h ne all) no_digit =
    ground (arith, skip_digits-all ds rest all no_digit)

skip_sign-all : {g ds : List ℕ} → IsSign g → IsRun ds → skip_sign (g ++ ds) ≡ ds
unfolding skip_sign
skip_sign-all unsigned (run d ds h all) = ground arith
skip_sign-all (signed c h) r = ground arith

skip_exponent-all : {x : List ℕ} → IsExponent x → skip_exponent x ≡ some []
unfolding skip_exponent
skip_exponent-all plain = refl
skip_exponent-all (power e g ds h is_sign is_run) =
    ground (arith, skip_sign-all is_sign is_run, rw append-nil at (skip_run-all [] is_run tt))

skip_fraction-all : {f x : List ℕ} → IsFraction f → IsExponent x → skip_fraction (f ++ x) ≡ some x
unfolding skip_fraction
skip_fraction-all whole plain = refl
skip_fraction-all whole (power e g ds h is_sign is_run) = ground arith
skip_fraction-all (point ds is_run) plain = skip_run-all [] is_run tt
skip_fraction-all (point ds is_run) (power e g es h is_sign is_run') =
    skip_run-all (e ∷ (g ++ es)) is_run (ground arith)

NoDigit-after : {f x : List ℕ} → IsFraction f → IsExponent x → NoDigit (f ++ x)
NoDigit-after whole plain = tt
NoDigit-after whole (power e g ds h is_sign is_run) = ground arith
NoDigit-after (point ds is_run) is_exponent = refl

skips_number :
    {m i f x : List ℕ}
    → IsMinus m
    → IsInteger i
    → IsFraction f
    → IsExponent x
    → (skip_integer (skip_minus (m ++ (i ++ (f ++ x)))) >>= skip_fraction >>= skip_exponent)
      ≡ some []
skips_number {m} {i} {f} {x} none_written is_i is_f is_x =
    rw (skip_integer-all (f ++ x) is_i (NoDigit-after is_f is_x))
      (rw (skip_fraction-all is_f is_x) (skip_exponent-all is_x))
skips_number {m} {i} {f} {x} minus is_i is_f is_x =
    let dash : skip_minus (b'-' ∷ (i ++ (f ++ x))) ≡ i ++ (f ++ x) = unfold skip_minus in refl in
    rw dash (
      rw (skip_integer-bare (f ++ x) is_i (NoDigit-after is_f is_x))
        (rw (skip_fraction-all is_f is_x) (skip_exponent-all is_x)))

IsNumber-of_chain :
    (s : List ℕ)
    → (skip_integer (skip_minus s) >>= skip_fraction >>= skip_exponent) ≡ some []
    → IsNumber s
IsNumber-of_chain s e = elim (Option-cases (skip_integer (skip_minus s))) [
  | inl failed ↦ absurd (ground arith)
  | inr (after_integer, e₁) ↦ elim (Option-cases (skip_fraction after_integer)) [
    | inl failed ↦ absurd (ground arith)
    | inr (after_fraction, e₂) ↦
        let (m, is_m, s₀) = skip_minus_split s in
        let (i, is_i, s₁) = skip_integer_split (skip_minus s) after_integer e₁ in
        let (f, is_f, s₂) = skip_fraction_split after_integer after_fraction e₂ in
        let (x, is_x, s₃) = skip_exponent_split after_fraction [] (ground arith) in
        record {
          minus_part = m;
          integer_part = i;
          fraction_part = f;
          exponent_part = x;
          is_minus = is_m;
          is_integer = is_i;
          is_fraction = is_f;
          is_exponent = is_x;
          splits = cc (s₀, s₁, s₂, s₃, append-nil x);
        }
  ]
]

chain-IsNumber :
    (s : List ℕ)
    → IsNumber s
    → (skip_integer (skip_minus s) >>= skip_fraction >>= skip_exponent) ≡ some []
chain-IsNumber s n = rw n.splits (skips_number n.is_minus n.is_integer n.is_fraction n.is_exponent)

is_end_eq : (o : Option (List ℕ)) → is_end o ≡ true → o ≡ some []
is_end_eq none e = cc
is_end_eq (some []) e = refl
is_end_eq (some (c ∷ cs)) e = cc

-- `json_primitive_valid` answers 1 exactly on the literals `true`, `null` and `false` and on the
-- numbers of the JSON grammar.
pub primitive_valid_iff :
    (s : List ℕ)
    → (primitive_valid s ≡ true)
      ↔ ((s ≡ true_bytes) ⊎ (s ≡ null_bytes) ⊎ (s ≡ false_bytes) ⊎ IsNumber s)
unfolding primitive_valid
primitive_valid_iff s = (
  λ e. elim (Bool-cases (same_bytes s true_bytes)) [
    | inl is_true ↦ inl ((same_bytes_iff s true_bytes).0 is_true)
    | inr a ↦ elim (Bool-cases (same_bytes s null_bytes)) [
      | inl is_null ↦ inr (inl ((same_bytes_iff s null_bytes).0 is_null))
      | inr b ↦ elim (Bool-cases (same_bytes s false_bytes)) [
        | inl is_false ↦ inr (inr (inl ((same_bytes_iff s false_bytes).0 is_false)))
        | inr c ↦ inr (inr (inr (IsNumber-of_chain s (is_end_eq _ (rw (a, b, c) at e)))))
      ]
    ]
  ],
  λ h. elim h [
    | inl is_true ↦ ground (arith, same_bytes_iff s true_bytes)
    | inr (inl is_null) ↦ ground (arith, same_bytes_iff s null_bytes)
    | inr (inr (inl is_false)) ↦ ground (arith, same_bytes_iff s false_bytes)
    | inr (inr (inr number)) ↦ ground (arith, chain-IsNumber s number)
  ],
)
