-- ===== src/Fault.antt =====
-- How a call fails (src/foundation.inc, the `die` family). `die` leaves by longjmp with a
-- message; here it is an error value, with a constructor for each message of the modelled code.
-- `out_of_bounds` is no message of the program: it stands for a read or a write outside an array.
-- Nor is `out_of_fuel`: a loop that the model cut short.
pub mod Clean
use jev_bush.Prelude.{ap, ◌∙◌, ◌↔◌, ◌≡◌, refl, Bool, true, false, ◌⊎◌, inl, inr}

pub data Fault : Type 0 where
  out_of_bounds : Fault
  out_of_fuel : Fault
  out_of_memory : Fault
  allocation_size_overflow : Fault
  invalid_arena_alignment : Fault
  workspace_plan_too_small : Fault
  invalid_arena_reset : Fault
  token_array_overflow : Fault
  invalid_utf8 : Fault
  json_token_overflow bad_escape bad_unicode_escape control_byte unterminated_string : Fault
  missing_value nesting_too_deep unterminated_container expected_comma : Fault
  key_must_be_string expected_colon bad_primitive trailing_data input_too_large : Fault
  duplicate_key unpaired_surrogate nul_in_string expected_integer : Fault
  expected_unsigned bad_unsigned key_array_overflow : Fault
  short_safetensors invalid_safetensors_header invalid_safetensors_json : Fault
  bad_descriptor incomplete_descriptor unsupported_text_dtype unsupported_text_encoding : Fault
  too_many_dimensions bad_offsets out_of_bounds_data tensor_size_overflow byte_size_mismatch : Fault
  descriptor_array_overflow duplicate_tensor missing_tensor : Fault
  unexpected_tensor_shape unexpected_tensor_size : Fault
  accelerator_out_of_memory out_of_page_locked_memory : Fault
  output_too_large string_size_overflow : Fault
  workspace_already_active workspace_plan_mismatch control_already_active corrupt_control : Fault
  invalid_document_count kv_plan_mismatch kv_initialized_twice kv_already_active corrupt_kv : Fault
  invalid_cleanup_registration invalid_cleanup_removal cleanup_out_of_order armed_cleanup : Fault

-- What a call gives back: a value, or the fault that it dies with.
pub data Result {ℓ} (V : Type ℓ) : Type ℓ where
  err : Fault → Result V
  ok : V → Result V

-- A fault skips what follows.
infixl 5 ◌>>=◌ ◌>>◌
abbrev pub ◌>>=◌ {ℓ κ} : {V : Type ℓ} {W : Type κ} → Result V → (V → Result W) → Result W
err fault >>= next = err fault
ok v >>= next = next v

abbrev pub ◌>>◌ {κ} : {W : Type κ} → Result (Unit {0}) → Result W → Result W
first >> next = first >>= λ _. next

-- `if (test) die(...)`.
abbrev pub die_if : Bool → Fault → Result (Unit {0})
die_if false fault = ok tt
die_if true fault = err fault

-- The steps of a chain that came to its end.
pub >>=-eq-ok {ℓ κ} :
    {V : Type ℓ} {W : Type κ} (r : Result V) (next : V → Result W) {w : W}
    → (r >>= next) ≡ ok w
    → (v : V) × (r ≡ ok v) × (next v ≡ ok w)
>>=-eq-ok (err fault) next e = cc
>>=-eq-ok (ok v) next e = (v, refl, e)

pub Result-cases {ℓ} :
    {V : Type ℓ} (r : Result V) → ((v : V) × (r ≡ ok v)) ⊎ ((fault : Fault) × (r ≡ err fault))
Result-cases (err fault) = inr (fault, refl)
Result-cases (ok v) = inl (v, refl)

-- A check that is passed.
pub die_if-ok :
    {W : Type 0} (b : Bool) (fault : Fault) (rest : Result W) (w : W)
    → ((die_if b fault >> rest) ≡ ok w) ↔ ((b ≡ false) × (rest ≡ ok w))
die_if-ok false fault rest w = (λ e. (refl, e), λ h. h.1)
die_if-ok true fault rest w = (λ e. cc, λ h. cc)

-- A chain whose first step is known.
pub >>=-ok {ℓ κ} :
    {V : Type ℓ} {W : Type κ} (r : Result V) (next : V → Result W) {v : V} {w : W}
    → r ≡ ok v
    → next v ≡ ok w
    → (r >>= next) ≡ ok w
>>=-ok r next e f = ap (λ x. x >>= next) e ∙ f
