-- ===== src/Tests/Safetensors.antt =====
-- A shard with one tensor of two elements.
use jev_bush.Prelude.{ℕ, ◌≡◌, refl, List, [], ◌∷◌, ◌++◌, true, false}
use jev_bush.Fault.{ok}
use jev_bush.Fault.Clean.{Clean}
use jev_bush.Safetensors.{TensorIndex, bf16, parse_shard_data}

-- {"t":{"dtype":"BF16","shape":[1,2],"data_offsets":[0,4]}}
abbrev header : List ℕ
header =
    b'{' ∷ b'"' ∷ b't' ∷ b'"' ∷ b':' ∷ b'{' ∷ b'"' ∷ b'd' ∷ b't' ∷ b'y' ∷ b'p' ∷ b'e' ∷ b'"' ∷ b':'
    ∷ b'"' ∷ b'B' ∷ b'F' ∷ b'1' ∷ b'6' ∷ b'"' ∷ b',' ∷ b'"' ∷ b's' ∷ b'h' ∷ b'a' ∷ b'p' ∷ b'e'
    ∷ b'"' ∷ b':' ∷ b'[' ∷ b'1' ∷ b',' ∷ b'2' ∷ b']' ∷ b',' ∷ b'"' ∷ b'd' ∷ b'a' ∷ b't' ∷ b'a'
    ∷ b'_' ∷ b'o' ∷ b'f' ∷ b'f' ∷ b's' ∷ b'e' ∷ b't' ∷ b's' ∷ b'"' ∷ b':' ∷ b'[' ∷ b'0' ∷ b','
    ∷ b'4' ∷ b']' ∷ b'}' ∷ b'}' ∷ []

abbrev shard_file : List ℕ
shard_file = 57 ∷ 0 ∷ 0 ∷ 0 ∷ 0 ∷ 0 ∷ 0 ∷ 0 ∷ header ++ 1 ∷ 2 ∷ 3 ∷ 4 ∷ []

abbrev keep : List (List ℕ) → List (List ℕ)
keep xs = xs

abbrev no_tensors : TensorIndex
no_tensors = record { tensors = []; cap = 0 }

abbrev one_tensor : TensorIndex
one_tensor = record {
  tensors =
      record { name = b't' ∷ []; data_at = 65; shape = 1 ∷ 2 ∷ []; bytes = 4; dtype = bf16 } ∷ [];
  cap = 1024;
}

shard_runs : parse_shard_data 96 true keep false no_tensors shard_file ≡ ok one_tensor
unfolding parse_shard_data jev_bush.Json.Primitive.primitive_valid
    jev_bush.Json.Primitive.skip_digits
shard_runs = refl
