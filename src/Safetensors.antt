-- ===== src/Safetensors.antt =====
-- The shards of a model: the safetensors header of each, and the index of the tensors that the
-- headers list. A name is the list of its bytes. `data`, a pointer into the mapped shard, is an
-- offset here; the copies of a tensor that later code makes have no fields.
pub mod Descriptor
pub mod Shards
pub mod Index
use jev_bush.Prelude.{
  ℕ, zero, suc, ◌+◌, ◌-◌, ◌*◌, ◌/◌, ◌%◌, ◌^◌, List, [], ◌∷◌, ◌++◌, Option, none, some, Bool, true,
  false, not, ◌&&◌, ◌||◌, ltb, leb, ◌==◌, length, get_elem?, take, drop, if◌then◌else◌,
}
use jev_bush.Fault.{
  Fault, Result, ok, err, ◌>>=◌, ◌>>◌, die_if, out_of_bounds, out_of_fuel, out_of_memory,
  short_safetensors, invalid_safetensors_header, invalid_safetensors_json, bad_descriptor,
  incomplete_descriptor, unsupported_text_dtype, unsupported_text_encoding, too_many_dimensions,
  bad_offsets, out_of_bounds_data, tensor_size_overflow, byte_size_mismatch,
  descriptor_array_overflow,
}
use jev_bush.Size.{size_add, size_max}
use jev_bush.Json.Primitive.{same_bytes}
use jev_bush.Json.Tokens.{Kind, array, Token, max_json}
use jev_bush.Json.Text.{string_copy_into}
use jev_bush.Json.Readers.{
  is_string, is_object, token_at, parent_before, parent_is, token_eq, object_get, uint64_max,
  token_u64,
}
use jev_bush.Json.Keys.{token_length, json_tokens}

pub data Dtype : Type 0 where
  unknown bf16 u8 f8e4m3 f32 : Dtype

abbrev pub item : Dtype → ℕ
item bf16 = 2
item f32 = 4
item _ = 1

pub record Tensor : Type 0 where
  pub name : List ℕ
  pub data_at : ℕ
  pub shape : List ℕ
  pub bytes : ℕ
  pub dtype : Dtype

-- The tensors of a model (`tensor`, `nt`, `cap` of DGModel) so far, and how many its array holds.
pub record TensorIndex : Type 0 where
  pub tensors : List Tensor
  pub cap : ℕ

-- `dg_push_tensor`. The size of a descriptor and whether memory is there are parameters.
unfoldable pub push_tensor : ℕ → Bool → TensorIndex → Tensor → Result TensorIndex
push_tensor descriptor_size memory m t = do
  cap ←
      if length m.tensors == m.cap
      then (do
        die_if (ltb (size_max / 2 / descriptor_size) m.cap) descriptor_array_overflow
        die_if (not memory) out_of_memory
        ok (if m.cap == 0 then 1024 else m.cap * 2))
      else ok m.cap
  die_if (leb cap (length m.tensors)) out_of_bounds
  ok (record { tensors = m.tensors ++ t ∷ []; cap = cap })

-- `!strncmp(name, prefix, strlen(prefix))`.
unfoldable pub starts_with : List ℕ → List ℕ → Bool
starts_with name [] = true
starts_with [] (x ∷ xs) = false
starts_with (c ∷ cs) (x ∷ xs) = c == x && starts_with cs xs

-- `strstr(name, part)`.
unfoldable pub contains : List ℕ → List ℕ → Bool
unfolding starts_with
contains [] part = starts_with [] part
contains (c ∷ cs) part = starts_with (c ∷ cs) part || contains cs part

abbrev pub decoder : List ℕ
decoder =
    b'm' ∷ b'o' ∷ b'd' ∷ b'e' ∷ b'l' ∷ b'.' ∷ b'd' ∷ b'e' ∷ b'c' ∷ b'o' ∷ b'd' ∷ b'e' ∷ b'r' ∷ b'.'
    ∷ []

abbrev pub encoder : List ℕ
encoder =
    b'm' ∷ b'o' ∷ b'd' ∷ b'e' ∷ b'l' ∷ b'.' ∷ b'e' ∷ b'n' ∷ b'c' ∷ b'o' ∷ b'd' ∷ b'e' ∷ b'r' ∷ b'.'
    ∷ b'l' ∷ b'a' ∷ b'n' ∷ b'g' ∷ b'u' ∷ b'a' ∷ b'g' ∷ b'e' ∷ b'_' ∷ b'm' ∷ b'o' ∷ b'd' ∷ b'e'
    ∷ b'l' ∷ b'.' ∷ []

abbrev layer_scalar : List ℕ
layer_scalar =
    b'.' ∷ b'l' ∷ b'a' ∷ b'y' ∷ b'e' ∷ b'r' ∷ b'_' ∷ b's' ∷ b'c' ∷ b'a' ∷ b'l' ∷ b'a' ∷ b'r' ∷ []

abbrev pub experts : List ℕ
experts = b'.' ∷ b'e' ∷ b'x' ∷ b'p' ∷ b'e' ∷ b'r' ∷ b't' ∷ b's' ∷ b'.' ∷ []

unfoldable pub is_text : List ℕ → Bool
unfolding starts_with contains
is_text name = starts_with name decoder || (starts_with name encoder && contains name layer_scalar)

abbrev pub is_array : Kind → Bool
is_array array = true
is_array _ = false

abbrev pub is_bf16 : Dtype → Bool
is_bf16 bf16 = true
is_bf16 _ = false

-- The encodings of a quantized expert.
abbrev pub is_quantized : Dtype → Bool
is_quantized u8 = true
is_quantized f8e4m3 = true
is_quantized f32 = true
is_quantized _ = false

abbrev pub is_unknown : Dtype → Bool
is_unknown unknown = true
is_unknown _ = false

-- The chain of comparisons with the names of the encodings.
unfoldable pub dtype_of : List ℕ → Token → List ℕ → Result Dtype
unfolding token_eq is_text
dtype_of s t name = do
  first ← token_eq s t (b'B' ∷ b'F' ∷ b'1' ∷ b'6' ∷ [])
  second ← if first then ok false else token_eq s t (b'U' ∷ b'8' ∷ [])
  third ←
      if first || second
      then ok false
      else token_eq s t (b'F' ∷ b'8' ∷ b'_' ∷ b'E' ∷ b'4' ∷ b'M' ∷ b'3' ∷ [])
  fourth ← if first || second || third then ok false else token_eq s t (b'F' ∷ b'3' ∷ b'2' ∷ [])
  if first
      then ok bf16
      else if second
      then ok u8
      else if third
      then ok f8e4m3
      else if fourth
      then ok f32
      else if is_text name
      then err unsupported_text_dtype
      else ok unknown

-- The loops over the dimensions and over the offsets: the numbers in the array `at`, from token `k`
-- on, where `n` have been stored and the array that they are stored in holds `most`.
unfoldable pub numbers : ℕ → Fault → List ℕ → List Token → ℕ → ℕ → ℕ → ℕ → Result (List ℕ)
unfolding token_u64
numbers most fault s ts at n zero k = if ltb k (length ts) then err out_of_fuel else ok []
numbers most fault s ts at n (suc fuel) k = if not (ltb k (length ts)) then ok [] else (do
  t ← token_at ts k
  if parent_before t.parent at
      then ok []
      else if parent_is t.parent at
      then (do
        die_if (n == most) fault
        v ← token_u64 s t
        rest ← numbers most fault s ts at (n + 1) fuel (k + 1)
        ok (v ∷ rest))
      else numbers most fault s ts at n fuel (k + 1))

-- The product of the dimensions.
unfoldable pub elements : ℕ → List ℕ → Result ℕ
elements count [] = ok count
elements count (d ∷ ds) = do
  die_if (not (d == 0) && ltb (uint64_max / d) count) tensor_size_overflow
  elements (count * d % 2 ^ 64) ds

-- The last check of a descriptor.
unfoldable pub check_bytes : Dtype → List ℕ → ℕ → Result (Unit {0})
unfolding elements
check_bytes dtype shape bytes = if is_unknown dtype then ok tt else (do
  count ← elements 1 shape
  die_if (ltb (uint64_max / item dtype) count || not (bytes == count * item dtype % 2 ^ 64))
      byte_size_mismatch)

-- The two offsets, within a shard of `size` bytes whose data begins at `base`: the place of the
-- first byte and how many there are.
unfoldable pub data_span : ℕ → ℕ → List ℕ → Result (ℕ × ℕ)
data_span base size (from ∷ to ∷ []) = do
  die_if (ltb to from || ltb size base || ltb (size - base) to) out_of_bounds_data
  ok (base + from, to - from)
data_span base size _ = err out_of_bounds_data

-- What is found, or the fault.
abbrev pub required {ℓ} : {V : Type ℓ} → Option V → Fault → Result V
required none fault = err fault
required (some v) fault = ok v

-- The fields of a descriptor, once their tokens are found.
unfoldable pub read_fields :
    List ℕ → List Token → Bool → ℕ → ℕ → List ℕ → Token → ℕ → ℕ → Result Tensor
unfolding dtype_of numbers check_bytes data_span contains is_text
read_fields s ts nvfp4 base size name dtype_token shape_at offsets_at = do
  dtype ← dtype_of s dtype_token name
  die_if
      (is_text name
        && not (is_bf16 dtype)
        && not (nvfp4 && contains name experts && is_quantized dtype))
      unsupported_text_encoding
  shape ← numbers 4 too_many_dimensions s ts shape_at 0 (length ts) (shape_at + 1)
  offsets ← numbers 2 bad_offsets s ts offsets_at 0 (length ts) (offsets_at + 1)
  (data_at, bytes) ← data_span base size offsets
  check_bytes dtype shape bytes
  ok (record { name = name; data_at = data_at; shape = shape; bytes = bytes; dtype = dtype })

-- The descriptor of the tensor `name`, in the object `obj`.
unfoldable pub descriptor : List ℕ → List Token → Bool → ℕ → ℕ → ℕ → List ℕ → Result Tensor
unfolding object_get read_fields
descriptor s ts nvfp4 base size obj name = do
  t ← required (get_elem? ts obj) bad_descriptor
  die_if (not (is_object t.kind)) bad_descriptor
  d ← object_get s ts (some obj) (b'd' ∷ b't' ∷ b'y' ∷ b'p' ∷ b'e' ∷ [])
  h ← object_get s ts (some obj) (b's' ∷ b'h' ∷ b'a' ∷ b'p' ∷ b'e' ∷ [])
  o ←
      object_get s ts (some obj)
        (b'd' ∷ b'a' ∷ b't' ∷ b'a' ∷ b'_' ∷ b'o' ∷ b'f' ∷ b'f' ∷ b's' ∷ b'e' ∷ b't' ∷ b's' ∷ [])
  dtype_at ← required d incomplete_descriptor
  shape_at ← required h incomplete_descriptor
  offsets_at ← required o incomplete_descriptor
  shape_token ← token_at ts shape_at
  offsets_token ← token_at ts offsets_at
  die_if (not (is_array shape_token.kind) || not (is_array offsets_token.kind))
      incomplete_descriptor
  dtype_token ← token_at ts dtype_at
  read_fields s ts nvfp4 base size name dtype_token shape_at offsets_at

-- The loop that sizes the slab of names, from token `key` on.
unfoldable pub names_bytes : ℕ → List Token → ℕ → ℕ → Result ℕ
unfolding size_add
names_bytes zero ts key sum = if ltb key (length ts) then err out_of_fuel else ok sum
names_bytes (suc fuel) ts key sum = if not (ltb key (length ts)) then ok sum else (do
  t ← token_at ts key
  if parent_is t.parent 0 && is_string t.kind
      then (do
        n ← token_length t
        piece ← size_add (n * 3 % 2 ^ 64) 1
        more ← size_add sum piece
        names_bytes fuel ts (key + 2) more)
      else names_bytes fuel ts (key + 1) sum)

abbrev pub metadata : List ℕ
metadata = b'_' ∷ b'_' ∷ b'm' ∷ b'e' ∷ b't' ∷ b'a' ∷ b'd' ∷ b'a' ∷ b't' ∷ b'a' ∷ b'_' ∷ b'_' ∷ []

-- What stays the same over the loop below: the slab of names holds `slab` bytes.
pub record Shard : Type 0 where
  pub text : List ℕ
  pub tokens : List Token
  pub nvfp4 : Bool
  pub base : ℕ
  pub size : ℕ
  pub slab : ℕ

-- `hn |= (uint64_t)data[i] << (8 * i)`, where no bit is met twice.
abbrev pub little_endian : List ℕ → ℕ
little_endian [] = 0
little_endian (b ∷ bs) = b + 256 * little_endian bs

module _ (descriptor_size : ℕ) (memory : Bool) where
  -- One round for the name `name`, which stands at token `key`.
  unfoldable pub read_tensor : Shard → ℕ → List ℕ → TensorIndex → Result TensorIndex
  unfolding descriptor push_tensor same_bytes
  read_tensor h key name m = if same_bytes name metadata then ok m else (do
    t ← descriptor h.text h.tokens h.nvfp4 h.base h.size (key + 1) name
    push_tensor descriptor_size memory m t)

  -- The loop over the names, from token `key` on, with `cursor` bytes of the slab used.
  unfoldable pub read_tensors : ℕ → Shard → ℕ → ℕ → TensorIndex → Result TensorIndex
  unfolding read_tensor string_copy_into
  read_tensors zero h cursor key m = if ltb key (length h.tokens) then err out_of_fuel else ok m
  read_tensors (suc fuel) h cursor key m = if not (ltb key (length h.tokens)) then ok m else (do
    t ← token_at h.tokens key
    if not (parent_is t.parent 0) || not (is_string t.kind)
        then read_tensors fuel h cursor (key + 1) m
        else (do
          name ← string_copy_into (h.slab - cursor) h.text t
          more ← read_tensor h key name m
          read_tensors fuel h (cursor + length name + 1) (key + 1) more))

  module _ (qsort : List (List ℕ) → List (List ℕ)) where
    unfoldable pub parse_shard_data : Bool → TensorIndex → List ℕ → Result TensorIndex
    unfolding json_tokens names_bytes read_tensors
    parse_shard_data nvfp4 m file = do
      let size = length file
      die_if (ltb size 9) short_safetensors
      let hn = little_endian (take 8 file)
      die_if (hn == 0 || ltb (size - 8) hn || ltb max_json hn) invalid_safetensors_header
      let s = take hn (drop 8 file)
      ts ← json_tokens qsort s
      root ← required (get_elem? ts 0) invalid_safetensors_json
      die_if (not (is_object root.kind)) invalid_safetensors_json
      bytes ← names_bytes (length ts) ts 1 0
      die_if (not memory) out_of_memory
      let h : Shard = record {
        text = s;
        tokens = ts;
        nvfp4 = nvfp4;
        base = 8 + hn;
        size = size;
        slab = if bytes == 0 then 1 else bytes;
      }
      read_tensors (length ts) h 0 1 m
