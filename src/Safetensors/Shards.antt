-- ===== src/Safetensors/Shards.antt =====
-- A whole shard: the slab of names is large enough, and every tensor that is listed lies in the
-- shard.
use jev_bush.Prelude.{
  ℕ, suc, ◌+◌, ◌-◌, ◌-◌, ◌*◌, ◌%◌, ◌^◌, ◌≤◌, ◌≡◌, List, [], ◌∷◌, ◌++◌, none, some, Bool, true,
  false, not, ◌&&◌, length, get_elem?, take, drop, if◌then◌else◌, All, length-append, length-take,
  get_elem?_of_lt,
}
use jev_bush.Prelude.{take, length-take, length-append, get_elem?_of_lt, ◌*◌, ◌%◌, ◌^◌}
use jev_bush.Fault.Clean.{Clean}
use jev_bush.Json.Tokens.{Token}
use jev_bush.Json.Text.Copy.{Copy}
use jev_bush.Json.Readers.{is_string, parent_is}
use jev_bush.Safetensors.{Tensor, TensorIndex, little_endian}
use jev_bush.Safetensors.Descriptor.{InShard}

-- A string that stands in the object of the header.
abbrev pub is_name : Token → Bool
is_name t = parent_is t.parent 0 && is_string t.kind

-- No name is followed by another: the values of the header's members are no strings.
unfoldable pub only_names : List Token → Bool
only_names [] = true
only_names (t ∷ []) = true
only_names (t ∷ u ∷ ts) = not (is_name t && is_name u) && only_names (u ∷ ts)

abbrev NamesOnly : List Token → Type 0
NamesOnly ts =
    (k : ℕ) (t t' : Token)
    → get_elem? ts k ≡ some t
    → is_name t ≡ true
    → get_elem? ts (suc k) ≡ some t'
    → is_name t' ≡ false

name_room : Token → ℕ
name_room t = if is_name t then elim t.end_at [ none ↦ 0 | some e ↦ e - t.start ] + 1 else 0

room : List Token → ℕ
unfolding name_room
room [] = 0
room (t ∷ ts) = name_room t + room ts

-- The model has got tensors that lie in the shard, and its array holds them all.
abbrev pub Grown : TensorIndex → ℕ → ℕ → TensorIndex → Type 0
Grown m base size m' =
    (new : List Tensor) × (m'.tensors ≡ m.tensors ++ new)
    × All (InShard base size) new
    × (length m'.tensors ≤ m'.cap)

-- The header of a shard.
abbrev pub header_size : List ℕ → ℕ
header_size file = little_endian (take 8 file)

abbrev pub header_text : List ℕ → List ℕ
header_text file = take (header_size file) (drop 8 file)
