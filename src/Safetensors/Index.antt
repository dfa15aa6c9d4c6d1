-- ===== src/Safetensors/Index.antt =====
-- `dg_finalize_tensor_index` and `dg_tensor`. `qsort` and `bsearch` are parameters.
use jev_bush.Prelude.{
  ℕ, ◌≡◌, ◌≢◌, inl, inr, refl, sym, ap, subst, List, Option, none, some, true, false, Option-cases,
}
use mathlib.Core.List.{map, Mem, Nodup, Perm}
use mathlib.Core.List.Perm
use jev_bush.Fault.{die_if-ok, Result, ok, err, ◌>>◌, die_if, duplicate_tensor, missing_tensor}
use jev_bush.Json.Keys.{has_repeat}
use jev_bush.Json.Text.Scanned.{ok_eq}
use jev_bush.Names.{ascending, ascending-Nodup}
use jev_bush.Safetensors.{Tensor, TensorIndex}

abbrev pub names : List Tensor → List (List ℕ)
names ts = map (λ t. t.name) ts

module _ (qsort : List Tensor → List Tensor) (bsearch : List ℕ → List Tensor → Option Tensor) where
  unfoldable pub finalize : TensorIndex → Result TensorIndex
  unfolding has_repeat
  finalize m = do
    let sorted = qsort m.tensors
    die_if (has_repeat (names sorted)) duplicate_tensor
    ok (record m { tensors = sorted })

  unfoldable pub tensor : TensorIndex → List ℕ → Result Tensor
  tensor m name = elim (bsearch name m.tensors) [ none ↦ err missing_tensor | some t ↦ ok t ]

  -- `qsort` puts the tensors in an ascending order of their names, and `bsearch`, in such an order,
  -- gives a tensor of the name, if there is one.
  pub record Ordered : Type 0 where
    pub permutes : (ts : List Tensor) → Perm (qsort ts) ts
    pub ascends : (ts : List Tensor) → ascending (names (qsort ts)) ≡ true
    pub found :
        (name : List ℕ) (ts : List Tensor) (t : Tensor)
        → ascending (names ts) ≡ true
        → bsearch name ts ≡ some t
        → Mem t ts × (t.name ≡ name)
    pub absent :
        (name : List ℕ) (ts : List Tensor) (t : Tensor)
        → ascending (names ts) ≡ true
        → bsearch name ts ≡ none
        → Mem t ts
        → t.name ≢ name

  -- What a lookup gives: a tensor of the name, or, where it dies, none has that name.
  abbrev pub Looked : List Tensor → List ℕ → Result Tensor → Type 0
  Looked ts name (ok t) = Mem t ts × (t.name ≡ name)
  Looked ts name (err fault) = (fault ≡ missing_tensor) × ((t : Tensor) → Mem t ts → t.name ≢ name)

  tensor-Looked :
      (m : TensorIndex) (name : List ℕ)
      → Ordered
      → ascending (names m.tensors) ≡ true
      → Looked m.tensors name (tensor m name)
  unfolding tensor
  tensor-Looked m name o up = elim (Option-cases (bsearch name m.tensors)) [
    | inl missing ↦
        subst
          (λ (r : Option Tensor).
            Looked m.tensors name (elim r [ none ↦ err missing_tensor | some t ↦ ok t ]))
          (sym missing) (refl, λ t inside. o.absent name m.tensors t up missing inside)
    | inr (t, hit) ↦
        subst
          (λ (r : Option Tensor).
            Looked m.tensors name (elim r [ none ↦ err missing_tensor | some u ↦ ok u ]))
          (sym hit) (o.found name m.tensors t up hit)
  ]

  Looked-Perm :
      (ts us : List Tensor) (name : List ℕ) (r : Result Tensor)
      → Perm ts us
      → Looked ts name r
      → Looked us name r
  Looked-Perm ts us name (ok t) p h = (Perm.subset p t h.0, h.1)
  Looked-Perm ts us name (err fault) p h = (h.0, λ t m. h.1 t (Perm.subset (Perm.symm p) t m))

  -- When the sort and the search do what they promise and the index of the tensors is accepted, its
  -- tensors are those that were there in some order, their names are all different, and a lookup by
  -- name gives a tensor that was there and has the name, or dies as missing, and then none has it.
  pub finalize-Looked :
      (m m' : TensorIndex) (name : List ℕ)
      → Ordered
      → finalize m ≡ ok m'
      → Perm m'.tensors m.tensors
        × Nodup (names m'.tensors)
        × Looked m.tensors name (tensor m' name)
  unfolding finalize
  finalize-Looked m m' name o accepted =
      let (apart, ended) =
        (die_if-ok (has_repeat (names (qsort m.tensors))) duplicate_tensor _ m').0 accepted in
      let sorted : qsort m.tensors ≡ m'.tensors =
        ap (λ (x : TensorIndex). x.tensors) (ok_eq ended) in
      let up = subst (λ ts. ascending (names ts) ≡ true) sorted (o.ascends m.tensors) in
      let apart' = subst (λ ts. has_repeat (names ts) ≡ false) sorted apart in
      let same = subst (λ ts. Perm ts m.tensors) sorted (o.permutes m.tensors) in
      (
        same,
        ascending-Nodup (names m'.tensors) up apart',
        Looked-Perm m'.tensors m.tensors name (tensor m' name) same (tensor-Looked m' name o up),
      )
