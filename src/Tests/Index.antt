-- ===== src/Tests/Index.antt =====
-- An index of two tensors, with a sort by insertion and a search from the first on.
use jev_bush.Prelude.{
  ℕ, ◌≡◌, ◌≢◌, inl, inr, refl, sym, ap, subst, ◌∙◌, List, [], ◌∷◌, Option, none, some, Bool, true,
  false, if◌then◌else◌, Bool-cases,
}
use mathlib.Core.Option.{some-injective}
use mathlib.Core.Logic.{∥∥₁_elim}
use mathlib.Core.HLevel.{¬_prop}
use mathlib.Core.List.{Memᴰ, Mem, Nodup, Perm, mem-cons_self, mem-cons_of_mem}
use mathlib.Core.List.Perm
use jev_bush.Fault.{ok}
use jev_bush.Json.Primitive.{same_bytes}
use jev_bush.Json.Primitive.Grammar.{same_bytes_iff}
use jev_bush.Names.{name_le, ascending}
use jev_bush.Safetensors.{Tensor, TensorIndex, bf16}
use jev_bush.Safetensors.Index.{names, finalize, tensor, Ordered, Looked, finalize-Looked}
use jev_bush.Tests.Keys.{insert, insertion_sort, ascending-insertion_sort}

unfoldable insert_tensor : Tensor → List Tensor → List Tensor
unfolding name_le
insert_tensor t [] = t ∷ []
insert_tensor t (u ∷ us) =
    let rest = insert_tensor t us in if name_le t.name u.name then t ∷ u ∷ us else u ∷ rest

unfoldable sort_tensors : List Tensor → List Tensor
unfolding insert_tensor
sort_tensors [] = []
sort_tensors (t ∷ ts) = insert_tensor t (sort_tensors ts)

unfoldable search : List ℕ → List Tensor → Option Tensor
unfolding same_bytes
search name [] = none
search name (t ∷ ts) = let rest = search name ts in if same_bytes t.name name then some t else rest

names-insert_tensor :
    (t : Tensor) (us : List Tensor) → names (insert_tensor t us) ≡ insert t.name (names us)
unfolding insert_tensor insert
names-insert_tensor t [] = refl
names-insert_tensor t (u ∷ us) = elim (Bool-cases (name_le t.name u.name)) [
  | inl first ↦ rw first refl
  | inr later ↦ rw later (ap (λ l. u.name ∷ l) (names-insert_tensor t us))
]

names-sort_tensors : (ts : List Tensor) → names (sort_tensors ts) ≡ insertion_sort (names ts)
unfolding sort_tensors insertion_sort
names-sort_tensors [] = refl
names-sort_tensors (t ∷ ts) =
    names-insert_tensor t (sort_tensors ts) ∙ ap (insert t.name) (names-sort_tensors ts)

insert_tensor-Perm : (t : Tensor) (us : List Tensor) → Perm (insert_tensor t us) (t ∷ us)
unfolding insert_tensor
insert_tensor-Perm t [] = Perm.refl (t ∷ [])
insert_tensor-Perm t (u ∷ us) = elim (Bool-cases (name_le t.name u.name)) [
  | inl first ↦ rw first (Perm.refl (t ∷ u ∷ us))
  | inr later ↦ rw later (Perm.trans (Perm.cons u (insert_tensor-Perm t us)) (Perm.swap t u us))
]

sort_tensors-Perm : (ts : List Tensor) → Perm (sort_tensors ts) ts
unfolding sort_tensors
sort_tensors-Perm [] = Perm.refl []
sort_tensors-Perm (t ∷ ts) =
    Perm.trans (insert_tensor-Perm t (sort_tensors ts)) (Perm.cons t (sort_tensors-Perm ts))

search-Mem :
    (name : List ℕ) (ts : List Tensor) (t : Tensor)
    → search name ts ≡ some t
    → Mem t ts × (t.name ≡ name)
unfolding search
search-Mem name [] t e = cc
search-Mem name (u ∷ ts) t e = elim (Bool-cases (same_bytes u.name name)) [
  | inl hit ↦
      let e' = rw hit at e in
      let same : u ≡ t = some-injective u t e' in
      (
        subst (λ x. Mem x (u ∷ ts)) same mem-cons_self,
        ap (λ (x : Tensor). x.name) (sym same) ∙ (same_bytes_iff u.name name).0 hit,
      )
  | inr other ↦
      let (inside, named) = search-Mem name ts t (rw other at e) in
      (mem-cons_of_mem u inside, named)
]

different : (b : Bool) → b ≡ false → b ≡ true → {A : Type 0} → A
different true e f = cc
different false e f = cc

search-none :
    (name : List ℕ) (ts : List Tensor) (t : Tensor)
    → search name ts ≡ none
    → Memᴰ t ts
    → t.name ≢ name
unfolding search
search-none name [] t e d named = elim d [ ]
search-none name (u ∷ ts) t e d named = elim (Bool-cases (same_bytes u.name name)) [
  | inl hit ↦ (let e' = rw hit at e in cc)
  | inr other ↦ elim d [
    | Memᴰ.head same ↦
        different (same_bytes u.name name) other
          ((same_bytes_iff u.name name).1 (ap (λ (x : Tensor). x.name) (sym same) ∙ named))
    | Memᴰ.tail rest ↦ search-none name ts t (rw other at e) rest named
  ]
]

search-Ordered : Ordered sort_tensors search
search-Ordered = record {
  permutes = sort_tensors-Perm;
  ascends = λ ts.
      subst (λ l. ascending l ≡ true) (sym (names-sort_tensors ts))
        (ascending-insertion_sort (names ts));
  found = λ name ts t up e. search-Mem name ts t e;
  absent = λ name ts t up e inside. ∥∥₁_elim inside ¬_prop (search-none name ts t e);
}

abbrev tensor_of : ℕ → Tensor
tensor_of c = record { name = c ∷ []; data_at = 64; shape = []; bytes = 2; dtype = bf16 }

abbrev unsorted : TensorIndex
unsorted = record { tensors = tensor_of b'z' ∷ tensor_of b'a' ∷ []; cap = 1024 }

abbrev in_order : TensorIndex
in_order = record { tensors = tensor_of b'a' ∷ tensor_of b'z' ∷ []; cap = 1024 }

index_runs : finalize sort_tensors search unsorted ≡ ok in_order
unfolding finalize sort_tensors
index_runs = refl

finalize-Looked_example :
    Perm in_order.tensors unsorted.tensors
    × Nodup (names in_order.tensors)
    × Looked sort_tensors search unsorted.tensors
        (b'z' ∷ [])
        (tensor sort_tensors search in_order (b'z' ∷ []))
finalize-Looked_example =
    finalize-Looked sort_tensors search unsorted in_order (b'z' ∷ []) search-Ordered index_runs
