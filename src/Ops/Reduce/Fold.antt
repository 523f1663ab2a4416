-- ===== src/Ops/Reduce/Fold.antt =====
-- crates/mohu-buffer/src/ops.rs: a reduction gives what a fold from the left gives, however the slice is split.
use mohu_fork_nirman.Base.{
  ◌≡◌, refl, ap, ap₂, sym, ◌∙◌, true, Option, none, some, List, [], ◌∷◌, map, drop, take,
}
use mohu_fork_nirman.Errors.{ok}
use mohu_fork_nirman.DType.Code.{dtype_eq}
use mohu_fork_nirman.DType.Scalar.{Scalar}
use mohu_fork_nirman.Layout.{is_c_contiguous}
use mohu_fork_nirman.Buffer.{Memory, Buffer}
use mohu_fork_nirman.Buffer.Access.{check_dtype}
use mohu_fork_nirman.Ops.Checks.{check_contiguous}
use mohu_fork_nirman.Ops.Contents.{Holds, load-Holds}
use mohu_fork_nirman.Ops.Scan.{total}
use mohu_fork_nirman.Ops.Scan.Chunked.{carry-total, total-append, take-drop}
use mohu_fork_nirman.Ops.Reduce.{
  Split, piece, split_at, reduce_split, combine_some, reduce_with, reduce,
}

pub reduce_split-total :
    {R : Type 0} (combine : R → R → R) (identity : R) (split : Split) (xs : List R)
    → ((a b c : R) → combine (combine a b) c ≡ combine a (combine b c))
    → ((a : R) → combine a identity ≡ a)
    → reduce_split combine split identity xs ≡ total combine identity xs
reduce_split-total combine identity piece xs assoc right = refl
reduce_split-total combine identity (split_at n l r) xs assoc right =
    let first = total combine identity (take n xs) in
    ap₂ combine (reduce_split-total combine identity l (take n xs) assoc right)
      (reduce_split-total combine identity r (drop n xs) assoc right)
    ∙ carry-total combine assoc first identity (drop n xs)
    ∙ ap (λ a. total combine a (drop n xs)) (right first)
    ∙ sym (total-append combine identity (take n xs) (drop n xs))
    ∙ ap (total combine identity) (take-drop n xs)

combine_some_assoc :
    {R : Type 0} (combine : R → R → R)
    → ((a b c : R) → combine (combine a b) c ≡ combine a (combine b c))
    → (a b c : Option R)
    → combine_some combine (combine_some combine a b) c
      ≡ combine_some combine a (combine_some combine b c)
combine_some_assoc combine assoc none b c = refl
combine_some_assoc combine assoc (some a) none c = refl
combine_some_assoc combine assoc (some a) (some b) none = refl
combine_some_assoc combine assoc (some a) (some b) (some c) = ap some (assoc a b c)

combine_some-none :
    {R : Type 0} (combine : R → R → R) (a : Option R) → combine_some combine a none ≡ a
combine_some-none combine none = refl
combine_some-none combine (some a) = refl

total-some :
    {R : Type 0} (combine : R → R → R) (acc : R) (xs : List R)
    → total (combine_some combine) (some acc) (map some xs) ≡ some (total combine acc xs)
total-some combine acc [] = refl
total-some combine acc (x ∷ xs) = total-some combine (combine acc x) xs

-- `reduce_with` of a slice that is not empty is the fold from its first element.
pub reduce_with-total :
    {R : Type 0} (combine : R → R → R) (split : Split) (x : R) (xs : List R)
    → ((a b c : R) → combine (combine a b) c ≡ combine a (combine b c))
    → reduce_with combine split (x ∷ xs) ≡ some (total combine x xs)
reduce_with-total combine split x xs assoc =
    reduce_split-total (combine_some combine) none split (map some (x ∷ xs))
      (combine_some_assoc combine assoc) (combine_some-none combine)
    ∙ total-some combine x xs

-- `reduce` of a contiguous buffer that holds `xs`, at its scalar type, where `combine` is associative and
-- `init` a right identity of it: whatever the split, the result is the fold from the left of the mapped values.
pub reduce-total :
    {A R : Type 0} (split : Split) (s : Scalar A) (init : R) (map_fn : A → R) (combine : R → R → R)
    (mem : Memory) (buf : Buffer) (xs : List A)
    → ((a b c : R) → combine (combine a b) c ≡ combine a (combine b c))
    → ((a : R) → combine a init ≡ a)
    → dtype_eq s.dtype buf.dtype ≡ true
    → is_c_contiguous buf.layout ≡ true
    → Holds s mem buf xs
    → reduce split s init map_fn combine mem buf ≡ ok (total combine init (map map_fn xs))
unfolding reduce check_dtype check_contiguous
reduce-total split s init map_fn combine mem buf xs assoc right typed whole holds =
    rw (typed, whole, load-Holds s mem buf xs whole holds)
      (ap ok (reduce_split-total combine init split (map map_fn xs) assoc right))
