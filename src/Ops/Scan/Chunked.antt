-- ===== src/Ops/Scan/Chunked.antt =====
-- crates/mohu-buffer/src/ops.rs: `parallel_scan` gives the sequential scan, for any number of threads.
use native.Mathlib.Nat.{div-le_self}
use mohu_fork_nirman.Base.{
  ℕ, zero, suc, ◌/◌, ◌≤◌, ◌<◌, ◌≡◌, ◌≢◌, refl, ap, ap₂, sym, ◌∙◌, true, Option, List, [], ◌∷◌, ◌++◌,
  map, drop, take, length, arith, max, length-drop,
}
use mohu_fork_nirman.Base.Words.{isize_max}
use mohu_fork_nirman.Errors.{ok}
use mohu_fork_nirman.DType.Code.{dtype_eq}
use mohu_fork_nirman.DType.Scalar.{Scalar}
use mohu_fork_nirman.Alloc.Sizes.{next_power_of_two_lem}
use mohu_fork_nirman.Layout.{size, is_c_contiguous}
use mohu_fork_nirman.Buffer.{Memory, Buffer}
use mohu_fork_nirman.Buffer.Copy.{set_unique}
use mohu_fork_nirman.Ops.Contents.{Holds, load-Holds, length-Holds}
use mohu_fork_nirman.Ops.Stored.{Owned, run-Holds}
use mohu_fork_nirman.Ops.Elementwise.{check_typed-passes}
use mohu_fork_nirman.Ops.Scan.{
  chunks, local_scan, total, carry_totals, add_carries, chunked_scan, chunk_size_of, parallel_scan,
}

module _ {A : Type 0} (f : A → A → A) where
  local_scan-append :
      (acc : A) (xs ys : List A)
      → local_scan f acc (xs ++ ys) ≡ local_scan f acc xs ++ local_scan f (total f acc xs) ys
  local_scan-append acc [] ys = refl
  local_scan-append acc (x ∷ xs) ys = ap (λ l. f acc x ∷ l) (local_scan-append (f acc x) xs ys)

  length-local_scan : (acc : A) (xs : List A) → length (local_scan f acc xs) ≡ length xs
  length-local_scan acc [] = refl
  length-local_scan acc (x ∷ xs) = ap suc (length-local_scan (f acc x) xs)

module _ {A : Type 0} (f : A → A → A) (assoc : (a b c : A) → f (f a b) c ≡ f a (f b c)) where
  pub carry-total : (c acc : A) (xs : List A) → f c (total f acc xs) ≡ total f (f c acc) xs
  carry-total c acc [] = refl
  carry-total c acc (x ∷ xs) =
      carry-total c (f acc x) xs ∙ ap (λ a. total f a xs) (sym (assoc c acc x))

pub total-append :
    {A : Type 0} (f : A → A → A) (acc : A) (xs ys : List A)
    → total f acc (xs ++ ys) ≡ total f (total f acc xs) ys
total-append f acc [] ys = refl
total-append f acc (x ∷ xs) ys = total-append f (f acc x) xs ys

pub take-drop : {A : Type 0} (n : ℕ) (xs : List A) → take n xs ++ drop n xs ≡ xs
take-drop zero xs = refl
take-drop (suc n) [] = refl
take-drop (suc n) (x ∷ xs) = ap (λ l. x ∷ l) (take-drop n xs)

module _ {A : Type 0} (f : A → A → A) (identity : A)
    (assoc : (a b c : A) → f (f a b) c ≡ f a (f b c)) (left : (a : A) → f identity a ≡ a) where
  map-local_scan :
      (c acc : A) (xs : List A) → map (f c) (local_scan f acc xs) ≡ local_scan f (f c acc) xs
  map-local_scan c acc [] = refl
  map-local_scan c acc (x ∷ xs) =
      ap (λ y. y ∷ map (f c) (local_scan f (f acc x) xs)) (sym (assoc c acc x))
      ∙ ap (λ l. f (f c acc) x ∷ l)
          (map-local_scan c (f acc x) xs ∙ ap (λ a. local_scan f a xs) (sym (assoc c acc x)))

  -- The chunks from some place on, with the total before them.
  add_carries-scan :
      (fuel n : ℕ) (c : A) (xs : List A)
      → length xs ≤ fuel
      → add_carries f
          (c ∷ carry_totals f c (map (total f identity) (chunks fuel (suc n) xs)))
          (map (local_scan f identity) (chunks fuel (suc n) xs))
        ≡ local_scan f c xs
  add_carries-scan zero n c [] h = refl
  add_carries-scan zero n c (x ∷ xs) h = absurd (omega (arith, h))
  add_carries-scan (suc fuel) n c [] h = refl
  add_carries-scan (suc fuel) n c (x ∷ xs) h =
      let first = take n xs in
      let rest = drop n xs in
      let after = total f (f c x) first in
      let values = map (local_scan f identity) (chunks fuel (suc n) rest) in
      let totals = map (total f identity) (chunks fuel (suc n) rest) in
      let shorter = add_carries-scan fuel n after rest (omega (arith, h, length-drop n xs)) in
      let later : add_carries f
            (f c (total f x first) ∷ carry_totals f (f c (total f x first)) totals) values
          ≡ local_scan f after rest =
        ap (λ t. add_carries f (t ∷ carry_totals f t totals) values) (carry-total f assoc c x first)
        ∙ shorter in
      let joined : local_scan f (f c x) first ++ local_scan f after rest ≡ local_scan f (f c x) xs =
        sym (local_scan-append f (f c x) first rest) ∙ ap (local_scan f (f c x)) (take-drop n xs) in
      ap
        (λ y.
          f c y
          ∷ (map (f c) (local_scan f y first)
              ++ add_carries f
                  (f c (total f y first) ∷ carry_totals f (f c (total f y first)) totals) values))
        (left x)
      ∙ ap (λ l. f c x ∷ l) (ap₂ (λ a b. a ++ b) (map-local_scan c x first) later ∙ joined)

  pub chunked_scan-local_scan :
      (chunk_size : ℕ) (xs : List A)
      → 0 < chunk_size
      → chunked_scan f identity chunk_size xs ≡ local_scan f identity xs
  unfolding chunked_scan
  chunked_scan-local_scan zero xs h = absurd (omega (arith, h))
  chunked_scan-local_scan (suc n) [] h = refl
  chunked_scan-local_scan (suc n) (x ∷ xs) h =
      let first = x ∷ take n xs in
      let rest = drop n xs in
      let later =
        add_carries-scan (length xs) n (total f identity first) rest
          (omega (arith, length-drop n xs)) in
      rw later (
        sym (local_scan-append f identity first rest)
        ∙ ap (λ l. local_scan f identity (x ∷ l)) (take-drop n xs))

chunk_size-positive : (threads len : ℕ) → len ≤ isize_max → 0 < chunk_size_of threads len
unfolding chunk_size_of
chunk_size-positive threads len h =
    let fewer = div-le_self len (max threads 1) in
    omega (arith, (next_power_of_two_lem (max (len / max threads 1) 256) (omega (arith, fewer))).1)

-- `parallel_scan` from a contiguous source that holds `xs` to a destination of as many elements at the
-- same dtype, which is writeable, contiguous and the only owner of its block, succeeds, where `f` is
-- associative and `identity` a left identity of it: whatever the number of threads, the destination then holds the
-- sequential inclusive scan of `xs`, and no other block changes.
pub parallel_scan-Holds :
    {A : Type 0} (system : Option ℕ) (fresh : ℕ → ℕ) (threads : ℕ) (s : Scalar A) (identity : A)
    (f : A → A → A) (src dst : Buffer) (mem : Memory) (xs : List A)
    → ((a b c : A) → f (f a b) c ≡ f a (f b c))
    → ((a : A) → f identity a ≡ a)
    → size src.layout ≤ isize_max
    → Owned mem s.dtype dst
    → dtype_eq s.dtype src.dtype ≡ true
    → is_c_contiguous src.layout ≡ true
    → size src.layout ≡ size dst.layout
    → Holds s mem src xs
    → (mem' : Memory) × (parallel_scan system fresh threads s identity f src (dst, mem)
        ≡ (ok tt, (set_unique dst, mem')))
      × Holds s mem' (set_unique dst) (local_scan f identity xs)
      × ((i : ℕ) → i ≢ dst.raw → mem'.raws i ≡ mem.raws i)
unfolding parallel_scan
parallel_scan-Holds system fresh threads s identity f src dst mem xs assoc left small owned typed
      whole fits holds =
    let size' = chunk_size_of threads (size src.layout) in
    let same =
      chunked_scan-local_scan f identity assoc left size' xs
        (chunk_size-positive threads (size src.layout) small) in
    run-Holds system fresh _ _ dst mem s (local_scan f identity xs) owned
      (check_typed-passes mem s.dtype src dst owned typed whole fits)
      (rw (load-Holds s mem src xs whole holds) (ap (λ l. ok (map s.to_bytes l)) same))
      (length-local_scan f identity xs ∙ length-Holds s mem src xs whole holds ∙ fits)
