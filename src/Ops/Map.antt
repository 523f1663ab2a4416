-- ===== src/Ops/Map.antt =====
-- crates/mohu-buffer/src/ops.rs: operations that compute each element of the destination from the elements at the
-- same place.
use mohu_fork_nirman.Base.{ℕ, Bool, false, not, Option, List, [], ◌∷◌, map, ◌==◌, if◌then◌else◌}
use mohu_fork_nirman.Errors.{MohuResult, ok, ◌>>=◌, ◌>>◌}
use mohu_fork_nirman.DType.Scalar.{Scalar}
use mohu_fork_nirman.Layout.{size}
use mohu_fork_nirman.Buffer.{Memory, Buffer}
use mohu_fork_nirman.Ops.{load_bytes, load, run}
use mohu_fork_nirman.Ops.Checks.{
  check_contiguous, check_write, check_map, check_zip, check_typed, check_select,
}

unfoldable pub parallel_map :
    {A B : Type 0}
    → Option ℕ
    → (ℕ → ℕ)
    → Scalar A
    → Scalar B
    → (A → B)
    → Buffer
    → Buffer × Memory
    → MohuResult (Unit {0}) × (Buffer × Memory)
unfolding run check_map load
parallel_map system fresh s d f src dst =
    run system fresh (check_map src dst.0)
      (λ st. load s st.1 src (size src.layout) >>= λ xs. ok (map (λ x. d.to_bytes (f x)) xs)) dst

-- `parallel_inplace`, and with an operation and its right operand `add_scalar_inplace` and its like.
unfoldable pub parallel_inplace :
    {A : Type 0}
    → Option ℕ
    → (ℕ → ℕ)
    → Scalar A
    → (A → A)
    → Buffer × Memory
    → MohuResult (Unit {0}) × (Buffer × Memory)
unfolding run check_contiguous check_write load
parallel_inplace system fresh s f buf =
    run system fresh (check_contiguous buf.0 >> check_write buf.0)
      (λ st. load s st.1 st.0 (size st.0.layout) >>= λ xs. ok (map (λ x. s.to_bytes (f x)) xs)) buf

unfoldable pub scalar_inplace :
    {A : Type 0}
    → Option ℕ
    → (ℕ → ℕ)
    → Scalar A
    → (A → A → A)
    → A
    → Buffer × Memory
    → MohuResult (Unit {0}) × (Buffer × Memory)
unfolding parallel_inplace
scalar_inplace system fresh s op scalar = parallel_inplace system fresh s (λ x. op x scalar)

abbrev pub zip_with : {A B C : Type 0} → (A → B → C) → List A → List B → List C
zip_with f [] ys = []
zip_with f (x ∷ xs) [] = []
zip_with f (x ∷ xs) (y ∷ ys) = f x y ∷ zip_with f xs ys

unfoldable pub parallel_zip :
    {A B : Type 0}
    → Option ℕ
    → (ℕ → ℕ)
    → Scalar A
    → Scalar B
    → (A → A → B)
    → Buffer
    → Buffer
    → Buffer × Memory
    → MohuResult (Unit {0}) × (Buffer × Memory)
unfolding run check_zip load
parallel_zip system fresh s d f a b dst =
    run system fresh (check_zip s.dtype a b dst.0)
      (λ st. load s st.1 a (size a.layout) >>= λ xs.
        load s st.1 b (size a.layout) >>= λ ys. ok (zip_with (λ x y. d.to_bytes (f x y)) xs ys))
      dst

-- `if s < lo { lo } else if s > hi { hi } else { s }`; `s > hi` is `hi < s`, for floats too.
unfoldable pub clip_value : {A : Type 0} → (A → A → Bool) → A → A → A → A
clip_value lt lo hi x = if lt x lo then lo else if lt hi x then hi else x

unfoldable pub clip :
    {A : Type 0}
    → Option ℕ
    → (ℕ → ℕ)
    → Scalar A
    → (A → A → Bool)
    → A
    → A
    → Buffer
    → Buffer × Memory
    → MohuResult (Unit {0}) × (Buffer × Memory)
unfolding run check_typed load clip_value
clip system fresh s lt lo hi src dst =
    run system fresh (check_typed s.dtype src dst.0)
      (λ st. load s st.1 src (size src.layout) >>= λ xs.
        ok (map (λ x. s.to_bytes (clip_value lt lo hi x)) xs))
      dst

-- The byte of a mask is not 0.
abbrev pub is_set : List ℕ → Bool
is_set [] = false
is_set (b ∷ bs) = not (b == 0)

abbrev pub choose : {A : Type 0} → List (List ℕ) → List A → List A → List A
choose [] xs ys = []
choose (m ∷ ms) [] ys = []
choose (m ∷ ms) (x ∷ xs) [] = []
choose (m ∷ ms) (x ∷ xs) (y ∷ ys) = (if is_set m then x else y) ∷ choose ms xs ys

unfoldable pub where_select :
    {A : Type 0}
    → Option ℕ
    → (ℕ → ℕ)
    → Scalar A
    → Buffer
    → Buffer
    → Buffer
    → Buffer × Memory
    → MohuResult (Unit {0}) × (Buffer × Memory)
unfolding run check_select load load_bytes
where_select system fresh s mask a b dst =
    let len = size mask.layout in
    run system fresh (check_select s.dtype mask a b dst.0)
      (λ st. load_bytes st.1 mask 1 len >>= λ ms. load s st.1 a len >>= λ xs.
        load s st.1 b len >>= λ ys. ok (map s.to_bytes (choose ms xs ys)))
      dst
