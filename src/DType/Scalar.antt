-- ===== src/DType/Scalar.antt =====
-- crates/mohu-dtype/src/scalar.rs: the interface `Scalar`, at which the buffer operations are generic. A value in
-- memory is a list of bytes, and what the bytes of a type mean is the instance's.
use mohu_fork_nirman.Base.{◌≡◌, ℕ, List, length}
use mohu_fork_nirman.DType.{DType, itemsize}

pub record Scalar (A : Type 0) : Type 0 where
  pub dtype : DType
  pub one : A
  pub to_bytes : A → List ℕ
  pub from_bytes : List ℕ → A
  pub length-to_bytes : (a : A) → length (to_bytes a) ≡ itemsize dtype
  pub from_bytes-to_bytes : (a : A) → from_bytes (to_bytes a) ≡ a
