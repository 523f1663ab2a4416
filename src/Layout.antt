-- ===== src/Layout.antt =====
-- crates/mohu-buffer/src/layout.rs: `Layout`, its constructors and the views that share its memory.
pub mod Slice
pub mod Axes
pub mod Indexed
pub mod Reshaped
pub mod Resolve
pub mod Sliced
pub mod Permute
pub mod Permuted
pub mod Transposed
pub mod Extent
pub mod Apart
mod Examples
use mohu_fork_nirman.Base.{
  ℕ, zero, suc, ◌+◌, ◌*◌, Bool, true, false, not, ◌&&◌, ◌||◌, List, [], ◌∷◌, leb, ltb, ◌==◌,
  if◌then◌else◌, length, get_or, text_eq,
}
use mohu_fork_nirman.Base.Words.{mul_word}
use mohu_fork_nirman.Errors.{
  MohuResult, ok, err, ◌>>=◌, ◌>>◌, internal, strides_length, zero_itemsize, axis_out_of_range,
  squeeze_size, non_contiguous, reshape_incompatible, too_many_indices, index_out_of_bounds,
}
use mohu_fork_nirman.Strides.{c_strides, f_strides, broadcast_strides}
use mohu_fork_nirman.Strides as strides_module
use mohu_fork_nirman.Strides.Iter.{wrapping_product}
use mohu_fork_nirman.Strides.Validate.{validate_strides}

pub record Layout : Type 0 where
  pub shape : List ℕ
  pub strides : List ℕ
  pub offset : ℕ
  pub itemsize : ℕ

unfoldable pub new_custom : List ℕ → List ℕ → ℕ → ℕ → MohuResult Layout
new_custom shape strides offset itemsize =
    if not (length shape == length strides)
    then err (internal (strides_length (length shape) (length strides)))
    else if itemsize == 0
    then err (internal zero_itemsize)
    else (validate_strides shape strides itemsize false
        >> ok (record { shape = shape; strides = strides; offset = offset; itemsize = itemsize }))

unfoldable pub new_c : List ℕ → ℕ → MohuResult Layout
unfolding new_custom
new_c shape itemsize = new_custom shape (c_strides shape itemsize) 0 itemsize

unfoldable pub new_f : List ℕ → ℕ → MohuResult Layout
unfolding new_custom
new_f shape itemsize = new_custom shape (f_strides shape itemsize) 0 itemsize

unfoldable pub scalar_layout : ℕ → Layout
scalar_layout itemsize = record { shape = []; strides = []; offset = 0; itemsize = itemsize }

unfoldable pub ndim : Layout → ℕ
ndim l = length l.shape

-- `size`, a product that wraps.
unfoldable pub size : Layout → ℕ
size l = wrapping_product 1 l.shape

unfoldable pub nbytes : Layout → ℕ
unfolding size
nbytes l = mul_word (size l) l.itemsize

-- `shape.contains(&0)`
unfoldable pub contains_zero : List ℕ → Bool
contains_zero [] = false
contains_zero (d ∷ ds) = d == 0 || contains_zero ds

unfoldable pub is_empty : Layout → Bool
unfolding contains_zero
is_empty l = contains_zero l.shape

-- Lists of numbers are compared by `text_eq`, as texts are.
unfoldable pub is_c_contiguous : Layout → Bool
is_c_contiguous l =
    if is_empty l || ndim l == 0 then true else text_eq l.strides (c_strides l.shape l.itemsize)

unfoldable pub is_f_contiguous : Layout → Bool
is_f_contiguous l =
    if is_empty l || ndim l == 0 then true else text_eq l.strides (f_strides l.shape l.itemsize)

unfoldable pub is_contiguous : Layout → Bool
is_contiguous l = is_c_contiguous l || is_f_contiguous l

-- The loop of `expand_dims`, which pushes the new entry before entry number `axis`.
unfoldable pub insert_at : ℕ → ℕ → List ℕ → List ℕ
insert_at zero new xs = new ∷ xs
insert_at (suc axis) new [] = []
insert_at (suc axis) new (x ∷ xs) = x ∷ insert_at axis new xs

unfoldable pub expand_dims : Layout → ℕ → MohuResult Layout
unfolding ndim insert_at
expand_dims l axis =
    if ltb (ndim l) axis
    then err (axis_out_of_range axis (ndim l))
    else ok (record {
      shape = insert_at axis 1 l.shape;
      strides = insert_at axis l.itemsize l.strides;
      offset = l.offset;
      itemsize = l.itemsize;
    })

-- The entries `s` whose dimension is not 1. `squeeze` keeps those of the shape and the strides.
unfoldable pub keep_long : List ℕ → List ℕ → List ℕ
keep_long (d ∷ ds) (s ∷ ss) = let rest = keep_long ds ss in if not (d == 1) then s ∷ rest else rest
keep_long [] ss = []
keep_long ds [] = []

unfoldable pub squeeze : Layout → Layout
unfolding keep_long
squeeze l = record {
  shape = keep_long l.shape l.shape;
  strides = keep_long l.shape l.strides;
  offset = l.offset;
  itemsize = l.itemsize;
}

-- The entries but number `axis`.
unfoldable pub remove_at : ℕ → List ℕ → List ℕ
remove_at axis [] = []
remove_at zero (x ∷ xs) = xs
remove_at (suc axis) (x ∷ xs) = x ∷ remove_at axis xs

unfoldable pub squeeze_axis : Layout → ℕ → MohuResult Layout
unfolding ndim remove_at
squeeze_axis l axis =
    if leb (ndim l) axis
    then err (axis_out_of_range axis (ndim l))
    else if not (get_or l.shape axis 0 == 1)
    then err (internal (squeeze_size axis (get_or l.shape axis 0)))
    else ok (record {
      shape = remove_at axis l.shape;
      strides = remove_at axis l.strides;
      offset = l.offset;
      itemsize = l.itemsize;
    })

unfoldable pub reshape : Layout → List ℕ → MohuResult Layout
unfolding is_c_contiguous size
reshape l new_shape =
    let src_len = size l in
    let dst_len = wrapping_product 1 new_shape in
    if not (is_c_contiguous l)
    then err non_contiguous
    else if not (src_len == dst_len)
    then err (reshape_incompatible src_len new_shape dst_len)
    else ok (record {
      shape = new_shape;
      strides = c_strides new_shape l.itemsize;
      offset = l.offset;
      itemsize = l.itemsize;
    })

unfoldable pub broadcast_to : Layout → List ℕ → MohuResult Layout
broadcast_to l new_shape = broadcast_strides l.shape l.strides new_shape >>= λ strides.
    ok (record { shape = new_shape; strides = strides; offset = l.offset; itemsize = l.itemsize })

-- The loop of `byte_offset` over the axes from number `axis` on.
unfoldable pub check_indices : ℕ → List ℕ → List ℕ → MohuResult (Unit {0})
check_indices axis (i ∷ is) (d ∷ ds) =
    let rest = check_indices (axis + 1) is ds in
    if leb d i then err (index_out_of_bounds i axis d) else rest
check_indices axis [] ds = ok tt
check_indices axis is [] = ok tt

unfoldable pub byte_offset_unchecked : Layout → List ℕ → ℕ
byte_offset_unchecked l indices = strides_module.byte_offset indices l.strides l.offset

unfoldable pub byte_offset : Layout → List ℕ → MohuResult ℕ
unfolding ndim check_indices
byte_offset l indices =
    if not (length indices == ndim l)
    then err (too_many_indices (length indices) (ndim l))
    else (check_indices 0 indices l.shape >> ok (byte_offset_unchecked l indices))

unfoldable pub to_c_contiguous : Layout → Layout
to_c_contiguous l = record {
  shape = l.shape;
  strides = c_strides l.shape l.itemsize;
  offset = 0;
  itemsize = l.itemsize;
}
