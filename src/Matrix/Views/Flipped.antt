-- ===== src/Matrix/Views/Flipped.antt =====
-- crates/mohu-buffer/src/buffer.rs: what `flip` shows.
use native.Mathlib.Nat.{add-mul, mul-add}
use mohu_fork_nirman.Base.{
  ℕ, Bool, not, ◌==◌, codes, true, false, leb, lt→ltb, ltb, if◌then◌else◌, ◌+◌, ◌-◌, ◌*◌, ◌%◌, ◌≤◌,
  ◌<◌, ◌≡◌, refl, ap, ap₂, sym, subst, ◌∙◌, List, length, get_or, set, arith,
}
use mohu_fork_nirman.Base.Words.{
  usize_mod, is_negative, add_word, sub_word, mul_word, add_word-lt, mul-mod,
}
use mohu_fork_nirman.Errors.{
  MohuResult, MohuError, ok, err, panic, ◌>>◌, internal, text, axis_outside, strides_length,
  zero_itemsize, ok-injective, err_not_ok, panic_not_ok,
}
use mohu_fork_nirman.DType.{DType}
use mohu_fork_nirman.Layout.{Layout, ndim, new_custom, byte_offset_unchecked}
use mohu_fork_nirman.Layout.Sliced.{InBounds-at, InBounds-set}
use mohu_fork_nirman.Strides.Bounds.{InBounds, InBounds-length}
use mohu_fork_nirman.Buffer.{Memory, Buffer}
use mohu_fork_nirman.Buffer.Access.{get}
use mohu_fork_nirman.Buffer.Views.{view_as-ok, get-view_as}
use mohu_fork_nirman.Matrix.Views.{flip, flip_layout}
use mohu_fork_nirman.Strides.{byte_offset}
use mohu_fork_nirman.Strides.Validate.{validate_strides}
use mohu_fork_nirman.Strides.Reach.{byte_offset-reach, reach, reach-set, set-get_or}

turned :
    (i j n stride : ℕ)
    → stride < usize_mod
    → n ≡ i + j
    → (n * stride + i * ((0 + (usize_mod - stride)) % usize_mod)) % usize_mod
      ≡ j * stride % usize_mod
turned i j n stride h e =
    let rest = 0 + (usize_mod - stride) in
    let whole : i * rest + i * stride ≡ i * usize_mod =
      sym (mul-add i rest stride) ∙ ap (λ t. i * t) (omega arith) in
    let parts : n * stride ≡ i * stride + j * stride =
      ap (λ t. t * stride) e ∙ add-mul i j stride in
    let reduced = mul-mod i rest usize_mod in omega (arith, whole, parts, reduced)

byte_offset-turned :
    (axis n off : ℕ) (is ss : List ℕ)
    → off < usize_mod
    → axis < length is
    → axis < length ss
    → get_or ss axis 0 < usize_mod
    → get_or is axis 0 ≤ n
    → byte_offset is
        (set ss axis (sub_word 0 (get_or ss axis 0)))
        (add_word off (mul_word n (get_or ss axis 0)))
      ≡ byte_offset (set is axis (n - get_or is axis 0)) ss off
unfolding mul_word add_word sub_word
byte_offset-turned axis n off is ss w h k word below =
    let i = get_or is axis 0 in
    let stride = get_or ss axis 0 in
    let back = sub_word 0 stride in
    let stepped =
      ap (λ js. reach js (set ss axis back)) (sym (set-get_or axis is))
      ∙ reach-set axis i back is ss h k in
    let picked =
      ap (reach (set is axis (n - i))) (sym (set-get_or axis ss))
      ∙ reach-set axis (n - i) stride is ss h k in
    byte_offset-reach is _ _ (add_word-lt off (mul_word n stride))
    ∙ ap (λ r. (add_word off (mul_word n stride) + r) % usize_mod) stepped
    ∙ omega (arith, turned i (n - i) n stride word (omega (arith, below)))
    ∙ ap (λ r. (off + r) % usize_mod) (sym picked)
    ∙ sym (byte_offset-reach (set is axis (n - i)) ss off w)

-- What an `ok` says of a test that goes before it.
if_ok :
    {A : Type 0} (b : Bool) (e : MohuError) (r : MohuResult A) (a : A)
    → (if b then err e else r) ≡ ok a
    → (b ≡ false) × (r ≡ ok a)
if_ok true e r a h = absurd (err_not_ok h)
if_ok false e r a h = (refl, h)

after_ok : {A : Type 0} (r : MohuResult (Unit {0})) (a b : A) → (r >> ok a) ≡ ok b → a ≡ b
after_ok (ok done) a b h = ok-injective h
after_ok (err e) a b h = absurd (err_not_ok h)
after_ok panic a b h = absurd (panic_not_ok h)

new_custom-made :
    (shape strides : List ℕ) (off item : ℕ) (m : Layout)
    → new_custom shape strides off item ≡ ok m
    → record { shape = shape; strides = strides; offset = off; itemsize = item } ≡ m
unfolding new_custom
new_custom-made shape strides off item m h =
    let l : Layout = record { shape = shape; strides = strides; offset = off; itemsize = item } in
    let valid = validate_strides shape strides item false in
    let checked = if item == 0 then err (internal zero_itemsize) else (valid >> ok l) in
    let long =
      if_ok (not (length shape == length strides))
        (internal (strides_length (length shape) (length strides))) checked m h in
    after_ok valid l m (if_ok (item == 0) (internal zero_itemsize) (valid >> ok l) m long.1).1

-- What `flip` makes of a layout.
flip_layout-made :
    (l m : Layout) (axis : ℕ)
    → flip_layout l axis ≡ ok m
    → (axis < length l.shape)
      × (record {
        shape = l.shape;
        strides = set l.strides axis (sub_word 0 (get_or l.strides axis 0));
        offset = add_word l.offset (
            if ltb 0 (get_or l.shape axis 0)
            then mul_word (get_or l.shape axis 0 - 1) (get_or l.strides axis 0)
            else 0);
        itemsize = l.itemsize;
      }
          ≡ m)
unfolding flip_layout ndim
flip_layout-made l m axis made =
    let dim = get_or l.shape axis 0 in
    let stride = get_or l.strides axis 0 in
    let delta = if ltb 0 dim then mul_word (dim - 1) stride else 0 in
    let made_there =
      new_custom l.shape (set l.strides axis (sub_word 0 stride)) (add_word l.offset delta)
        l.itemsize in
    let negative = internal (text (codes "flip: computed offset is negative")) in
    let (inside, later) =
      if_ok (leb (length l.shape) axis)
        (internal (axis_outside (codes "flip") axis (length l.shape)))
        (if is_negative (add_word l.offset delta) then err negative else made_there) m made in
    let last = if_ok (is_negative (add_word l.offset delta)) negative made_there m later in
    let placed =
      new_custom-made l.shape (set l.strides axis (sub_word 0 stride)) (add_word l.offset delta)
        l.itemsize m last.1 in
    (ground (arith, inside), placed)

-- Where `flip` gives a view of a buffer whose layout has a stride, a word, for each axis, the view reads
-- at an index within it what the buffer reads at the index with the entry `i` of the axis replaced by
-- `dim - 1 - i`.
pub get-flip :
    (mem mem' : Memory) (t : DType) (buf view : Buffer) (axis : ℕ) (idx : List ℕ)
    → buf.layout.offset < usize_mod
    → length buf.layout.strides ≡ length buf.layout.shape
    → get_or buf.layout.strides axis 0 < usize_mod
    → flip mem buf axis ≡ (ok view, mem')
    → InBounds idx view.layout.shape
    → get mem' t view idx
      ≡ get mem t buf (set idx axis (get_or buf.layout.shape axis 0 - 1 - get_or idx axis 0))
unfolding flip byte_offset_unchecked
get-flip mem mem' t buf view axis idx w s word made within =
    let l = buf.layout in
    let dim = get_or l.shape axis 0 in
    let i = get_or idx axis 0 in
    let (m, laid, same, kept) = view_as-ok mem buf view mem' (flip_layout l axis) _ made in
    let (h, placed) = flip_layout-made l m axis laid in
    let inside : InBounds idx l.shape =
      subst (λ (v : Layout). InBounds idx v.shape) (sym placed)
        (subst (λ (b : Buffer). InBounds idx b.layout.shape) same within) in
    let below : i < dim =
      InBounds-at axis dim idx l.shape h
        (subst (λ ds. InBounds idx ds) (sym (set-get_or axis l.shape)) inside) in
    let stride = get_or l.strides axis 0 in
    let moved : (if ltb 0 dim then mul_word (dim - 1) stride else 0) ≡ mul_word (dim - 1) stride =
      rw (lt→ltb 0 dim (omega (arith, below))) refl in
    let source = set idx axis (dim - 1 - i) in
    let offsets : byte_offset_unchecked m idx ≡ byte_offset_unchecked l source =
      ap (λ (v : Layout). byte_offset_unchecked v idx) (sym placed)
      ∙ ap (λ d. byte_offset idx (set l.strides axis (sub_word 0 stride)) (add_word l.offset d))
          moved
      ∙ byte_offset-turned axis (dim - 1) l.offset idx l.strides w
          (omega (arith, h, InBounds-length idx l.shape inside)) (omega (arith, h, s)) word
          (omega (arith, below)) in
    let within' =
      InBounds-set axis dim (dim - 1 - i) idx l.shape
        (subst (λ ds. InBounds idx ds) (sym (set-get_or axis l.shape)) inside)
        (omega (arith, below)) in
    ap₂ (λ a b. get a t b idx) kept same
    ∙ get-view_as mem t buf m _ idx source
        (subst (λ (v : Layout). InBounds idx v.shape) placed inside) within' offsets
