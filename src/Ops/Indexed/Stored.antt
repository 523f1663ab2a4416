-- ===== src/Ops/Indexed/Stored.antt =====
-- crates/mohu-buffer/src/ops.rs: what `gather` and `scatter` leave in the destination.
use native.Mathlib.Nat.{mul-le-mul_right}
use mohu_fork_nirman.Base.{
  ℕ, zero, suc, ◌+◌, ◌-◌, ◌*◌, ◌≤◌, ◌<◌, ◌≡◌, ◌≢◌, refl, ap, ◌∙◌, some, List, [], ◌∷◌, map, min,
  get_or, get_elem?, length, arith, lt→ltb,
}
use mohu_fork_nirman.Errors.{ok}
use mohu_fork_nirman.Buffer.{Memory}
use mohu_fork_nirman.Buffer.Create.{elements_at}
use mohu_fork_nirman.Buffer.Roundtrip.{OfSize}
use mohu_fork_nirman.Ops.Indexed.{position, gather_loop, scatter_loop}
use mohu_fork_nirman.Ops.Indexed.Places.{put_all, elements_at-overwrite}
use mohu_fork_nirman.Ops.Contents.{All}
use mohu_fork_nirman.Ops.Stored.{write-stored}

get_elem?-inside :
    (values : List (List ℕ)) (i : ℕ)
    → i < length values
    → get_elem? values i ≡ some (get_or values i [])
get_elem?-inside [] i h = absurd (omega (arith, h))
get_elem?-inside (v ∷ values) zero h = refl
get_elem?-inside (v ∷ values) (suc i) h = get_elem?-inside values i (omega (arith, h))

-- Indices in range pick the values at their positions.
pub gather_loop-inside :
    (idxs : List ℕ) (values : List (List ℕ)) (src_len : ℕ)
    → length values ≡ src_len
    → All (λ j. j < src_len) (map (position src_len) idxs)
    → gather_loop values src_len idxs
      ≡ ok (map (λ j. get_or values j []) (map (position src_len) idxs))
unfolding gather_loop
gather_loop-inside [] values src_len long h = refl
gather_loop-inside (idx ∷ idxs) values src_len long (inside, h) =
    let i = position src_len idx in
    let clamped : min i (src_len - 1) ≡ i = omega (arith, inside) in
    rw
      (
        clamped,
        get_elem?-inside values i (omega (arith, inside, long)),
        gather_loop-inside idxs values src_len long h,
      )
      refl

-- The writes of `scatter` on a block with room put the values at their positions.
pub scatter_loop-put_all :
    (idxs : List ℕ) (values : List (List ℕ)) (n item k first : ℕ) (mem : Memory)
    → OfSize item values
    → length idxs ≡ length values
    → first + n * item ≤ (mem.raws k).nbytes
    → All (λ j. j < n) (map (position n) idxs)
    → (mem' : Memory) × (scatter_loop idxs values n item k first mem ≡ (ok tt, mem'))
      × (elements_at (mem'.raws k).bytes first item n
          ≡ put_all (map (position n) idxs) values (elements_at (mem.raws k).bytes first item n))
      × ((mem'.raws k).nbytes ≡ (mem.raws k).nbytes)
      × ((i : ℕ) → i ≢ k → mem'.raws i ≡ mem.raws i)
unfolding scatter_loop
scatter_loop-put_all [] [] n item k first mem sized long room inside =
    (mem, refl, refl, refl, λ i h. refl)
scatter_loop-put_all [] (v ∷ values) n item k first mem sized long room inside =
    absurd (omega (arith, long))
scatter_loop-put_all (idx ∷ idxs) [] n item k first mem sized long room inside =
    absurd (omega (arith, long))
scatter_loop-put_all (idx ∷ idxs) (v ∷ values) n item k first mem (one, sized) long room
      (below, inside) =
    let j = position n idx in
    let above : j * item + item ≤ n * item =
      grind (arith, mul-le-mul_right {m = suc j} {n = n} item (omega (arith, below))) in
    let (m, written, held, same, others) =
      write-stored mem k (first + j * item) v (omega (arith, one, above, room)) in
    let (mem', done, put, wide, kept) =
      scatter_loop-put_all idxs values n item k first m sized (omega (arith, long))
        (omega (arith, room, same)) inside in
    (
      mem',
      rw (lt→ltb j n below, written) done,
      put
          ∙ ap (put_all (map (position n) idxs) values) (
              ap (λ b. elements_at b first item n) held
              ∙ elements_at-overwrite n j (mem.raws k).bytes first item v one),
      wide ∙ same,
      λ i h. kept i h ∙ others i h,
    )

get_or-OfSize :
    (n : ℕ) (values : List (List ℕ)) (j : ℕ)
    → OfSize n values
    → j < length values
    → length (get_or values j []) ≡ n
get_or-OfSize n [] j sized h = absurd (omega (arith, h))
get_or-OfSize n (v ∷ values) zero (one, sized) h = one
get_or-OfSize n (v ∷ values) (suc j) (one, sized) h =
    get_or-OfSize n values j sized (omega (arith, h))

pub picked-OfSize :
    (js : List ℕ) (n : ℕ) (values : List (List ℕ))
    → OfSize n values
    → All (λ j. j < length values) js
    → OfSize n (map (λ j. get_or values j []) js)
picked-OfSize [] n values sized inside = tt
picked-OfSize (j ∷ js) n values sized (below, inside) =
    (get_or-OfSize n values j sized below, picked-OfSize js n values sized inside)
