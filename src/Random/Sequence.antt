-- ===== src/Random/Sequence.antt =====
-- crates/mohu-random/src/generator.rs: `fill_bytes`, on slices one after another.
use mohu_fork_nirman.Base.{
  false, ◌==◌, length, take, length-append, subst, ◌<◌, ◌≤◌, ℕ, zero, suc, ◌+◌, ◌*◌, ◌/◌, ◌%◌, ◌≡◌,
  refl, ap, ap₂, sym, ◌∙◌, Option, none, some, List, [], ◌∷◌, ◌++◌, arith,
}
use mohu_fork_nirman.Random.{
  prefixed, chunk_then, fill_chunks, fill_rest, append_fill, fill_bytes, to_le_bytes,
}

append_assoc : (a b c : List ℕ) → (a ++ b) ++ c ≡ a ++ (b ++ c)
append_assoc [] b c = refl
append_assoc (x ∷ a) b c = ap (λ l. x ∷ l) (append_assoc a b c)

append_nil : (a : List ℕ) → a ++ [] ≡ a
append_nil [] = refl
append_nil (x ∷ a) = ap (λ l. x ∷ l) (append_nil a)

prefixed_nil : {G : Type 0} → (x : Option (List ℕ × G)) → prefixed [] x ≡ x
prefixed_nil none = refl
prefixed_nil (some (b, g)) = refl

prefixed_append :
    {G : Type 0}
    → (b c : List ℕ) (x : Option (List ℕ × G)) → prefixed (b ++ c) x ≡ prefixed b (prefixed c x)
prefixed_append b c none = refl
prefixed_append b c (some (d, g)) = ap (λ l. some (l, g)) (append_assoc b c d)

append_fill-prefixed :
    {G : Type 0}
    → (f : G → Option (List ℕ × G)) (b : List ℕ) (x : Option (List ℕ × G))
    → append_fill f (prefixed b x) ≡ prefixed b (append_fill f x)
append_fill-prefixed f b none = refl
append_fill-prefixed f b (some (c, g)) = prefixed_append b c (f g)

append_fill_assoc :
    {G : Type 0}
    → (f h : G → Option (List ℕ × G)) (x : Option (List ℕ × G))
    → append_fill f (append_fill h x) ≡ append_fill (λ g. append_fill f (h g)) x
append_fill_assoc f h none = refl
append_fill_assoc f h (some (b, g)) = append_fill-prefixed f b (h g)

append_fill_nothing :
    {G : Type 0} → (x : Option (List ℕ × G)) → append_fill (λ g. some ([], g)) x ≡ x
append_fill_nothing none = refl
append_fill_nothing (some (b, g)) = ap (λ l. some (l, g)) (append_nil b)

chunk_then-append :
    {G : Type 0}
    → (f rest both : G → Option (List ℕ × G)) → ((g : G) → append_fill f (rest g) ≡ both g)
    → (x : Option (ℕ × G)) → append_fill f (chunk_then rest x) ≡ chunk_then both x
chunk_then-append f rest both h none = refl
chunk_then-append f rest both h (some (v, g)) =
    append_fill-prefixed f (to_le_bytes 8 v) (rest g) ∙ ap (prefixed (to_le_bytes 8 v)) (h g)

length-to_le_bytes : (n v : ℕ) → length (to_le_bytes n v) ≡ n
length-to_le_bytes zero v = refl
length-to_le_bytes (suc n) v = let rest = length-to_le_bytes n (v / 256) in omega (arith, rest)

length-take-to_le_bytes : (m n v : ℕ) → m ≤ n → length (take m (to_le_bytes n v)) ≡ m
length-take-to_le_bytes zero n v h = refl
length-take-to_le_bytes (suc m) zero v h = absurd (omega (arith, h))
length-take-to_le_bytes (suc m) (suc n) v h =
    let rest = length-take-to_le_bytes m n (v / 256) (omega (arith, h)) in omega (arith, rest)

-- The outcome holds `len` bytes.
abbrev pub Filled : {G : Type 0} → ℕ → Option (List ℕ × G) → Type 0
Filled {G} len r = (bytes : List ℕ) × (g : G) × (r ≡ some (bytes, g)) × (length bytes ≡ len)

Filled-append_fill :
    {G : Type 0}
    → (n m : ℕ) (f : G → Option (List ℕ × G)) (x : Option (List ℕ × G)) → Filled n x
    → ((g : G) → Filled m (f g))
    → Filled (n + m) (append_fill f x)
Filled-append_fill n m f x (bytes, g, e, l) h =
    let (bytes', g', e', l') = h g in
    let total = length-append bytes bytes' in
    (bytes ++ bytes', g', rw (e, e') refl, omega (arith, l, l', total))

module _ {G : Type 0} (next : G → Option (ℕ × G)) where
  fill_chunks-add :
      (n m : ℕ) (g : G)
      → append_fill (fill_chunks next m) (fill_chunks next n g) ≡ fill_chunks next (n + m) g
  unfolding fill_chunks
  fill_chunks-add zero m g =
      prefixed_nil (fill_chunks next m g) ∙ ap (λ k. fill_chunks next k g) (omega arith)
  fill_chunks-add (suc n) m g =
      chunk_then-append (fill_chunks next m) (fill_chunks next n) (fill_chunks next (n + m))
        (fill_chunks-add n m) (next g)
      ∙ ap (λ k. fill_chunks next k g) (let e : suc (n + m) ≡ suc n + m = omega arith in e)

  fill_bytes-chunks : (n : ℕ) (g : G) → fill_bytes next (8 * n) g ≡ fill_chunks next n g
  unfolding fill_bytes fill_rest
  fill_bytes-chunks n g =
      let none_left : 8 * n % 8 ≡ 0 = omega arith in
      let whole : 8 * n / 8 ≡ n = omega arith in
      ap₂ (λ r k. append_fill (fill_rest next r) (fill_chunks next k g)) none_left whole
      ∙ append_fill_nothing (fill_chunks next n g)

  -- Filling a slice of bytes is filling its first part, where this is a multiple of eight bytes long, and then
  -- the rest from the generator as that leaves it: the bytes and the generator at the end are the same. A draw that
  -- panics makes both panic. It holds of any generator whose `fill_bytes` is written with `next_u64` as here.
  pub fill_bytes_split :
      (n m : ℕ) (g : G)
      → fill_bytes next (8 * n + m) g ≡ append_fill (fill_bytes next m) (fill_bytes next (8 * n) g)
  unfolding fill_bytes
  fill_bytes_split n m g =
      let rest : (8 * n + m) % 8 ≡ m % 8 = omega arith in
      let whole : (8 * n + m) / 8 ≡ n + m / 8 = omega arith in
      ap₂ (λ r k. append_fill (fill_rest next r) (fill_chunks next k g)) rest whole
      ∙ ap (append_fill (fill_rest next (m % 8))) (sym (fill_chunks-add n (m / 8) g))
      ∙ append_fill_assoc (fill_rest next (m % 8)) (fill_chunks next (m / 8)) (fill_chunks next n g)
      ∙ ap (append_fill (λ g'. append_fill (fill_rest next (m % 8)) (fill_chunks next (m / 8) g')))
          (sym (fill_bytes-chunks n g))

  module _ (draws : (g : G) → (v : ℕ) × (g' : G) × (next g ≡ some (v, g'))) where
    fill_chunks-Filled : (n : ℕ) (g : G) → Filled (8 * n) (fill_chunks next n g)
    unfolding fill_chunks
    fill_chunks-Filled zero g = ([], g, refl, refl)
    fill_chunks-Filled (suc n) g =
        let (v, g', e) = draws g in
        let (bytes, g'', e', l) = fill_chunks-Filled n g' in
        (to_le_bytes 8 v ++ bytes, g'', rw (e, e') refl, omega (arith, l))

    fill_rest-Filled : (r : ℕ) (g : G) → r < 8 → Filled r (fill_rest next r g)
    unfolding fill_rest
    fill_rest-Filled zero g h = ([], g, refl, refl)
    fill_rest-Filled (suc r) g h =
        let more : (suc r == 0) ≡ false = ground arith in
        let (v, g', e) = draws g in
        (
          take (suc r) (to_le_bytes 8 v),
          g',
          rw (more, e) refl,
          length-take-to_le_bytes (suc r) 8 v (omega (arith, h)),
        )

    -- Where every draw gives a number, `fill_bytes` fills a slice of any length: it gives exactly that many bytes.
    pub fill_bytes-Filled : (len : ℕ) (g : G) → Filled len (fill_bytes next len g)
    unfolding fill_bytes
    fill_bytes-Filled len g =
        let whole : 8 * (len / 8) + len % 8 ≡ len = omega arith in
        subst (λ k. Filled k (fill_bytes next len g)) whole
          (Filled-append_fill (8 * (len / 8)) (len % 8) (fill_rest next (len % 8))
            (fill_chunks next (len / 8) g) (fill_chunks-Filled (len / 8) g)
            (λ g'. fill_rest-Filled (len % 8) g' (omega arith)))
