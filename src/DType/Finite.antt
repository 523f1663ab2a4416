-- ===== src/DType/Finite.antt =====
-- Boolean tests of all dtypes, for claims that evaluation decides.
use mohu_fork_nirman.Base.{
  ℕ, zero, suc, ◌≡◌, refl, Bool, true, not, ◌&&◌, ◌||◌, &&-true, some, List, [], ◌∷◌, get_elem?,
  arith,
}
use mohu_fork_nirman.DType.{DType, bool, all_dtypes}
use mohu_fork_nirman.DType.Code.{as_u8}

abbrev pub all : (DType → Bool) → List DType → Bool
all p [] = true
all p (d ∷ ds) = p d && all p ds

all_get :
    (p : DType → Bool) (ds : List DType) (i : ℕ) (d : DType)
    → all p ds ≡ true
    → get_elem? ds i ≡ some d
    → p d ≡ true
all_get p [] i d h e = ground arith
all_get p (x ∷ ds) zero d h e = ground arith
all_get p (x ∷ ds) (suc i) d h e = all_get p ds i d (&&-true (p x) (all p ds) h).1 e

-- `ALL_DTYPES` lists every dtype at its code.
pub all_dtypes-as_u8 : (d : DType) → get_elem? all_dtypes (as_u8 d) ≡ some d
unfolding as_u8
all_dtypes-as_u8 bool = refl
all_dtypes-as_u8 _ = refl

pub for_all : (p : DType → Bool) → all p all_dtypes ≡ true → (d : DType) → p d ≡ true
for_all p h d = all_get p all_dtypes (as_u8 d) d h (all_dtypes-as_u8 d)

abbrev pub all₂ : (DType → DType → Bool) → Bool
all₂ p = all (λ a. all (p a) all_dtypes) all_dtypes

pub for_all₂ : (p : DType → DType → Bool) → all₂ p ≡ true → (a b : DType) → p a b ≡ true
for_all₂ p h a b = for_all (p a) (for_all (λ a'. all (p a') all_dtypes) h a) b

abbrev pub implies : Bool → Bool → Bool
implies a b = not a || b

pub implies-true : (a b : Bool) → implies a b ≡ true → a ≡ true → b ≡ true
implies-true a b h e = ground arith
