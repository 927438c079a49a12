-- ===== src/Base/Lists.antt =====
-- Lists measured by native numbers, and membership of texts.
use Prim.Native.Nat.{ℕ, zero, suc, ◌+◌, min}
use Prim.Native.String.{String}
use mathlib.Core.Path.{◌≡◌, refl}
use mathlib.Core.Bool.{Bool, true, false, ◌||◌}
use mathlib.Core.Logic.{◌⊎◌}
use mathlib.Core.List.{List, [], ◌∷◌, ◌++◌, map}
use ip_proxy_pool.Base.Tests.{if◌then◌else◌}
use native.Mathlib.Omega.{arith}
use text.Mathlib.Text.{◌==◌ as str_eq}
use text.Mathlib.TextPositions.{eq_refl}

module _ {ℓ} {A : Type ℓ} where
  abbrev pub length : List A → ℕ
  length [] = 0
  length (x ∷ xs) = suc (length xs)

  abbrev pub take : ℕ → List A → List A
  take zero xs = []
  take (suc n) [] = []
  take (suc n) (x ∷ xs) = x ∷ take n xs

  abbrev pub drop : ℕ → List A → List A
  drop zero xs = xs
  drop (suc n) [] = []
  drop (suc n) (x ∷ xs) = drop n xs

  pub length-append : (xs ys : List A) → length (xs ++ ys) ≡ length xs + length ys
  length-append [] ys = omega arith
  length-append (x ∷ xs) ys = omega (arith, length-append xs ys)

-- A predicate of every entry, by recursion.
abbrev pub All {ℓ κ} : {A : Type ℓ} → (A → Type κ) → List A → Type κ
All P [] = Unit
All P (x ∷ xs) = P x × All P xs

-- `k in xs`, for a list of texts.
abbrev pub IsIn : {A : Type 0} → A → List A → Type 0
IsIn a [] = ⊥
IsIn a (x ∷ xs) = (a ≡ x) ⊎ IsIn a xs

-- How often a text stands in a list.
abbrev pub count : String → List String → ℕ
count k [] = 0
count k (x ∷ xs) = if str_eq x k then suc (count k xs) else count k xs

abbrev pub elem : String → List String → Bool
elem k [] = false
elem k (x ∷ xs) = str_eq x k || elem k xs

pub elem-append : (k : String) (xs ys : List String) → elem k (xs ++ ys) ≡ (elem k xs || elem k ys)
elem-append k [] ys = refl
elem-append k (x ∷ xs) ys = ground (arith, elem-append k xs ys)

-- To prove something of every entry of a mapped list, prove it at each text in the list.
pub All-map {ℓ κ} :
    {A : Type ℓ} (P : A → Type κ) (f : String → A) (xs : List String)
    → ((k : String) → elem k xs ≡ true → P (f k))
    → All P (map f xs)
All-map P f [] h = tt
All-map P f (x ∷ xs) h =
    (h x (ground (arith, eq_refl x)), All-map P f xs (λ k e. h k (ground (arith, e))))

pub length-map {ℓ} :
    {A : Type ℓ} (f : String → A) (xs : List String) → length (map f xs) ≡ length xs
length-map f [] = refl
length-map f (x ∷ xs) = omega (arith, length-map f xs)

-- No text comes twice.
abbrev pub IsDistinct : List String → Type 0
IsDistinct [] = Unit
IsDistinct (x ∷ xs) = (elem x xs ≡ false) × IsDistinct xs

pub All-append {ℓ κ} :
    {A : Type ℓ} (P : A → Type κ) (xs ys : List A) → All P xs → All P ys → All P (xs ++ ys)
All-append P [] ys h k = k
All-append P (x ∷ xs) ys (here_, rest) k = (here_, All-append P xs ys rest k)

pub All-take {ℓ κ} :
    {A : Type ℓ} (P : A → Type κ) (n : ℕ) (xs : List A) → All P xs → All P (take n xs)
All-take P zero xs h = tt
All-take P (suc n) [] h = tt
All-take P (suc n) (x ∷ xs) (here_, rest) = (here_, All-take P n xs rest)

pub length-take {ℓ} : {A : Type ℓ} (n : ℕ) (xs : List A) → length (take n xs) ≡ min n (length xs)
length-take zero xs = omega arith
length-take (suc n) [] = omega arith
length-take (suc n) (x ∷ xs) = omega (arith, length-take n xs)
