-- ===== src/Prelude/Counts.antt =====
-- How often a string occurs in a list. Two lists with the same counts hold the same strings.
use Prim.Native.Nat.{ℕ, suc, ◌+◌, ◌≤◌, ◌<◌}
use Prim.Native.String.{String}
use mathlib.Core.Path.{◌≡◌, refl}
use mathlib.Core.Bool.{Bool, false, ◌||◌}
use mathlib.Core.List.{List, [], ◌∷◌, ◌++◌}
use native.Mathlib.Omega.{arith}
use text.Mathlib.TextEquality.{eq_iff}
use chain_port.Prelude.Tests.{◌===◌, ===_refl, if◌then◌else◌, ltb}
use chain_port.Prelude.Lists.{length, filter}

-- `includes`, and `Set.has` on the list of a set's elements.
abbrev pub elem : String → List String → Bool
elem k [] = false
elem k (x ∷ xs) = (x === k) || elem k xs

abbrev pub count : String → List String → ℕ
count k [] = 0
count k (x ∷ xs) = (if x === k then 1 else 0) + count k xs

abbrev pub IsNodup : List String → Type 0
IsNodup xs = (k : String) → count k xs ≤ 1

pub count-append : (k : String) (xs ys : List String) → count k (xs ++ ys) ≡ count k xs + count k ys
count-append k [] ys = omega arith
count-append k (x ∷ xs) ys = omega (arith, count-append k xs ys)

pub elem-count : (k : String) (xs : List String) → elem k xs ≡ ltb 0 (count k xs)
elem-count k [] = refl
elem-count k (x ∷ xs) = ground (arith, elem-count k xs)

erase : String → List String → List String
erase k [] = []
erase k (x ∷ xs) = let rest = x ∷ erase k xs in if x === k then xs else rest

count-erase :
    (k j : String) (xs : List String)
    → 0 < count j xs
    → (if j === k then 1 else 0) + count k (erase j xs) ≡ count k xs
unfolding erase
count-erase k j [] h = absurd (omega arith)
count-erase k j (x ∷ xs) h = ground (arith, eq_iff x j, eq_iff x k, eq_iff j k, count-erase k j xs)

length-erase :
    (j : String) (xs : List String) → 0 < count j xs → suc (length (erase j xs)) ≡ length xs
unfolding erase
length-erase j [] h = absurd (omega arith)
length-erase j (x ∷ xs) h = ground (arith, length-erase j xs)

-- A list with no more of anything is no longer.
pub length-le-of-count :
    (xs ys : List String) → ((k : String) → count k xs ≤ count k ys) → length xs ≤ length ys
length-le-of-count [] ys h = omega arith
length-le-of-count (x ∷ xs) ys h =
    omega (arith, length-erase x ys present, length-le-of-count xs (erase x ys) rest)
  where
    present : 0 < count x ys
    present = ground (arith, h x, ===_refl x)

    rest : (k : String) → count k xs ≤ count k (erase x ys)
    rest k = omega (arith, h k, count-erase k x ys present)

-- Of the same length, it has as many of everything.
pub count-eq-of-length :
    (xs ys : List String)
    → ((k : String) → count k xs ≤ count k ys)
    → length xs ≡ length ys
    → (k : String) → count k xs ≡ count k ys
count-eq-of-length [] [] h e k = refl
count-eq-of-length [] (y ∷ ys) h e k = absurd (omega arith)
count-eq-of-length (x ∷ xs) ys h e k = omega (
  arith,
  count-erase k x ys present,
  count-eq-of-length xs (erase x ys) rest (omega (arith, length-erase x ys present)) k,
)
  where
    present : 0 < count x ys
    present = ground (arith, h x, ===_refl x)

    rest : (j : String) → count j xs ≤ count j (erase x ys)
    rest j = omega (arith, h j, count-erase j x ys present)

pub count-filter :
    (k : String) (p : String → Bool) (xs : List String)
    → count k (filter p xs) ≡ (if p k then count k xs else 0)
count-filter k p [] = ground arith
count-filter k p (x ∷ xs) = ground (arith, count-filter k p xs, eq_iff x k)
