-- ===== src/Base/Names.antt =====
-- Lists of names without repetition, and the removal of one.
use mathlib.Core.Path.{◌≡◌, refl}
use mathlib.Core.Logic.{◌≢◌}
use mathlib.Core.Bool.{false}
use mathlib.Core.List.{List, [], ◌∷◌}
use Prim.Native.String.{String}
use native.Mathlib.Omega.{arith}
use text.Mathlib.Text.{◌==◌}
use text.Mathlib.TextEquality.{eq_iff}
use elastic_fruit_runner.Base.Tests.{if◌then◌else◌}
use elastic_fruit_runner.Base.Maps.{contains}

abbrev pub AllDifferent : List String → Type 0
AllDifferent [] = Unit {0}
AllDifferent (x ∷ xs) = (contains x xs ≡ false) × AllDifferent xs

-- Takes the first occurrence away.
unfoldable pub erase : String → List String → List String
erase k [] = []
erase k (x ∷ xs) = let rest = erase k xs in if x == k then xs else x ∷ rest

pub contains-erase :
    (k j : String) (xs : List String)
    → AllDifferent xs
    → contains j (erase k xs) ≡ (if k == j then false else contains j xs)
unfolding erase contains
contains-erase k j [] d = ground arith
contains-erase k j (x ∷ xs) d =
    ground (arith, contains-erase k j xs d.1, eq_iff x k, eq_iff k j, eq_iff x j)

pub erase-AllDifferent :
    (k : String) (xs : List String) → AllDifferent xs → AllDifferent (erase k xs)
unfolding erase
erase-AllDifferent k [] d = tt
erase-AllDifferent k (x ∷ xs) d =
    ground (arith, erase-AllDifferent k xs d.1, contains-erase k x xs d.1)

pub contains-erase_ne :
    (x k : String) (a : List String) → x ≢ k → contains k (erase x a) ≡ contains k a
unfolding erase contains
contains-erase_ne x k [] n = refl
contains-erase_ne x k (y ∷ a) n = ground (arith, eq_iff y x, eq_iff y k, contains-erase_ne x k a n)
