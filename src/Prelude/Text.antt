-- ===== src/Prelude/Text.antt =====
-- Go strings as lists of bytes, and what the program uses of the package `strings`.
use Prim.Native.Char.{code}
use Prim.Native.Nat.{ℕ}
use Prim.Native.String.{String}
use mathlib.Core.Bool.{Bool, true, false, ◌&&◌}
use mathlib.Core.List.{List, [], ◌∷◌}
use mathlib.Core.Logic.{◌↔◌, ◌≢◌}
use mathlib.Core.Path.{◌≡◌, refl}
use native.Mathlib.Omega.{arith}
use dns_server_mandiri.Prelude.Tests.{◌==◌ as nat_eq}

abbrev pub Text : Type 0
Text = List ℕ

abbrev pub text : String → Text
text String.[] = []
text (String.◌∷◌ c s) = code c ∷ text s

infix 50 ◌==◌
unfoldable pub ◌==◌ : Text → Text → Bool
[] == [] = true
[] == (y ∷ ys) = false
(x ∷ xs) == [] = false
(x ∷ xs) == (y ∷ ys) = nat_eq x y && xs == ys

pub eq_iff : (s t : Text) → ((s == t) ≡ true) ↔ (s ≡ t)
unfolding ◌==◌
eq_iff [] [] = ground arith
eq_iff [] (y ∷ ys) = ground arith
eq_iff (x ∷ xs) [] = ground arith
eq_iff (x ∷ xs) (y ∷ ys) = ground (arith, eq_iff xs ys)

pub eq_refl : (s : Text) → (s == s) ≡ true
eq_refl s = (eq_iff s s).1 refl

unfoldable pub is_empty : Text → Bool
is_empty [] = true
is_empty (x ∷ xs) = false

pub is_empty_of_ne : (s : Text) → s ≢ [] → is_empty s ≡ false
unfolding is_empty
is_empty_of_ne [] h = absurd (h refl)
is_empty_of_ne (x ∷ xs) h = refl
