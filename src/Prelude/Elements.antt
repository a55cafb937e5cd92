-- ===== src/Prelude/Elements.antt =====
-- Lists of numbers by their elements.
use Prim.Native.Nat.{ℕ, zero, suc, ◌+◌, ◌-◌, ◌<◌}
use mathlib.Core.Path.{◌≡◌, refl, sym, ap, ap₂, ◌∙◌}
use mathlib.Core.List.{List, [], ◌∷◌, ◌++◌}
use native.Mathlib.Omega.{arith}
use nes_deck.Prelude.Tests.{ltb, if◌then◌else◌}
use nes_deck.Prelude.Lists.{length, get_or, take, drop}

pub ext :
    (xs ys : List ℕ)
    → length xs ≡ length ys
    → ((i : ℕ) → i < length xs → get_or xs i 0 ≡ get_or ys i 0)
    → xs ≡ ys
ext [] [] e h = refl
ext [] (y ∷ ys) e h = absurd (omega (arith, e))
ext (x ∷ xs) [] e h = absurd (omega (arith, e))
ext (x ∷ xs) (y ∷ ys) e h =
    ap₂ ◌∷◌ (h 0 (omega arith)) (ext xs ys (omega (arith, e)) (λ i l. h (suc i) (omega arith)))

pub at_index : (xs : List ℕ) (i j : ℕ) → i ≡ j → get_or xs i 0 ≡ get_or xs j 0
at_index xs i j e = ap (λ k. get_or xs k 0) e

pub get_or-take :
    (n : ℕ) (xs : List ℕ) (i : ℕ) → get_or (take n xs) i 0 ≡ (if ltb i n then get_or xs i 0 else 0)
get_or-take zero xs i = ground arith
get_or-take (suc n) [] i = ground arith
get_or-take (suc n) (x ∷ xs) zero = ground arith
get_or-take (suc n) (x ∷ xs) (suc i) = ground (arith, get_or-take n xs i)

pub get_or-drop : (n : ℕ) (xs : List ℕ) (i : ℕ) → get_or (drop n xs) i 0 ≡ get_or xs (n + i) 0
get_or-drop zero xs i = at_index xs (i) (0 + i) (omega arith)
get_or-drop (suc n) [] i = refl
get_or-drop (suc n) (x ∷ xs) i =
    get_or-drop n xs i ∙ at_index (x ∷ xs) (suc (n + i)) (suc n + i) (omega arith)

pub get_or-append :
    (xs ys : List ℕ) (i : ℕ)
    → get_or (xs ++ ys) i 0
      ≡ (if ltb i (length xs) then get_or xs i 0 else get_or ys (i - length xs) 0)
get_or-append [] ys i = ground arith
get_or-append (x ∷ xs) ys zero = ground arith
get_or-append (x ∷ xs) ys (suc i) = ground (arith, get_or-append xs ys i)

drop_nil : (k : ℕ) → drop {A = ℕ} k [] ≡ []
drop_nil zero = refl
drop_nil (suc k) = refl

pub drop-drop : (m k : ℕ) (xs : List ℕ) → drop k (drop m xs) ≡ drop (m + k) xs
drop-drop zero k xs = let e : k ≡ 0 + k = omega arith in ap (λ n. drop n xs) e
drop-drop (suc m) k [] = drop_nil k ∙ sym (drop_nil (suc m + k))
drop-drop (suc m) k (x ∷ xs) =
    let e : suc (m + k) ≡ suc m + k = omega arith in drop-drop m k xs ∙ ap (λ n. drop n (x ∷ xs)) e
