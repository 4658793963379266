-- ===== src/Common/Maps.antt =====
-- Maps from numbers to numbers, as lists of pairs: they stand for the DashMaps of the source.
use dsh_proxy.Common.Tests.{◌==◌, ==_self, if◌then◌else◌}
use Prim.Native.Nat.{ℕ, ◌+◌}
use mathlib.Core.Path.{◌≡◌, refl, ap, ◌∙◌}
use mathlib.Core.Logic.{◌≢◌}
use mathlib.Core.Option.{Option, none, some}
use mathlib.Core.List.{List, [], ◌∷◌}
use native.Mathlib.Omega.{arith}
use dsh_proxy.Common.Lists.{length}

-- The entry of a key in a map kept as a list of pairs, and the map without it.
unfoldable pub lookup : ℕ → List (ℕ × ℕ) → Option ℕ
lookup k [] = none
lookup k ((j, v) ∷ m) = if j == k then some v else lookup k m

unfoldable pub erase : ℕ → List (ℕ × ℕ) → List (ℕ × ℕ)
erase k [] = []
erase k ((j, v) ∷ m) = if j == k then m else (j, v) ∷ erase k m

-- No key stands twice.
abbrev pub Distinct : List (ℕ × ℕ) → Type 0
Distinct [] = Unit {0}
Distinct ((j, v) ∷ m) = (lookup j m ≡ none) × Distinct m

pub length-erase :
    (k v : ℕ) (m : List (ℕ × ℕ)) → lookup k m ≡ some v → length (erase k m) + 1 ≡ length m
unfolding lookup erase
length-erase k v [] h = cc
length-erase k v ((j, w) ∷ m) h = ground (arith, length-erase k v m)

pub lookup-erase_ne : (j k : ℕ) (m : List (ℕ × ℕ)) → j ≢ k → lookup j (erase k m) ≡ lookup j m
unfolding lookup erase
lookup-erase_ne j k [] ne = refl
lookup-erase_ne j k ((i, w) ∷ m) ne = ground (arith, lookup-erase_ne j k m ne)

pub lookup-cons_self : (k v : ℕ) (m : List (ℕ × ℕ)) → lookup k ((k, v) ∷ m) ≡ some v
unfolding lookup
lookup-cons_self k v m = ground arith

pub lookup-cons_ne : (j k v : ℕ) (m : List (ℕ × ℕ)) → j ≢ k → lookup j ((k, v) ∷ m) ≡ lookup j m
unfolding lookup
lookup-cons_ne j k v m ne = ground arith

pub lookup-erase_self : (k : ℕ) (m : List (ℕ × ℕ)) → Distinct m → lookup k (erase k m) ≡ none
unfolding lookup erase
lookup-erase_self k [] d = refl
lookup-erase_self k ((j, w) ∷ m) d = ground (arith, lookup-erase_self k m d.1)

pub Distinct-erase : (k : ℕ) (m : List (ℕ × ℕ)) → Distinct m → Distinct (erase k m)
unfolding lookup erase
Distinct-erase k [] d = tt
Distinct-erase k ((j, w) ∷ m) d = ground (arith, Distinct-erase k m d.1, lookup-erase_ne j k m)

-- An entry set, over the old one if there is one.
unfoldable pub put : ℕ → ℕ → List (ℕ × ℕ) → List (ℕ × ℕ)
put k v m = (k, v) ∷ erase k m

pub lookup-put_self : (k v : ℕ) (m : List (ℕ × ℕ)) → lookup k (put k v m) ≡ some v
unfolding put
lookup-put_self k v m = lookup-cons_self k v (erase k m)

pub lookup-put_ne : (j k v : ℕ) (m : List (ℕ × ℕ)) → j ≢ k → lookup j (put k v m) ≡ lookup j m
unfolding put
lookup-put_ne j k v m ne = lookup-cons_ne j k v (erase k m) ne ∙ lookup-erase_ne j k m ne

-- One value of a function replaced.
abbrev pub update {ℓ} : {A : Type ℓ} → (ℕ → A) → ℕ → A → ℕ → A
update h a v b = if b == a then v else h b

pub update_self {ℓ} : {A : Type ℓ} (h : ℕ → A) (a : ℕ) (v : A) → update h a v a ≡ v
update_self h a v = ap (λ b. if b then v else h a) (==_self a)

pub update_ne {ℓ} : {A : Type ℓ} (h : ℕ → A) (a : ℕ) (v : A) (b : ℕ) → b ≢ a → update h a v b ≡ h b
update_ne h a v b ne = ground arith

pub Distinct-put : (k v : ℕ) (m : List (ℕ × ℕ)) → Distinct m → Distinct (put k v m)
unfolding put
Distinct-put k v m d = (lookup-erase_self k m d, Distinct-erase k m d)
