-- ===== src/Base/Texts.antt =====
-- Go strings and byte slices: lists of bytes, with their equality test.
use Prim.Native.Nat.{ℕ}
use Prim.Native.Char.{code}
use Prim.Native.String.{String}
use mathlib.Core.Path.{◌≡◌, refl}
use mathlib.Core.Logic.{◌↔◌, ◌≢◌}
use mathlib.Core.Bool.{Bool, true, false, ◌&&◌}
use mathlib.Core.List.{List, [], ◌∷◌}
use mathlib.Core.Option.{Option, none, some}
use native.Mathlib.Omega.{arith}
use go_httpbin.Base.Tests.{◌==◌, if◌then◌else◌}

abbrev pub Bytes : Type 0
Bytes = List ℕ

-- The code points of a literal; these are its bytes when the text is ASCII.
abbrev pub codes : String → Bytes
codes String.[] = []
codes (String.◌∷◌ c s) = code c ∷ codes s

unfoldable pub str_eq : Bytes → Bytes → Bool
str_eq [] [] = true
str_eq [] (b ∷ t) = false
str_eq (a ∷ s) [] = false
str_eq (a ∷ s) (b ∷ t) = a == b && str_eq s t

eq_of_str_eq : (s t : Bytes) → str_eq s t ≡ true → s ≡ t
unfolding str_eq
eq_of_str_eq [] [] h = refl
eq_of_str_eq [] (b ∷ t) h = cc
eq_of_str_eq (a ∷ s) [] h = cc
eq_of_str_eq (a ∷ s) (b ∷ t) h = ground (arith, eq_of_str_eq s t)

pub str_eq_refl : (s : Bytes) → str_eq s s ≡ true
unfolding str_eq
str_eq_refl [] = refl
str_eq_refl (a ∷ s) = ground (arith, str_eq_refl s)

pub str_eq_iff : (s t : Bytes) → (str_eq s t ≡ true) ↔ (s ≡ t)
str_eq_iff s t = (eq_of_str_eq s t, λ e. rw e (str_eq_refl t))

pub str_ne : (s t : Bytes) → str_eq s t ≡ false → s ≢ t
str_ne s t h = λ e. (let f : str_eq s t ≡ true = (str_eq_iff s t).1 e in ground arith)

-- Go's maps with string keys, as association lists: the first entry of a key counts.
module _ {ℓ} {V : Type ℓ} where
  unfoldable pub lookup : Bytes → List (Bytes × V) → Option V
  lookup k [] = none
  lookup k ((j, v) ∷ m) = if str_eq j k then some v else lookup k m

  unfoldable pub insert : Bytes → V → List (Bytes × V) → List (Bytes × V)
  insert k v [] = (k, v) ∷ []
  insert k v ((j, w) ∷ m) = if str_eq j k then (k, v) ∷ m else (j, w) ∷ insert k v m

  pub lookup-insert :
      (k j : Bytes) (v : V) (m : List (Bytes × V))
      → lookup j (insert k v m) ≡ (if str_eq k j then some v else lookup j m)
  unfolding lookup insert
  lookup-insert k j v [] = refl
  lookup-insert k j v ((i, w) ∷ m) =
      ground (arith, str_eq_iff k j, str_eq_iff i k, str_eq_iff i j, lookup-insert k j v m)

module _ {ℓ} {V : Type ℓ} where
  pub lookup-insert_self :
      (k : Bytes) (v : V) (m : List (Bytes × V)) → lookup k (insert k v m) ≡ some v
  lookup-insert_self k v m = ground (arith, lookup-insert k k v m, str_eq_iff k k)

  pub lookup-insert_ne :
      (k j : Bytes) (v : V) (m : List (Bytes × V)) → k ≢ j → lookup j (insert k v m) ≡ lookup j m
  lookup-insert_ne k j v m h = ground (arith, lookup-insert k j v m, str_eq_iff k j)

abbrev pub get_str : Bytes → List (Bytes × Bytes) → Bytes
get_str k m = elim (lookup k m) [ none ↦ [] | some v ↦ v ]

abbrev pub is_empty : Bytes → Bool
is_empty [] = true
is_empty (_ ∷ _) = false
