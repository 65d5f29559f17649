-- ===== src/Caches.antt =====
-- boundedCache of httpbin/helpers.go, with which generated images and PDF files are kept. The Go map is
-- an association list; the mutex makes each call one step.
pub mod Bounded
use go_httpbin.Base.{
  ℕ, ◌%◌, Option, none, some, List, [], ◌∷◌, leb, if◌then◌else◌, length, get_elem?,
}
use mathlib.Core.Logic.{ite}
use native.Mathlib.Nat.{mod-lt}
use Prim.Native.Nat.{max}

pub record BoundedCache {ℓ} (K V : Type ℓ) : Type ℓ where
  pub entries : List (K × V)
  pub max_size : ℕ

unfoldable pub new_bounded_cache {ℓ} : {K V : Type ℓ} → ℕ → BoundedCache K V
new_bounded_cache max_size = record { entries = []; max_size = max_size }

module _ {ℓ} {K V : Type ℓ} (same : Discrete K) where
  -- The map: a lookup, delete and an assignment.
  unfoldable pub find : K → List (K × V) → Option V
  find k [] = none
  find k ((j, v) ∷ m) = ite (same j k) (some v) (find k m)

  unfoldable pub delete : K → List (K × V) → List (K × V)
  delete k [] = []
  delete k ((j, v) ∷ m) = let rest = delete k m in ite (same j k) rest ((j, v) ∷ rest)

  unfoldable pub assign : K → V → List (K × V) → List (K × V)
  assign k v [] = (k, v) ∷ []
  assign k v ((j, w) ∷ m) = let rest = assign k v m in ite (same j k) ((k, v) ∷ m) ((j, w) ∷ rest)

  unfoldable pub get : K → BoundedCache K V → Option V
  unfolding find
  get key c = find key c.entries

  -- The loop that is left in its first round. `pick` stands for the order of a Go map, in which any entry
  -- may come first.
  unfoldable pub make_room : ℕ → List (K × V) → List (K × V)
  unfolding delete
  make_room pick entries = elim (get_elem? entries (pick % length entries)) [
    | none ↦ entries
    | some first ↦ delete first.0 entries
  ]

  unfoldable pub put : ℕ → K → V → BoundedCache K V → BoundedCache K V
  unfolding make_room assign
  put pick key entry c =
      let room =
        (if leb c.max_size (length c.entries) then make_room pick c.entries else c.entries) in
      record c { entries = assign key entry room }
