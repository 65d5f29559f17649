-- ===== src/Strings.antt =====
-- The parts of Go's `strings`, `strconv` and `path` packages that the program calls, on bytes.
-- `ToLower` is that of ASCII: a letter outside ASCII is left as it is.
pub mod Number
pub mod Splitting
pub mod Trimming
pub mod PathClean
pub mod Utf8
use go_httpbin.Base.{
  ℕ, ◌+◌, ◌-◌, Bool, true, false, ◌&&◌, List, [], ◌∷◌, ◌++◌, map, leb, ◌==◌, if◌then◌else◌, length,
  drop, any, Bytes,
}
use mathlib.Core.List.{reverse}

abbrev pub slash : ℕ
slash = b'/'

-- A byte put at the front of the first part.
unfoldable pub glue : ℕ → List Bytes → List Bytes
glue c [] = (c ∷ []) ∷ []
glue c (p ∷ ps) = (c ∷ p) ∷ ps

-- strings.Split at a one-byte separator: at least one part.
unfoldable pub split : ℕ → Bytes → List Bytes
split sep [] = [] ∷ []
split sep (c ∷ s) = let rest = split sep s in if c == sep then [] ∷ rest else glue c rest

-- strings.Cut at a one-byte separator: what is before, what is after, and whether it was found.
unfoldable pub cut : ℕ → Bytes → Bytes × Bytes × Bool
cut sep [] = ([], [], false)
cut sep (c ∷ s) =
    let rest = cut sep s in if c == sep then ([], s, true) else (c ∷ rest.0, rest.1, rest.2)

-- strings.Join with a one-byte separator.
unfoldable pub join : ℕ → List Bytes → Bytes
join sep [] = []
join sep (p ∷ []) = p
join sep (p ∷ q ∷ ps) = p ++ sep ∷ join sep (q ∷ ps)

unfoldable pub has_prefix : Bytes → Bytes → Bool
has_prefix s [] = true
has_prefix [] (c ∷ p) = false
has_prefix (d ∷ s) (c ∷ p) = d == c && has_prefix s p

unfoldable pub has_suffix : Bytes → Bytes → Bool
has_suffix s p = has_prefix (reverse s) (reverse p)

unfoldable pub trim_prefix : Bytes → Bytes → Bytes
trim_prefix s p = if has_prefix s p then drop (length p) s else s

unfoldable pub contains_byte : ℕ → Bytes → Bool
contains_byte c s = any (λ d. d == c) s

-- strings.ReplaceAll of a one-byte text by nothing.
unfoldable pub remove_byte : ℕ → Bytes → Bytes
remove_byte b [] = []
remove_byte b (c ∷ s) = let rest = remove_byte b s in if c == b then rest else c ∷ rest

unfoldable pub lower_byte : ℕ → ℕ
lower_byte c = if leb b'A' c && leb c b'Z' then c + 32 else c

unfoldable pub upper_byte : ℕ → ℕ
upper_byte c = if leb b'a' c && leb c b'z' then c - 32 else c

unfoldable pub to_lower : Bytes → Bytes
unfolding lower_byte
to_lower s = map lower_byte s

unfoldable pub to_upper : Bytes → Bytes
unfolding upper_byte
to_upper s = map upper_byte s
