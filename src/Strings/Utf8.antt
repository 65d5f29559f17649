-- ===== src/Strings/Utf8.antt =====
-- utf8.Valid: well-formed UTF-8, one byte at a time.
use go_httpbin.Base.{
  ℕ, ◌≡◌, refl, inl, inr, Bool, true, false, ◌&&◌, ◌||◌, Option, none, some, List, [], ◌∷◌, ◌++◌,
  arith, leb, ◌==◌, if◌then◌else◌, Option-cases, Bytes,
}

abbrev pub in_range : ℕ → ℕ → ℕ → Bool
in_range lo hi c = leb lo c && leb c hi

abbrev tail_byte : ℕ × ℕ
tail_byte = (0x80, 0xbf)

-- The ranges of the bytes that must follow a first byte.
unfoldable pub expected : ℕ → Option (List (ℕ × ℕ))
expected a =
    if in_range 0 0x7f a
    then some []
    else if in_range 0xc2 0xdf a
    then some (tail_byte ∷ [])
    else if a == 0xe0
    then some ((0xa0, 0xbf) ∷ tail_byte ∷ [])
    else if in_range 0xe1 0xec a || in_range 0xee 0xef a
    then some (tail_byte ∷ tail_byte ∷ [])
    else if a == 0xed
    then some ((0x80, 0x9f) ∷ tail_byte ∷ [])
    else if a == 0xf0
    then some ((0x90, 0xbf) ∷ tail_byte ∷ tail_byte ∷ [])
    else if in_range 0xf1 0xf3 a
    then some (tail_byte ∷ tail_byte ∷ tail_byte ∷ [])
    else if a == 0xf4
    then some ((0x80, 0x8f) ∷ tail_byte ∷ tail_byte ∷ [])
    else none

unfoldable pub valid_from : List (ℕ × ℕ) → Bytes → Bool
valid_from [] [] = true
valid_from (r ∷ rs) [] = false
valid_from [] (a ∷ s) = elim (expected a) [ none ↦ false | some rs ↦ valid_from rs s ]
valid_from ((lo, hi) ∷ rs) (b ∷ s) = let rest = valid_from rs s in in_range lo hi b && rest

unfoldable pub valid : Bytes → Bool
unfolding valid_from
valid s = valid_from [] s

valid_from-append :
    (rs : List (ℕ × ℕ)) (s t : Bytes)
    → valid_from rs s ≡ true
    → valid_from [] t ≡ true
    → valid_from rs (s ++ t) ≡ true
unfolding valid_from
valid_from-append [] [] t h k = k
valid_from-append (r ∷ rs) [] t h k = cc
valid_from-append [] (a ∷ s) t h k = elim (Option-cases (expected a)) [
  | inl bad ↦ cc (rw (bad, valid_from) at h)
  | inr (rs, e) ↦ rw (e, valid_from) (valid_from-append rs s t (rw (e, valid_from) at h) k)
]
valid_from-append ((lo, hi) ∷ rs) (b ∷ s) t h k = ground (arith, valid_from-append rs s t)

-- Text in whole characters, one after the other, is well formed.
pub valid-append : (s t : Bytes) → valid s ≡ true → valid t ≡ true → valid (s ++ t) ≡ true
unfolding valid
valid-append s t h k = valid_from-append [] s t h k

valid_tests :
    (valid (0x68 ∷ 0xc3 ∷ 0xa9 ∷ 0xe2 ∷ 0x82 ∷ 0xac ∷ []) ≡ true)
    × (valid (0xc3 ∷ []) ≡ false)
    × (valid (0xed ∷ 0xa0 ∷ 0x80 ∷ []) ≡ false)
unfolding valid expected
valid_tests = (refl, refl, refl)
