-- ===== src/Strings/Trimming.antt =====
-- strings.TrimSpace, with the white space of Unicode in its UTF-8 bytes, and strings.Trim of slashes.
use go_httpbin.Base.{
  ℕ, zero, suc, ◌≡◌, refl, List, [], ◌∷◌, map, ◌==◌, if◌then◌else◌, length, Bytes, codes,
}
use go_httpbin.Strings.{has_prefix}
use mathlib.Core.List.{reverse}

-- U+0009..U+000D, U+0020, U+0085, U+00A0, U+1680, U+2000..U+200A, U+2028, U+2029, U+202F, U+205F,
-- U+3000.
abbrev pub spaces : List Bytes
spaces =
    (9 ∷ [])
    ∷ (10 ∷ [])
    ∷ (11 ∷ [])
    ∷ (12 ∷ [])
    ∷ (13 ∷ [])
    ∷ (32 ∷ [])
    ∷ (0xc2 ∷ 0x85 ∷ [])
    ∷ (0xc2 ∷ 0xa0 ∷ [])
    ∷ (0xe1 ∷ 0x9a ∷ 0x80 ∷ [])
    ∷ (0xe2 ∷ 0x80 ∷ 0x80 ∷ [])
    ∷ (0xe2 ∷ 0x80 ∷ 0x81 ∷ [])
    ∷ (0xe2 ∷ 0x80 ∷ 0x82 ∷ [])
    ∷ (0xe2 ∷ 0x80 ∷ 0x83 ∷ [])
    ∷ (0xe2 ∷ 0x80 ∷ 0x84 ∷ [])
    ∷ (0xe2 ∷ 0x80 ∷ 0x85 ∷ [])
    ∷ (0xe2 ∷ 0x80 ∷ 0x86 ∷ [])
    ∷ (0xe2 ∷ 0x80 ∷ 0x87 ∷ [])
    ∷ (0xe2 ∷ 0x80 ∷ 0x88 ∷ [])
    ∷ (0xe2 ∷ 0x80 ∷ 0x89 ∷ [])
    ∷ (0xe2 ∷ 0x80 ∷ 0x8a ∷ [])
    ∷ (0xe2 ∷ 0x80 ∷ 0xa8 ∷ [])
    ∷ (0xe2 ∷ 0x80 ∷ 0xa9 ∷ [])
    ∷ (0xe2 ∷ 0x80 ∷ 0xaf ∷ [])
    ∷ (0xe2 ∷ 0x81 ∷ 0x9f ∷ [])
    ∷ (0xe3 ∷ 0x80 ∷ 0x80 ∷ [])
    ∷ []

-- The length of the first of the given texts with which `s` begins, or 0.
unfoldable pub leading : List Bytes → Bytes → ℕ
leading [] s = 0
leading (r ∷ rs) s = if has_prefix s r then length r else leading rs s

-- Drops such texts from the front; the first argument counts the bytes still to drop.
unfoldable pub strip : List Bytes → ℕ → Bytes → Bytes
strip rs n [] = []
strip rs (suc n) (c ∷ s) = strip rs n s
strip rs zero (c ∷ s) = elim (leading rs (c ∷ s)) [ zero ↦ c ∷ s | suc n ↦ strip rs n s ]

abbrev pub reversed_spaces : List Bytes
reversed_spaces = map reverse spaces

unfoldable pub trim_space : Bytes → Bytes
unfolding strip leading
trim_space s = reverse (strip (map reverse spaces) 0 (reverse (strip spaces 0 s)))

-- strings.Trim(s, "/")
unfoldable pub strip_slash : Bytes → Bytes
strip_slash [] = []
strip_slash (c ∷ s) = let rest = strip_slash s in if c == b'/' then rest else c ∷ s

unfoldable pub trim_slash : Bytes → Bytes
unfolding strip_slash
trim_slash s = reverse (strip_slash (reverse (strip_slash s)))

trimmed : trim_space (codes "  a b\t ") ≡ codes "a b"
unfolding trim_space has_prefix
trimmed = refl
