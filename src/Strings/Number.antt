-- ===== src/Strings/Number.antt =====
-- strconv.Atoi and the decimal print of `fmt`, on 64-bit integers.
use go_httpbin.Base.{
  ℕ, zero, suc, ◌+◌, ◌-◌, ◌*◌, ◌/◌, ◌%◌, ◌^◌, ◌≤◌, ◌<◌, ◌≡◌, refl, sym, ap, ◌∙◌, inl, inr, ◌&&◌,
  Option, none, some, [], ◌∷◌, ◌++◌, arith, ltb, leb, ◌==◌, if◌then◌else◌, ltb→lt, Bool-cases,
  ◌>>=◌, Bytes, codes,
}
use go_httpbin.Base.Int.{ℤ, pos, negsuc}

unfoldable pub digits_from : ℕ → Bytes → Option ℕ
digits_from n [] = some n
digits_from n (c ∷ s) =
    let rest = digits_from (n * 10 + (c - b'0')) s in
    if leb b'0' c && leb c b'9' then rest else none

unfoldable pub parse_digits : Bytes → Option ℕ
unfolding digits_from
parse_digits [] = none
parse_digits (c ∷ s) = digits_from 0 (c ∷ s)

-- A magnitude and its sign, as an int64.
abbrev pub positive : ℕ → Option ℤ
positive n = if ltb n (2 ^ 63) then some (pos n) else none

abbrev pub negative : ℕ → Option ℤ
negative zero = some (pos 0)
negative (suc n) = if ltb n (2 ^ 63) then some (negsuc n) else none

-- strconv.Atoi, and strconv.ParseInt in base 10 with 64 bits.
unfoldable pub atoi : Bytes → Option ℤ
unfolding parse_digits
atoi [] = none
atoi (c ∷ s) =
    if c == b'-'
    then parse_digits s >>= negative
    else if c == b'+'
    then parse_digits s >>= positive
    else parse_digits (c ∷ s) >>= positive

-- The digits of a number below ten to the `fuel`.
unfoldable pub show : ℕ → ℕ → Bytes
show zero n = []
show (suc fuel) n =
    let more = show fuel (n / 10) in
    if ltb n 10 then (b'0' + n) ∷ [] else more ++ (b'0' + n % 10) ∷ []

-- A 64-bit number has at most 20 digits.
unfoldable pub itoa : ℕ → Bytes
unfolding show
itoa n = show 20 n

parsed : atoi (codes "-42") ≡ some (negsuc 41)
unfolding atoi
parsed = refl

not_parsed : atoi (codes "9223372036854775808") ≡ none
unfolding atoi
not_parsed = refl

printed : itoa 9223372036854775807 ≡ codes "9223372036854775807"
unfolding itoa
printed = refl

digits_from-append :
    (s t : Bytes) (n m : ℕ) → digits_from n s ≡ some m → digits_from n (s ++ t) ≡ digits_from m t
unfolding digits_from
digits_from-append [] t n m h = ground arith
digits_from-append (c ∷ s) t n m h = ground (arith, digits_from-append s t (n * 10 + (c - b'0')) m)

abbrev pub pow10 : ℕ → ℕ
pow10 zero = 1
pow10 (suc n) = 10 * pow10 n

digits_from-show : (fuel n : ℕ) → n < pow10 (suc fuel) → digits_from 0 (show (suc fuel) n) ≡ some n
unfolding digits_from show
digits_from-show zero n h = ground arith
digits_from-show (suc fuel) n h = elim (Bool-cases (ltb n 10)) [
  | inl small ↦ ground arith
  | inr large ↦
      rw (large, show)
        (unfold digits_from in
          rw
            (digits_from-append (show (suc fuel) (n / 10)) ((b'0' + n % 10) ∷ []) 0 (n / 10)
              (digits_from-show fuel (n / 10) (ground arith)))
            (ground arith))
]

show_headed :
    (fuel n : ℕ) → (c : ℕ) × (s : Bytes) × (show (suc fuel) n ≡ c ∷ s) × (b'0' ≤ c) × (c ≤ b'9')
unfolding show
show_headed zero n = elim (Bool-cases (ltb n 10)) [
  | inl small ↦ rw small (b'0' + n, [], refl, omega arith, omega (arith, ltb→lt n 10 small))
  | inr large ↦ rw large (b'0' + n % 10, [], refl, omega arith, omega arith)
]
show_headed (suc fuel) n = elim (Bool-cases (ltb n 10)) [
  | inl small ↦ rw small (b'0' + n, [], refl, omega arith, omega (arith, ltb→lt n 10 small))
  | inr large ↦
      let (c, s, e, l, u) = show_headed fuel (n / 10) in
      rw (large, e) (c, s ++ (b'0' + n % 10) ∷ [], refl, l, u)
]

atoi_digits :
    (c : ℕ) (s : Bytes) (n : ℕ)
    → b'0' ≤ c
    → n < 2 ^ 63
    → digits_from 0 (c ∷ s) ≡ some n
    → atoi (c ∷ s) ≡ some (pos n)
unfolding atoi parse_digits
atoi_digits c s n l u e = ground arith

-- A printed number is read back.
pub atoi-itoa : (n : ℕ) → n < 2 ^ 63 → atoi (itoa n) ≡ some (pos n)
unfolding itoa
atoi-itoa n h =
    let (c, s, e, l, u) = show_headed 19 n in
    rw e (atoi_digits c s n l h (sym (ap (digits_from 0) e) ∙ digits_from-show 19 n (omega arith)))
