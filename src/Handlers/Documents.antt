-- ===== src/Handlers/Documents.antt =====
-- PDF of httpbin/handlers.go, with its cache, and the gradients of httpbin/helpers.go. What makes a PDF
-- file is a parameter.
pub mod Caching
use go_httpbin.Base.{
  ℕ, ◌+◌, ◌-◌, ◌*◌, Bool, not, ◌&&◌, ◌||◌, Option, none, some, List, [], ◌∷◌, leb, if◌then◌else◌,
  any, Bytes, codes, str_eq, lookup, is_empty,
}
use go_httpbin.Base.Int.{ℤ, pos, negsuc, ltb_ℤ, pos_part}
use go_httpbin.Strings.{to_lower, trim_prefix, has_prefix}
use go_httpbin.Strings.Number.{atoi}
use go_httpbin.Http.{
  Request, Call, Handler, Values, Result, ok, err, ◌>>=◌, set_header, get, write_error,
  write_response, in_context, message, invalid_value, library_error,
}
use go_httpbin.Caches.{BoundedCache, put}
use go_httpbin.Caches as Cache
use go_httpbin.Pipeline.Terminals.{ext, image_ext_to_kind}
use go_httpbin.Handlers.{Library, HttpBin, parse_seed}

abbrev pub Rgb : Type 0
Rgb = ℕ × ℕ × ℕ

pub record GradientConfig : Type 0 where
  pub name : Bytes
  pub color1 : Rgb
  pub color2 : Rgb
  pub noise : ℤ

abbrev preset : Bytes → Rgb → Rgb → ℕ → Bytes × GradientConfig
preset name c1 c2 noise =
    (name, record { name = name; color1 = c1; color2 = c2; noise = pos noise })

unfoldable pub gradient_presets : List (Bytes × GradientConfig)
gradient_presets =
    preset (codes "warm") (0xff, 0x45, 0x00) (0xff, 0xd7, 0x00) 48
    ∷ preset (codes "cool") (0x00, 0x66, 0xcc) (0x00, 0xcc, 0xff) 48
    ∷ preset (codes "sunset") (0xff, 0x63, 0x47) (0x4b, 0x00, 0x82) 32
    ∷ preset (codes "forest") (0x22, 0x8b, 0x22) (0x00, 0x64, 0x00) 40
    ∷ preset (codes "ocean") (0x00, 0x77, 0xbe) (0x20, 0xb2, 0xaa) 56
    ∷ preset (codes "grayscale") (0x80, 0x80, 0x80) (0x20, 0x20, 0x20) 32
    ∷ preset (codes "neon") (0xff, 0x00, 0xff) (0x00, 0xff, 0x00) 72
    ∷ []

unfoldable pub default_gradient : GradientConfig
default_gradient = record {
  name = codes "default";
  color1 = (0, 0, 0);
  color2 = (0, 0, 0);
  noise = pos 64;
}

unfoldable pub hex_digit : ℕ → Option ℕ
hex_digit c =
    if leb b'0' c && leb c b'9'
    then some (c - b'0')
    else if leb b'a' c && leb c b'f'
    then some (c - b'a' + 10)
    else if leb b'A' c && leb c b'F'
    then some (c - b'A' + 10)
    else none

-- strconv.ParseUint of two digits in base 16.
unfoldable pub hex_byte : ℕ → ℕ → Option ℕ
unfolding hex_digit
hex_byte c d = elim (hex_digit c) [
  | none ↦ none
  | some high ↦ elim (hex_digit d) [ none ↦ none | some low ↦ some (high * 16 + low) ]
]

abbrev color_of : Bytes → Option ℕ → Option ℕ → Option ℕ → Result Rgb
color_of s (some r) (some g) (some b) = ok (r, g, b)
color_of s r g b = err (invalid_value (codes "hex color") s)

-- The six digits of a colour.
unfoldable pub parse_hex_digits : Bytes → Result Rgb
unfolding hex_byte
parse_hex_digits (a ∷ b ∷ c ∷ d ∷ e ∷ f ∷ []) =
    color_of (a ∷ b ∷ c ∷ d ∷ e ∷ f ∷ []) (hex_byte a b) (hex_byte c d) (hex_byte e f)
parse_hex_digits s = err (invalid_value (codes "hex color") s)

unfoldable pub parse_hex_color : Bytes → Result Rgb
unfolding parse_hex_digits
parse_hex_color s = parse_hex_digits (trim_prefix s (codes "#"))

-- The colours of a configuration, before its noise.
unfoldable pub choose_gradient : Bytes → Bytes → Bytes → Result GradientConfig
unfolding gradient_presets default_gradient parse_hex_color
choose_gradient name c1 c2 =
    if not (is_empty name) && (not (is_empty c1) || not (is_empty c2))
    then err (message (codes "cannot combine gradient preset with color1/color2"))
    else if not (is_empty name)
    then (if str_eq name (codes "default")
        then ok default_gradient
        else elim (lookup name gradient_presets) [
          | none ↦ err (invalid_value (codes "gradient preset") name)
          | some p ↦ ok p
        ])
    else if is_empty c1 && is_empty c2
    then ok default_gradient
    else if is_empty c1 || is_empty c2
    then err (message (codes "both color1 and color2 are required for custom gradients"))
    else parse_hex_color c1 >>= λ a. parse_hex_color c2 >>= λ b.
        ok (record { name = []; color1 = a; color2 = b; noise = pos 64 })

unfoldable pub set_noise : Bytes → GradientConfig → Result GradientConfig
set_noise [] grad = ok grad
set_noise (c ∷ s) grad = elim (atoi (c ∷ s)) [
  | none ↦ err (invalid_value (codes "noise value") (c ∷ s))
  | some n ↦
      if ltb_ℤ n (pos 0) || ltb_ℤ (pos 255) n
      then err (invalid_value (codes "noise value") (c ∷ s))
      else ok (record grad { noise = n })
]

unfoldable pub parse_gradient_config : Values → Result GradientConfig
unfolding choose_gradient set_noise
parse_gradient_config params =
    choose_gradient (get (codes "gradient") params) (get (codes "color1") params)
      (get (codes "color2") params)
    >>= set_noise (get (codes "noise") params)

pub record PdfCacheKey : Type 0 where
  pub pages : ℤ
  pub size : Bytes
  pub seed : ℤ

abbrev pub is_nocache : Values → Bool
is_nocache q =
    str_eq (get (codes "nocache") q) (codes "1") || str_eq (get (codes "no-cache") q) (codes "1")

abbrev pub PdfCache : Type 0
PdfCache = BoundedCache PdfCacheKey Bytes

unfoldable pub parse_pages : Bytes → Result ℤ
parse_pages [] = ok (pos 1)
parse_pages (c ∷ s) = elim (atoi (c ∷ s)) [
  | none ↦ err (invalid_value (codes "pages value") (c ∷ s))
  | some n ↦
      if ltb_ℤ n (pos 1) || ltb_ℤ (pos 100) n
      then err (invalid_value (codes "pages value") (c ∷ s))
      else ok n
]

unfoldable pub parse_pdf_size : Bytes → Result Bytes
parse_pdf_size [] = ok (codes "medium")
parse_pdf_size (c ∷ s) =
    if any (str_eq (c ∷ s)) (codes "small" ∷ codes "medium" ∷ codes "large" ∷ [])
    then ok (c ∷ s)
    else err (invalid_value (codes "size") (c ∷ s))

-- The seed of a request; `now` is the time.
unfoldable pub parse_pdf_seed : ℤ → Values → Result ℤ
parse_pdf_seed now q =
    let raw_seed = get (codes "seed") q in
    if is_nocache q
    then ok now
    else if is_empty raw_seed
    then ok (pos 42)
    else elim (atoi raw_seed) [
      | none ↦ err (in_context (codes "invalid seed") library_error)
      | some seed ↦ ok seed
    ]

unfoldable pub parse_pdf : ℤ → Values → Result PdfCacheKey
unfolding parse_pages parse_pdf_size parse_pdf_seed
parse_pdf now q = parse_pages (get (codes "pages") q) >>= λ pages.
    parse_pdf_size (get (codes "size") q) >>= λ size.
    parse_pdf_seed now q >>= λ seed. ok (record { pages = pages; size = size; seed = seed })

-- `generate` makes a file, or fails; `pick` is the order of the cache's map.
module _ (same : Discrete PdfCacheKey) (generate : PdfCacheKey → Option Bytes) where
  abbrev pdf_answer : Bytes → List Call
  pdf_answer pdf_bytes = write_response 200 (codes "application/pdf") pdf_bytes

  unfoldable pub make_pdf : ℕ → Bool → PdfCacheKey → PdfCache → List Call × PdfCache
  make_pdf pick nocache key cache = elim (generate key) [
    | none ↦ (write_error 500 (some library_error), cache)
    | some pdf_bytes ↦
        (pdf_answer pdf_bytes, (if nocache then cache else put same pick key pdf_bytes cache))
  ]

  unfoldable pub pdf_of : ℕ → Bool → PdfCacheKey → PdfCache → List Call × PdfCache
  unfolding make_pdf
  pdf_of pick nocache key cache =
      if nocache then make_pdf pick nocache key cache else elim (Cache.get same key cache) [
        | some pdf_bytes ↦ (pdf_answer pdf_bytes, cache)
        | none ↦ make_pdf pick nocache key cache
      ]

  unfoldable pub pdf : ℕ → ℤ → Request → PdfCache → List Call × PdfCache
  unfolding pdf_of parse_pdf
  pdf pick now r cache = elim (parse_pdf now r.query) [
    | err e ↦ (write_error 400 (some e), cache)
    | ok key ↦ pdf_of pick (is_nocache r.query) key cache
  ]
