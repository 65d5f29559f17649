-- ===== src/Digest/Headers.antt =====
-- Digest headers as a client writes them, and what the parser makes of them.
use go_httpbin.Base.{
  ℕ, suc, ◌-◌, ◌≤◌, ◌≡◌, refl, sym, ◌≢◌, ◌⊎◌, inl, inr, true, none, some, List, [], ◌∷◌, ◌++◌, map,
  append_assoc, arith, length, take, length-append, take-length-append, All, All-append, Bytes,
  insert,
}
use mathlib.Core.List.{reverse, reverse_aux, reverse-append, reverse-reverse}
use go_httpbin.Strings.{cut, has_prefix, has_suffix, join}
use go_httpbin.Strings.Trimming.{trim_space, strip, leading, spaces, reversed_spaces}
use go_httpbin.Strings.Splitting.{Lacks, split-join, cut-append}
use go_httpbin.Digest.{Dict, quote, strip_quotes, parse_pair, parse_pairs, parse_dict_header}

-- A visible byte other than the three that a header's syntax uses.
abbrev pub IsNameByte : ℕ → Type 0
IsNameByte c = (33 ≤ c) × (c ≤ 126) × (c ≢ b'=') × (c ≢ b',')

abbrev pub IsName : Bytes → Type 0
IsName k = (k ≢ []) × All IsNameByte k

abbrev pub IsQuotable : Bytes × Bytes → Type 0
IsQuotable (k, v) = IsName k × Lacks b',' v

-- A parameter in quotes, behind the space that follows a comma.
abbrev pub quoted : Bytes × Bytes → Bytes
quoted (k, v) = b' ' ∷ k ++ (b'=' ∷ b'"' ∷ v ++ b'"' ∷ [])

pub quoted_list : List (Bytes × Bytes) → Bytes
quoted_list ps = join b',' (map quoted ps)

unfoldable pub insert_all : List (Bytes × Bytes) → Dict → Dict
insert_all [] res = res
insert_all ((k, v) ∷ ps) res = insert_all ps (insert k v res)

abbrev IsVisible : ℕ → Type 0
IsVisible c = (33 ≤ c) × (c ≤ 126)

abbrev StartsOtherwise : ℕ → Bytes → Type 0
StartsOtherwise c [] = ⊥
StartsOtherwise c (x ∷ r) = c ≢ x

leading_otherwise :
    (c : ℕ) (s : Bytes) (rs : List Bytes) → All (StartsOtherwise c) rs → leading rs (c ∷ s) ≡ 0
unfolding leading has_prefix
leading_otherwise c s [] h = refl
leading_otherwise c s ([] ∷ rs) (h, hs) = elim h [ ]
leading_otherwise c s ((x ∷ r) ∷ rs) (h, hs) = ground (arith, leading_otherwise c s rs hs)

strip-visible : (c : ℕ) (s : Bytes) → IsVisible c → strip spaces 0 (c ∷ s) ≡ c ∷ s
unfolding strip
strip-visible c s h = rw (leading_otherwise c s spaces (omega arith), strip)

strip-visible_last : (c : ℕ) (s : Bytes) → IsVisible c → strip reversed_spaces 0 (c ∷ s) ≡ c ∷ s
unfolding strip
strip-visible_last c s h = rw (leading_otherwise c s reversed_spaces (omega arith), strip)

strip-space : (s : Bytes) → strip spaces 0 (b' ' ∷ s) ≡ strip spaces 0 s
unfolding strip leading has_prefix
strip-space s = refl

-- Text between two visible bytes is not trimmed, nor is one such byte.
trim_space_lem :
    (s : Bytes)
    → strip spaces 0 s ≡ s
    → strip reversed_spaces 0 (reverse s) ≡ reverse s
    → trim_space s ≡ s
unfolding trim_space
trim_space_lem s front back = rw (front, back) (reverse-reverse s)

-- Text between two visible bytes is not trimmed.
trim_space-visible :
    (c d : ℕ) (s : Bytes)
    → IsVisible c
    → IsVisible d
    → trim_space (c ∷ s ++ d ∷ []) ≡ c ∷ s ++ d ∷ []
trim_space-visible c d s hc hd =
    trim_space_lem (c ∷ s ++ d ∷ []) (strip-visible c (s ++ d ∷ []) hc)
      (rw (reverse-append (c ∷ s) (d ∷ [])) (strip-visible_last d (reverse (c ∷ s)) hd))

strip_AllVisible_last : (s : Bytes) → All IsVisible s → strip reversed_spaces 0 s ≡ s
strip_AllVisible_last [] h = unfold strip in refl
strip_AllVisible_last (c ∷ s) (h, hs) = strip-visible_last c s h

All-reverse_aux :
    (s t : Bytes) → All IsVisible s → All IsVisible t → All IsVisible (reverse_aux s t)
All-reverse_aux [] t hs ht = ht
All-reverse_aux (c ∷ s) t (h, hs) ht = All-reverse_aux s (c ∷ t) hs (h, ht)

trim_space-AllVisible : (s : Bytes) → All IsVisible s → trim_space s ≡ s
trim_space-AllVisible [] h = unfold trim_space strip in refl
trim_space-AllVisible (c ∷ s) (h, hs) =
    trim_space_lem (c ∷ s) (strip-visible c s h)
      (strip_AllVisible_last (reverse (c ∷ s)) (All-reverse_aux (c ∷ s) [] (h, hs) tt))

trim_space-space : (s : Bytes) → trim_space (b' ' ∷ s) ≡ trim_space s
unfolding trim_space
trim_space-space s = rw (strip-space s)

IsName-IsVisible : (k : Bytes) → All IsNameByte k → All IsVisible k
IsName-IsVisible [] h = tt
IsName-IsVisible (c ∷ k) (h, hs) = ((h.0, h.1), IsName-IsVisible k hs)

IsName-Lacks : (b : ℕ) (k : Bytes) → (b ≡ b'=') ⊎ (b ≡ b',') → All IsNameByte k → Lacks b k
IsName-Lacks b [] e h = tt
IsName-Lacks b (c ∷ k) e (h, hs) = (ground arith, IsName-Lacks b k e hs)

has_prefix-append : (s t : Bytes) → has_prefix (s ++ t) s ≡ true
unfolding has_prefix
has_prefix-append [] t = refl
has_prefix-append (c ∷ s) t = ground (arith, has_prefix-append s t)

has_suffix-quote : (s : Bytes) → has_suffix (s ++ quote) quote ≡ true
unfolding has_suffix
has_suffix-quote s = rw (reverse-append s quote) (has_prefix-append quote (reverse s))

inner-quoted : (v : Bytes) (n : ℕ) → n ≡ length v → take n (v ++ quote) ≡ v
inner-quoted v n e = rw e (take-length-append v quote)

strip_quotes-quoted : (v : Bytes) → strip_quotes (b'"' ∷ v ++ quote) ≡ some v
unfolding strip_quotes
strip_quotes-quoted v =
    rw (has_suffix-quote (b'"' ∷ v), has_prefix-append quote (v ++ quote))
      (ground (
        arith,
        length-append v quote,
        inner-quoted v (suc (length (v ++ quote)) - 2),
        inner-quoted v (length (v ++ quote) - 1),
      ))

trim_space-quoted : (v : Bytes) → trim_space (b'"' ∷ v ++ quote) ≡ b'"' ∷ v ++ quote
trim_space-quoted v = trim_space-visible b'"' b'"' v (omega arith) (omega arith)

cut-pair : (k v : Bytes) → All IsNameByte k → cut b'=' (k ++ (b'=' ∷ v)) ≡ (k, v, true)
cut-pair k v h = cut-append b'=' k v (IsName-Lacks b'=' k (inl refl) h)

trim_space-pair :
    (c : ℕ) (k v : Bytes)
    → IsVisible c
    → trim_space (c ∷ k ++ (b'=' ∷ b'"' ∷ v ++ quote)) ≡ c ∷ k ++ (b'=' ∷ b'"' ∷ v ++ quote)
trim_space-pair c k v h =
    rw (sym (append_assoc (c ∷ k) (b'=' ∷ b'"' ∷ v) quote))
      (trim_space-visible c b'"' (k ++ (b'=' ∷ b'"' ∷ v)) h (omega arith))

parse_pair-quoted :
    (k v : Bytes) (res : Dict) → IsName k → parse_pair (quoted (k, v)) res ≡ some (insert k v res)
unfolding parse_pair
parse_pair-quoted [] v res h = absurd (h.0 refl)
parse_pair-quoted (c ∷ k) v res (ne, h) =
    rw
      (
        trim_space-space (c ∷ k ++ (b'=' ∷ b'"' ∷ v ++ quote)),
        trim_space-pair c k v (h.0.0, h.0.1),
        cut-pair (c ∷ k) (b'"' ∷ v ++ quote) h,
        trim_space-AllVisible (c ∷ k) (IsName-IsVisible (c ∷ k) h),
        trim_space-quoted v,
        strip_quotes-quoted v,
      )
      refl

parse_pairs-quoted :
    (ps : List (Bytes × Bytes)) (res : Dict)
    → All IsQuotable ps
    → parse_pairs (map quoted ps) res ≡ some (insert_all ps res)
unfolding parse_pairs insert_all
parse_pairs-quoted [] res h = refl
parse_pairs-quoted ((k, v) ∷ ps) res (h, hs) =
    rw (parse_pair-quoted k v res h.0) (parse_pairs-quoted ps (insert k v res) hs)

Lacks-append : (sep : ℕ) (s t : Bytes) → Lacks sep s → Lacks sep t → Lacks sep (s ++ t)
Lacks-append sep [] t hs ht = ht
Lacks-append sep (c ∷ s) t (h, hs) ht = (h, Lacks-append sep s t hs ht)

Lacks-quoted : (p : Bytes × Bytes) → IsQuotable p → Lacks b',' (quoted p)
Lacks-quoted (k, v) (h, l) = (
  omega arith,
  Lacks-append b',' k (b'=' ∷ b'"' ∷ v ++ quote) (IsName-Lacks b',' k (inr refl) h.1)
      (omega arith, (omega arith, Lacks-append b',' v quote l (omega arith, tt))),
)

All-quoted : (ps : List (Bytes × Bytes)) → All IsQuotable ps → All (Lacks b',') (map quoted ps)
All-quoted [] h = tt
All-quoted (p ∷ ps) (h, hs) = (Lacks-quoted p h, All-quoted ps hs)

-- A header that lists parameters in quotes, with commas between them, is read back as exactly those
-- parameters, a later one of a name in place of an earlier one. A name has visible bytes but "=" and
-- ",", and no value has a comma.
pub parse_dict_header-quoted_list :
    (p : Bytes × Bytes) (ps : List (Bytes × Bytes))
    → All IsQuotable (p ∷ ps)
    → parse_dict_header (quoted_list (p ∷ ps)) ≡ some (insert_all (p ∷ ps) [])
unfolding parse_dict_header quoted_list
parse_dict_header-quoted_list p ps h =
    rw (split-join b',' (map quoted (p ∷ ps)) (cc) (All-quoted (p ∷ ps) h))
      (parse_pairs-quoted (p ∷ ps) [] h)

trim_space-lone :
    (c : ℕ) (k : Bytes)
    → IsVisible c
    → trim_space (c ∷ k ++ (b'=' ∷ quote)) ≡ c ∷ k ++ (b'=' ∷ quote)
trim_space-lone c k h =
    rw (sym (append_assoc (c ∷ k) (b'=' ∷ []) quote))
      (trim_space-visible c b'"' (k ++ (b'=' ∷ [])) h (omega arith))

parse_pair-lone_quote :
    (k : Bytes) (res : Dict) → IsName k → parse_pair (k ++ (b'=' ∷ quote)) res ≡ none
unfolding parse_pair strip_quotes has_prefix has_suffix
parse_pair-lone_quote [] res h = absurd (h.0 refl)
parse_pair-lone_quote (c ∷ k) res (ne, h) =
    rw
      (
        trim_space-lone c k (h.0.0, h.0.1),
        cut-pair (c ∷ k) quote h,
        trim_space-AllVisible (c ∷ k) (IsName-IsVisible (c ∷ k) h),
        trim_space-AllVisible quote ((omega arith, omega arith), tt),
      )
      refl

abbrev lone : Bytes → Bytes
lone k = k ++ (b'=' ∷ quote)

parse_pairs-lone_quote :
    (k : Bytes) (ps : List (Bytes × Bytes)) (res : Dict)
    → IsName k
    → All IsQuotable ps
    → parse_pairs (map quoted ps ++ lone k ∷ []) res ≡ none
unfolding parse_pairs
parse_pairs-lone_quote k [] res h hs = rw (parse_pair-lone_quote k res h) refl
parse_pairs-lone_quote k ((j, v) ∷ ps) res h (q, qs) =
    rw (parse_pair-quoted j v res q.0) (parse_pairs-lone_quote k ps (insert j v res) h qs)

Lacks-lone : (k : Bytes) → IsName k → Lacks b',' (lone k)
Lacks-lone k (ne, h) =
    Lacks-append b',' k (b'=' ∷ quote) (IsName-Lacks b',' k (inr refl) h)
      (omega arith, (omega arith, tt))

append-ne-nil : (ps : List Bytes) (p : Bytes) → (ps ++ p ∷ []) ≢ []
append-ne-nil [] p = λ e. cc
append-ne-nil (q ∷ ps) p = λ e. cc

-- A header whose last parameter has a single quote for its value makes the parser panic, whatever
-- the parameters in quotes before it.
pub parse_dict_header-lone_quote :
    (k : Bytes) (ps : List (Bytes × Bytes))
    → IsName k
    → All IsQuotable ps
    → parse_dict_header (join b',' (map quoted ps ++ (k ++ (b'=' ∷ quote)) ∷ [])) ≡ none
unfolding parse_dict_header
parse_dict_header-lone_quote k ps h hs =
    rw
      (split-join b',' (map quoted ps ++ lone k ∷ []) (append-ne-nil (map quoted ps) (lone k)) (
        All-append (Lacks b',') (map quoted ps) (lone k ∷ []) (All-quoted ps hs)
          (Lacks-lone k h, tt)))
      (parse_pairs-lone_quote k ps [] h hs)
