-- ===== src/Strings/Splitting.antt =====
-- What a split, a cut and a join have to do with one another.
use go_httpbin.Base.{ℕ, ◌≡◌, refl, ◌≢◌, true, false, List, [], ◌∷◌, ◌++◌, arith, All, Bytes}
use go_httpbin.Strings.{glue, split, cut, join}

abbrev pub Lacks : ℕ → Bytes → Type 0
Lacks b = All (λ c. c ≢ b)

pub split-ne-nil : (sep : ℕ) (s : Bytes) → split sep s ≢ []
unfolding split glue
split-ne-nil sep [] = cc
split-ne-nil sep (c ∷ s) = ground (arith, split-ne-nil sep s)

glue-Lacks :
    (sep c : ℕ) (ps : List Bytes) → c ≢ sep → All (Lacks sep) ps → All (Lacks sep) (glue c ps)
unfolding glue
glue-Lacks sep c [] h k = ((h, tt), tt)
glue-Lacks sep c (p ∷ ps) h (k, ks) = ((h, k), ks)

-- No part of a split holds the separator.
pub split-Lacks : (sep : ℕ) (s : Bytes) → All (Lacks sep) (split sep s)
unfolding split
split-Lacks sep [] = (tt, tt)
split-Lacks sep (c ∷ s) = ground (arith, split-Lacks sep s, glue-Lacks sep c (split sep s))

join-glue : (sep c : ℕ) (ps : List Bytes) → join sep (glue c ps) ≡ c ∷ join sep ps
unfolding join glue
join-glue sep c [] = refl
join-glue sep c (p ∷ []) = refl
join-glue sep c (p ∷ q ∷ ps) = refl

join-nil-cons : (sep : ℕ) (ps : List Bytes) → ps ≢ [] → join sep ([] ∷ ps) ≡ sep ∷ join sep ps
unfolding join
join-nil-cons sep [] h = absurd (h refl)
join-nil-cons sep (p ∷ ps) h = refl

-- Joining the parts of a split gives the text back.
pub join-split : (sep : ℕ) (s : Bytes) → join sep (split sep s) ≡ s
unfolding split
join-split sep [] = unfold join in refl
join-split sep (c ∷ s) = ground (
  arith,
  join-split sep s,
  join-glue sep c (split sep s),
  join-nil-cons sep (split sep s) (split-ne-nil sep s),
)

-- A part that lacks the separator is split off whole.
pub split-append :
    (sep : ℕ) (p s : Bytes) → Lacks sep p → split sep (p ++ sep ∷ s) ≡ p ∷ split sep s
unfolding split glue
split-append sep [] s h = ground arith
split-append sep (c ∷ p) s (h, k) = ground (arith, split-append sep p s k)

pub split_of_Lacks : (sep : ℕ) (p : Bytes) → Lacks sep p → split sep p ≡ p ∷ []
unfolding split glue
split_of_Lacks sep [] h = refl
split_of_Lacks sep (c ∷ p) (h, k) = ground (arith, split_of_Lacks sep p k)

-- Splitting a join gives the parts back, if there is a part and none holds the separator.
pub split-join :
    (sep : ℕ) (ps : List Bytes) → ps ≢ [] → All (Lacks sep) ps → split sep (join sep ps) ≡ ps
unfolding join
split-join sep [] h _ = absurd (h refl)
split-join sep (p ∷ []) h (k, _) = split_of_Lacks sep p k
split-join sep (p ∷ q ∷ ps) h (k, ks) =
    ground (arith, split-append sep p (join sep (q ∷ ps)) k, split-join sep (q ∷ ps) (cc) ks)

pub cut-append : (sep : ℕ) (p s : Bytes) → Lacks sep p → cut sep (p ++ sep ∷ s) ≡ (p, s, true)
unfolding cut
cut-append sep [] s h = ground arith
cut-append sep (c ∷ p) s (h, k) = ground (arith, cut-append sep p s k)

pub cut_of_Lacks : (sep : ℕ) (p : Bytes) → Lacks sep p → cut sep p ≡ (p, [], false)
unfolding cut
cut_of_Lacks sep [] h = refl
cut_of_Lacks sep (c ∷ p) (h, k) = ground (arith, cut_of_Lacks sep p k)

-- What a cut has found, put together again.
pub cut-found :
    (sep : ℕ) (s : Bytes) → (cut sep s).2 ≡ true → s ≡ (cut sep s).0 ++ sep ∷ (cut sep s).1
unfolding cut
cut-found sep [] h = cc
cut-found sep (c ∷ s) h = ground (arith, cut-found sep s)
