-- ===== src/Handlers/Negotiating/Preferring.antt =====
-- Which content type Negotiate of httpbin/handlers.go answers with.
use go_httpbin.Base.{◌≡◌, ◌≢◌, ◌↔◌, ◌⊎◌, Bool, true, false, none, some, List, [], ◌∷◌, Bytes, codes}
use go_httpbin.Strings.{split}
use go_httpbin.Http.{Call, set_header}
use go_httpbin.Responses.{json_content_type, content_type_response}
use go_httpbin.Handlers.{Library, write_json}
use go_httpbin.Handlers.Statuses.{Float64}
use go_httpbin.Handlers.Negotiating.{AcceptEntry, Sort, parse_entries, content_type_for, no_match}

abbrev pub Includes : {A : Type 0} → List A → A → Type 0
Includes [] x = ⊥
Includes (y ∷ ys) x = (y ≡ x) ⊎ Includes ys x

-- No element is less than one before it.
abbrev pub IsOrdered : {A : Type 0} → (A → A → Bool) → List A → Type 0
IsOrdered less [] = Unit
IsOrdered {A} less (x ∷ xs) = ((y : A) → Includes xs y → less y x ≡ false) × IsOrdered less xs

-- A strict weak order of the elements that are `P`, which sort.Slice wants.
pub record IsStrictWeak {A : Type 0} (P : A → Type 0) (less : A → A → Bool) : Type 0 where
  pub asymmetric : (x y : A) → P x → P y → less x y ≡ true → less y x ≡ false
  pub transitive :
      (x y z : A) → P x → P y → P z → less x y ≡ false → less y z ≡ false → less x z ≡ false

-- What sort.Slice promises: the same elements, and in order if the comparison orders them.
pub record Sorts {A : Type 0} (sort : Sort A) : Type 0 where
  pub kept : (less : A → A → Bool) (xs : List A) (x : A) → Includes (sort less xs) x ↔ Includes xs x
  pub ordered :
      (less : A → A → Bool) (xs : List A)
      → IsStrictWeak (Includes xs) less
      → IsOrdered less (sort less xs)

module _ {N : Type 0} (float : Float64 N) where
  -- A media range that Negotiate knows: "*/*" or a type of its table. A quality of 0 does not exclude it.
  abbrev pub IsKnown : AcceptEntry N → Type 0
  IsKnown e = content_type_for e.media_type ≢ none

  -- An entry of the list whose media range has the content type `ct`, and to which the list has no
  -- known entry of a higher quality.
  abbrev pub IsBest : List (AcceptEntry N) → Bytes → AcceptEntry N → Type 0
  IsBest es ct best =
      Includes es best
      × (content_type_for best.media_type ≡ some ct)
      × ((e : AcceptEntry N) → Includes es e → IsKnown e → float.lt best.quality e.quality ≡ false)

  module _ (lib : Library) (sort : Sort (AcceptEntry N)) where
    abbrev vary : List Call → List Call
    vary cs = set_header (codes "Vary") (codes "Accept") ∷ cs

    abbrev pub offer : Bytes → List Call
    offer ct = vary (write_json lib 200 (content_type_response ct))

    -- With no entries the answer is JSON, with none that is known 406, else the content type of a
    -- best one.
    abbrev pub IsNegotiated : Bytes → List (AcceptEntry N) → List Call → Type 0
    IsNegotiated accept es calls =
        ((es ≡ []) × (calls ≡ offer json_content_type))
        ⊎ ((es ≢ [])
            × ((e : AcceptEntry N) → Includes es e → content_type_for e.media_type ≡ none)
            × (calls ≡ vary (no_match lib float sort accept)))
        ⊎ ((ct : Bytes) × (best : AcceptEntry N) × IsBest es ct best × (calls ≡ offer ct))

  -- The numbers, which `<` orders; NaN is none.
  module _ (IsNumber : N → Type 0) (order : IsStrictWeak IsNumber float.lt) where
    abbrev pub Numbered : List (AcceptEntry N) → Type 0
    Numbered es = (e : AcceptEntry N) → Includes es e → IsNumber e.quality

    module _ (lib : Library) (sort : Sort (AcceptEntry N)) where
      -- The entries of a header, in the header's order.
      abbrev pub listed : Bytes → List (AcceptEntry N)
      listed accept = parse_entries float (split b',' accept)
