-- ===== src/Handlers/Statuses/Choosing.antt =====
-- What a weighted choice gives.
use go_httpbin.Base.{◌≡◌, refl, ◌≢◌, inl, inr, true, some, List, [], ◌∷◌, Bool-cases}
use go_httpbin.Handlers.Statuses.{Float64, select, total_weight, weighted_random_choice}

module _ {N : Type 0} {T : Type 0} where
  -- A choice of the list, with its weight.
  pub data Offers : List (T × N) → T → Type 0 where
    here : (c : T) (w : N) (choices : List (T × N)) → Offers ((c, w) ∷ choices) c
    later : (e : T × N) (choices : List (T × N)) (c : T) → Offers choices c → Offers (e ∷ choices) c

module _ {N : Type 0} (float : Float64 N) {T : Type 0} where
  select-some :
      (choices : List (T × N)) (number current : N)
      → choices ≢ []
      → float.lt number (total_weight float choices current) ≡ true
      → (c : T) × (select float choices number current ≡ some c) × Offers choices c
  unfolding select total_weight
  select-some [] number current n h = absurd (n refl)
  select-some ((c, w) ∷ []) number current n h = (c, rw h refl, here c w [])
  select-some ((c, w) ∷ e ∷ choices) number current n h =
      elim (Bool-cases (float.lt number (float.add current w))) [
        | inl reached ↦ (c, rw reached refl, here c w (e ∷ choices))
        | inr not_yet ↦
            let (d, chosen, offered) =
              select-some (e ∷ choices) number (float.add current w) (cc) h in
            (d, rw not_yet chosen, later (c, w) (e ∷ choices) d offered)
      ]

  -- A weighted choice does not panic, and gives one of its choices, if there is one and the random
  -- number, scaled by the total weight, is below that total; whatever rounding the additions do.
  pub weighted_random_choice-Offers :
      (choices : List (T × N)) (random : N)
      → choices ≢ []
      → float.lt
          (float.mul random (total_weight float choices float.zero_float))
          (total_weight float choices float.zero_float)
        ≡ true
      → (c : T) × (weighted_random_choice float choices random ≡ some c) × Offers choices c
  unfolding weighted_random_choice
  weighted_random_choice-Offers choices random n h =
      select-some choices (float.mul random (total_weight float choices float.zero_float))
        float.zero_float n h
