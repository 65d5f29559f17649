-- ===== src/Tests/Negotiating.antt =====
-- A concrete negotiation of httpbin/handlers.go, with insertion sort for sort.Slice.
use go_httpbin.Base.{ℕ, ◌+◌, ◌*◌, Bool, some, List, [], ◌∷◌, ltb, if◌then◌else◌, codes}
use go_httpbin.Http.{Request}
use go_httpbin.Handlers.Statuses as Statuses
use go_httpbin.Handlers.Negotiating.{Sort}

abbrev request : Request
request = record {
  method = codes "HEAD";
  path = codes "/a/get";
  host = codes "localhost";
  remote_addr = codes "10.0.0.1:5000";
  header = (codes "Accept", codes "text/html;q=2, image/png" ∷ []) ∷ [];
  query = [];
  path_values = [];
}

abbrev parsed : Statuses.Float64 ℕ
parsed = record {
  parse_float = λ s. some 2;
  zero_float = 0;
  half = 0;
  one = 1;
  add = ◌+◌;
  mul = ◌*◌;
  lt = ltb;
}

-- Insertion sort.
insert_sorted : {A : Type 0} → (A → A → Bool) → A → List A → List A
insert_sorted less x [] = x ∷ []
insert_sorted less x (y ∷ ys) =
    let rest = insert_sorted less x ys in if less x y then x ∷ y ∷ ys else y ∷ rest

by_insertion : {A : Type 0} → Sort A
by_insertion less [] = []
by_insertion less (x ∷ xs) = insert_sorted less x (by_insertion less xs)

-- Every natural number is one.
abbrev IsNumber : ℕ → Type 0
IsNumber n = Unit
