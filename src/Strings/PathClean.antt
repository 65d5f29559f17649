-- ===== src/Strings/PathClean.antt =====
-- path.Clean: the shortest path with the same meaning.
use go_httpbin.Base.{
  ◌≡◌, refl, Bool, true, false, not, ◌&&◌, ◌||◌, List, [], ◌∷◌, ◌==◌, if◌then◌else◌, Bytes, codes,
  str_eq, is_empty,
}
use go_httpbin.Strings.{split, join, glue, slash}
use mathlib.Core.List.{reverse}

-- One component; the stack has its top at the head. ".." above the root of a rooted path is dropped,
-- and kept at the front of any other path.
unfoldable pub clean_step : Bool → List Bytes → Bytes → List Bytes
clean_step rooted stack part =
    if is_empty part || str_eq part (codes ".")
    then stack
    else if str_eq part (codes "..")
    then back rooted stack
    else part ∷ stack
  where
    back : Bool → List Bytes → List Bytes
    back true [] = []
    back false [] = codes ".." ∷ []
    back rooted (top ∷ rest) =
        if not rooted && str_eq top (codes "..") then codes ".." ∷ top ∷ rest else rest

unfoldable pub clean_parts : Bool → List Bytes → List Bytes → List Bytes
unfolding clean_step
clean_parts rooted stack [] = reverse stack
clean_parts rooted stack (part ∷ parts) = clean_parts rooted (clean_step rooted stack part) parts

abbrev or_dot : Bytes → Bytes
or_dot s = if is_empty s then codes "." else s

unfoldable pub clean_path : Bytes → Bytes
unfolding clean_parts
clean_path [] = codes "."
clean_path (c ∷ s) =
    if c == slash
    then slash ∷ join slash (clean_parts true [] (split slash s))
    else or_dot (join slash (clean_parts false [] (split slash (c ∷ s))))

cleaned : clean_path (codes "/a//../b/./../../c/") ≡ codes "/c"
unfolding clean_path split glue join str_eq
cleaned = refl
