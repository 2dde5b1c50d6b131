-- ===== src/Filepath.antt =====
-- path/filepath and strings of Go's standard library on Unix, as far as server/fs/watcher.go,
-- server/fs/handler.go and server/server/jsonrpc.go use them. Paths are lists of bytes.
pub mod Shrinks
mod Tests
use flit_el.Prelude.{
  ℕ, zero, suc, ◌+◌, ◌≡◌, Bool, true, false, Option, none, some, List, [], ◌∷◌, ◌++◌, Text,
  is_empty, codes, refl, text_beq, text_eq, nat_eq, ◌==◌, ◌&&◌, ◌||◌, not, if◌then◌else◌,
}
use mathlib.Core.List.{reverse, map}

abbrev pub slash : ℕ
slash = 47

abbrev pub dot_text : Text
dot_text = 46 ∷ []

abbrev dot_dot : Text
dot_dot = 46 ∷ 46 ∷ []

abbrev pub root_text : Text
root_text = 47 ∷ []

abbrev cons_head : ℕ → List Text → List Text
cons_head c [] = (c ∷ []) ∷ []
cons_head c (p ∷ ps) = (c ∷ p) ∷ ps

-- strings.Split(s, "/")
unfoldable pub split_slash : Text → List Text
split_slash [] = [] ∷ []
split_slash (c ∷ s) = if c == slash then [] ∷ split_slash s else cons_head c (split_slash s)

-- strings.Join(ps, "/")
unfoldable pub join_slash : List Text → Text
join_slash [] = []
join_slash (p ∷ []) = p
join_slash (p ∷ q ∷ ps) = p ++ (slash ∷ join_slash (q ∷ ps))

-- What Clean does at "..", on the components that it has kept, the last one first.
clean_dot_dot : Bool → List Text → List Text
clean_dot_dot rooted [] = if rooted then [] else dot_dot ∷ []
clean_dot_dot rooted (p ∷ kept) = if p == dot_dot then dot_dot ∷ p ∷ kept else kept

clean_component : Bool → Text → List Text → List Text
unfolding clean_dot_dot
clean_component rooted p kept =
    if is_empty p || p == dot_text
    then kept
    else if p == dot_dot
    then clean_dot_dot rooted kept
    else p ∷ kept

clean_components : Bool → List Text → List Text → List Text
unfolding clean_component
clean_components rooted [] kept = kept
clean_components rooted (p ∷ ps) kept = clean_components rooted ps (clean_component rooted p kept)

unfoldable pub is_rooted : Text → Bool
is_rooted [] = false
is_rooted (c ∷ s) = c == slash

render : Bool → List Text → Text
render rooted ps =
    if rooted then slash ∷ join_slash ps else if is_empty ps then dot_text else join_slash ps

-- filepath.Clean
unfoldable pub clean : Text → Text
unfolding is_rooted split_slash clean_components render join_slash
clean s = render (is_rooted s) (reverse (clean_components (is_rooted s) (split_slash s) []))

-- The text up to its last slash, with it.
unfoldable pub through_last_slash : Text → Text
through_last_slash [] = []
through_last_slash (c ∷ s) =
    let rest = through_last_slash s in
    if is_empty rest then (if c == slash then c ∷ [] else []) else c ∷ rest

-- filepath.Dir
unfoldable pub dir : Text → Text
unfolding through_last_slash clean
dir s = clean (through_last_slash s)

drop_last_slashes : Text → Text
drop_last_slashes [] = []
drop_last_slashes (c ∷ s) =
    let rest = drop_last_slashes s in
    if is_empty rest then (if c == slash then [] else c ∷ []) else c ∷ rest

last_component : List Text → Text
last_component [] = []
last_component (p ∷ []) = p
last_component (p ∷ q ∷ ps) = last_component (q ∷ ps)

or_root : Text → Text
or_root [] = root_text
or_root (c ∷ s) = c ∷ s

-- filepath.Base
unfoldable pub base : Text → Text
unfolding drop_last_slashes last_component or_root split_slash
base [] = dot_text
base (c ∷ s) = or_root (last_component (split_slash (drop_last_slashes (c ∷ s))))

-- filepath.Join(a, b)
unfoldable pub join : Text → Text → Text
unfolding clean
join [] [] = []
join [] (c ∷ b) = clean (c ∷ b)
join (c ∷ a) [] = clean (c ∷ a)
join (c ∷ a) (d ∷ b) = clean ((c ∷ a) ++ (slash ∷ d ∷ b))

drop_root : List Text → List Text
drop_root [] = []
drop_root (p ∷ ps) = if is_empty p then ps else p ∷ ps

-- The components of a clean path.
components : Text → List Text
unfolding split_slash drop_root
components s = if s == dot_text || s == root_text then [] else drop_root (split_slash s)

relative : List Text → List Text → Option Text
unfolding join_slash
relative [] [] = some dot_text
relative [] (t ∷ ts) = some (join_slash (t ∷ ts))
relative (b ∷ bs) [] =
    if b == dot_dot then none else some (join_slash (map (λ _. dot_dot) (b ∷ bs)))
relative (b ∷ bs) (t ∷ ts) =
    let rest = relative bs ts in
    if b == t
    then rest
    else if b == dot_dot
    then none
    else some (join_slash (map (λ _. dot_dot) (b ∷ bs) ++ (t ∷ ts)))

same : Bool → Bool → Bool
same true y = y
same false y = not y

-- filepath.Rel, on the components of the two clean paths; `none` for its error
unfoldable pub rel : Text → Text → Option Text
unfolding same relative components clean
rel base target =
    let b = clean base in
    let t = clean target in
    if same (is_rooted b) (is_rooted t) then relative (components b) (components t) else none
