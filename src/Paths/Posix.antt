-- ===== src/Paths/Posix.antt =====
-- `normpath`, `join` and `basename` of Python's `posixpath`, which stand for `os.path` on every system
-- but Windows.
use mathlib.Core.List.{reverse, tail}
use chatx.Prelude.{
  Bool, true, false, not, ◌&&◌, ◌||◌, List, [], ◌∷◌, ◌++◌, ◌==◌, nat_eq, if◌then◌else◌,
}
use chatx.Text.{Str, codes, truthy, or_else, starts_with, str_eq}
use chatx.Text.Parts.{split, join}

abbrev top_is_up : List Str → Bool
top_is_up [] = false
top_is_up (c ∷ stack) = c == codes ".."

abbrev is_nil : List Str → Bool
is_nil [] = true
is_nil (c ∷ stack) = false

-- One component; the stack of those kept has its top at the head.
unfoldable pub push_comp : Bool → List Str → Str → List Str
push_comp absolute stack comp =
    if not (truthy comp) || comp == codes "."
    then stack
    else if not (comp == codes "..") || not absolute && is_nil stack || top_is_up stack
    then comp ∷ stack
    else tail stack

unfoldable pub norm_loop : Bool → List Str → List Str → List Str
norm_loop absolute stack [] = reverse stack
norm_loop absolute stack (comp ∷ comps) = norm_loop absolute (push_comp absolute stack comp) comps

-- Exactly two slashes at the start are kept.
unfoldable pub initial_slashes : Str → Str
unfolding starts_with
initial_slashes path =
    if starts_with path (codes "/")
    then (if starts_with path (codes "//") && not (starts_with path (codes "///"))
        then codes "//"
        else codes "/")
    else []

unfoldable pub normpath : Str → Str
normpath path =
    let slashes = initial_slashes path in
    let comps = norm_loop (truthy slashes) [] (split b'/' path) in
    if not (truthy path) then codes "." else or_else (slashes ++ join b'/' comps) (codes ".")

unfoldable pub ends_with_slash : Str → Bool
ends_with_slash [] = false
ends_with_slash (c ∷ []) = c == b'/'
ends_with_slash (c ∷ d ∷ s) = ends_with_slash (d ∷ s)

unfoldable pub join_one : Str → Str → Str
unfolding starts_with ends_with_slash
join_one path b =
    if starts_with b (codes "/")
    then b
    else if not (truthy path) || ends_with_slash path
    then path ++ b
    else path ++ (b'/' ∷ b)

-- `os.path.join(path, *parts)`
unfoldable pub path_join : Str → List Str → Str
path_join path [] = path
path_join path (b ∷ parts) = path_join (join_one path b) parts

abbrev pub last_part : List Str → Str
last_part [] = []
last_part (p ∷ []) = p
last_part (p ∷ q ∷ ps) = last_part (q ∷ ps)

-- What stands behind the last slash.
unfoldable pub basename : Str → Str
basename path = last_part (split b'/' path)
