-- ===== src/Paths.antt =====
-- Paths built from names that a peer sends (chatx5/utils/helpers.py), with the functions of Python's
-- `posixpath` that they call. Links in the file system are outside: the code never resolves them.
pub mod Posix
pub mod Plain
pub mod Safety
pub mod Names
mod Tests
use chatx.Prelude.{
  Bool, true, false, not, ◌&&◌, ◌||◌, List, [], ◌∷◌, ◌++◌, Option, none, some, ◌==◌, nat_eq,
  contains, keep, if◌then◌else◌,
}
use chatx.Text.{Str, codes, truthy, or_else, replace_char, starts_with, str_eq}
use chatx.Text.Parts.{split, join}
use chatx.Paths.Posix.{normpath, path_join, basename}

abbrev pub dots : List Str
dots = codes "." ∷ codes ".." ∷ []

-- A name is made of "/" where the sender's system writes "\".
abbrev pub slashed : Str → Str
slashed = replace_char b'\\' b'/'

unfoldable pub safe_basename : Str → Str → Str
unfolding contains
safe_basename filename default =
    let base = basename (slashed filename) in
    if not (truthy base) || contains base dots then default else base

unfoldable pub safe_path_under : Str → List Str → Option Str
safe_path_under base_dir parts =
    let base = normpath base_dir in
    let joined = normpath (path_join base parts) in
    if not (joined == base) && not (starts_with joined (base ++ codes "/"))
    then none
    else some joined

-- `s.lstrip("/")`
unfoldable pub lstrip_slashes : Str → Str
lstrip_slashes [] = []
lstrip_slashes (c ∷ s) = if c == b'/' then lstrip_slashes s else c ∷ s

-- The test on each part of the relative path.
abbrev pub is_plain : Str → Bool
is_plain p = truthy p && not (contains p dots)

unfoldable pub clean_parts : Str → Str → List Str
clean_parts rel_path default_name =
    keep is_plain (split b'/' (lstrip_slashes (slashed (or_else rel_path default_name))))

abbrev pub or_default : Str → List Str → List Str
or_default d [] = d ∷ []
or_default d (p ∷ ps) = p ∷ ps

unfoldable pub safe_rel_path_under : Str → Str → Str → Option Str
safe_rel_path_under base_dir rel_path default_name =
    safe_path_under base_dir (or_default default_name (clean_parts rel_path default_name))
