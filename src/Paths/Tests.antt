-- ===== src/Paths/Tests.antt =====
-- Runs of the path helpers, and the theorems at concrete paths.
use chatx.Prelude.{◌≡◌, refl, none, some, [], ◌∷◌, ◌++◌, arith, nat_eq, contains, keep}
use chatx.Text.{Str, codes, str_beq, replace_char}
use chatx.Paths.{safe_basename, safe_path_under, safe_rel_path_under, clean_parts, lstrip_slashes}
use chatx.Paths.Posix.{
  normpath, initial_slashes, norm_loop, push_comp, path_join, join_one, basename,
}
use chatx.Paths.Plain.{IsPlain, absolute}
use chatx.Paths.Safety.{safe_rel_path_under_lem}
use chatx.Paths.Names.{IsName}
use chatx.Text.Parts.{join, split}

normpath_tests :
    (normpath (codes "/a//b/../c/.") ≡ codes "/a/c")
    × (normpath (codes "../x") ≡ codes "../x")
    × (normpath [] ≡ codes ".")
unfolding normpath initial_slashes join norm_loop split push_comp str_beq
normpath_tests = (refl, refl, refl)

escape_refused : safe_path_under (codes "/srv/share") (codes "../../etc/passwd" ∷ []) ≡ none
unfolding safe_path_under str_beq normpath path_join join_one initial_slashes join norm_loop split
    push_comp
escape_refused = refl

dots_dropped :
    safe_rel_path_under (codes "/srv/share") (codes "../a\\../b.txt") []
    ≡ some (codes "/srv/share/a/b.txt")
unfolding safe_rel_path_under safe_path_under str_beq normpath path_join clean_parts keep split
    lstrip_slashes replace_char contains join_one initial_slashes join norm_loop push_comp
dots_dropped = refl

windows_name : safe_basename (codes "C:\\tmp\\x.png") (codes "file") ≡ codes "x.png"
unfolding safe_basename basename split replace_char str_beq
windows_name = refl

abbrev srv : Str
srv = codes "srv"

abbrev attack : Str
attack = codes "/../..\\x/./y"

srv-IsPlain : IsPlain srv
srv-IsPlain = ground arith

file-IsName : IsName (codes "file")
file-IsName = ground arith

safe_rel_path_under_lem_example :
    safe_rel_path_under (absolute (srv ∷ [])) attack []
    ≡ some (absolute (srv ∷ [] ++ clean_parts attack []))
safe_rel_path_under_lem_example = safe_rel_path_under_lem srv [] attack srv-IsPlain tt

home_parts : clean_parts (codes "home") [] ≡ codes "home" ∷ []
unfolding clean_parts keep split lstrip_slashes replace_char contains str_beq
home_parts = refl
