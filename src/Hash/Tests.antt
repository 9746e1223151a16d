-- ===== src/Hash/Tests.antt =====
-- Runs of the hash tests.
use chatx.Prelude.{◌≡◌, refl, nat_eq}
use chatx.Text.{Str, codes, lower, strip, remove_char}
use chatx.Hash.{normalize_hash}

abbrev shown : Str
shown = codes " <AB:cd> "

shown_normalized : normalize_hash shown ≡ codes "abcd"
unfolding normalize_hash lower strip remove_char
shown_normalized = refl
