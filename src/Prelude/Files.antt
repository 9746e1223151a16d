-- ===== src/Prelude/Files.antt =====
-- What becomes of a file that the code opens with "w" and dumps its data to, where it passes over
-- every exception.
use mathlib.Core.List.{List, []}

-- The dump comes to its end, or the file is not opened, or it breaks off once the file is open: the file
-- is cut off then and cannot be read, which the code that loads it takes for no data.
pub data Write : Type 0 where
  complete unopened cut_off : Write

-- The data that the file gives back when it is loaded, from the new data and those it held before.
abbrev pub file_after {ℓ} : {A : Type ℓ} → Write → List A → List A → List A
file_after complete new old = new
file_after unopened new old = old
file_after cut_off new old = []
