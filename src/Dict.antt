-- ===== src/Dict.antt =====
-- Python's `dict` with texts for keys, in the order of insertion.
pub mod Laws
use chatx.Prelude.{
  ◌≡◌, Bool, true, Option, none, some, List, [], ◌∷◌, ◌==◌, contains, if◌then◌else◌,
}
use chatx.Text.{Str, str_eq}

abbrev pub Dict {ℓ} : Type ℓ → Type ℓ
Dict V = List (Str × V)

module _ {ℓ} {V : Type ℓ} where
  -- `d.get(k)`
  unfoldable pub lookup : Str → Dict V → Option V
  lookup k [] = none
  lookup k ((j, v) ∷ d) = if j == k then some v else lookup k d

  -- `d[k] = v`: a key that is there keeps its place.
  unfoldable pub insert : Str → V → Dict V → Dict V
  insert k v [] = (k, v) ∷ []
  insert k v ((j, w) ∷ d) = if j == k then (j, v) ∷ d else (j, w) ∷ insert k v d

  -- `d.pop(k, None)`
  unfoldable pub erase : Str → Dict V → Dict V
  erase k [] = []
  erase k ((j, v) ∷ d) = let rest = erase k d in if j == k then rest else (j, v) ∷ rest

  -- `for k in ks: d.pop(k, None)`
  unfoldable pub erase_all : List Str → Dict V → Dict V
  unfolding erase
  erase_all [] d = d
  erase_all (k ∷ ks) d = erase_all ks (erase k d)

  -- `[k for k, v in d.items() if p(k, v)]`
  unfoldable pub keys_with : (Str → V → Bool) → Dict V → List Str
  keys_with p [] = []
  keys_with p ((k, v) ∷ d) = let rest = keys_with p d in if p k v then k ∷ rest else rest

  abbrev pub values : Dict V → List V
  values [] = []
  values ((k, v) ∷ d) = v ∷ values d

  -- No key stands twice, which a `dict` gives by itself.
  abbrev pub IsDict : Dict V → Type ℓ
  IsDict [] = Unit
  IsDict ((k, v) ∷ d) = (lookup k d ≡ none) × IsDict d
