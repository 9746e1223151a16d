-- ===== src/Dict/Laws.antt =====
-- Laws of `Dict`: each operation as a lookup sees it, and that no key comes to stand twice.
use chatx.Prelude.{
  ◌≡◌, refl, ◌∙◌, Bool, true, false, Option, none, some, List, [], ◌∷◌, arith, ◌==◌, contains,
  if◌then◌else◌,
}
use chatx.Text.{Str, str_eq, str_beq_iff}
use chatx.Dict.{Dict, lookup, insert, erase, erase_all, keys_with, IsDict}

module _ {ℓ} {V : Type ℓ} where
  pub lookup-insert :
      (j k : Str) (v : V) (d : Dict V)
      → lookup j (insert k v d) ≡ (if k == j then some v else lookup j d)
  unfolding lookup insert
  lookup-insert j k v [] = refl
  lookup-insert j k v ((i, w) ∷ d) =
      ground (arith, str_beq_iff k j, str_beq_iff i k, str_beq_iff i j, lookup-insert j k v d)

  pub lookup-erase :
      (j k : Str) (d : Dict V) → lookup j (erase k d) ≡ (if k == j then none else lookup j d)
  unfolding lookup erase
  lookup-erase j k [] = ground arith
  lookup-erase j k ((i, w) ∷ d) =
      ground (arith, str_beq_iff k j, str_beq_iff i k, str_beq_iff i j, lookup-erase j k d)

  pub lookup-erase_all :
      (j : Str) (ks : List Str) (d : Dict V)
      → lookup j (erase_all ks d) ≡ (if contains j ks then none else lookup j d)
  unfolding erase_all contains
  lookup-erase_all j [] d = refl
  lookup-erase_all j (k ∷ ks) d =
      lookup-erase_all j ks (erase k d)
      ∙ ground (arith, lookup-erase j k d, str_beq_iff j k, str_beq_iff k j)

  pub insert-IsDict : (k : Str) (v : V) (d : Dict V) → IsDict d → IsDict (insert k v d)
  unfolding insert lookup
  insert-IsDict k v [] h = (refl, tt)
  insert-IsDict k v ((i, w) ∷ d) h =
      ground (arith, insert-IsDict k v d, lookup-insert i k v d, str_beq_iff i k, str_beq_iff k i)

  pub erase-IsDict : (k : Str) (d : Dict V) → IsDict d → IsDict (erase k d)
  unfolding erase
  erase-IsDict k [] h = tt
  erase-IsDict k ((i, w) ∷ d) h = ground (arith, erase-IsDict k d, lookup-erase i k d)

  pub erase_all-IsDict : (ks : List Str) (d : Dict V) → IsDict d → IsDict (erase_all ks d)
  unfolding erase_all
  erase_all-IsDict [] d h = h
  erase_all-IsDict (k ∷ ks) d h = erase_all-IsDict ks (erase k d) (erase-IsDict k d h)

  -- The test on what a key holds.
  abbrev pub holds : (Str → V → Bool) → Str → Option V → Bool
  holds p k none = false
  holds p k (some v) = p k v

  not-keys_with :
      (p : Str → V → Bool) (k : Str) (d : Dict V)
      → lookup k d ≡ none
      → contains k (keys_with p d) ≡ false
  unfolding lookup keys_with contains
  not-keys_with p k [] h = refl
  not-keys_with p k ((i, w) ∷ d) h =
      ground (arith, not-keys_with p k d, str_beq_iff i k, str_beq_iff k i)

  pub contains-keys_with :
      (p : Str → V → Bool) (k : Str) (d : Dict V)
      → IsDict d
      → contains k (keys_with p d) ≡ holds p k (lookup k d)
  unfolding lookup keys_with contains
  contains-keys_with p k [] h = refl
  contains-keys_with p k ((i, w) ∷ d) h = ground (
    arith,
    contains-keys_with p k d h.1,
    not-keys_with p i d h.0,
    str_beq_iff i k,
    str_beq_iff k i,
  )

  abbrev pub unless : Bool → Option V → Option V
  unless true o = none
  unless false o = o

  -- To pop every key with a property is to forget the entries that have it.
  pub lookup-erase_with :
      (p : Str → V → Bool) (k : Str) (d : Dict V)
      → IsDict d
      → lookup k (erase_all (keys_with p d) d) ≡ unless (holds p k (lookup k d)) (lookup k d)
  lookup-erase_with p k d h =
      ground (arith, lookup-erase_all k (keys_with p d) d, contains-keys_with p k d h)
