-- ===== src/Hash.antt =====
-- `normalize_hash` and the fallback of the contact store (chatx5/core/discovery.py,
-- chatx5/core/messaging/peers.py).
mod Tests
use chatx.Prelude.{ℕ, ◌<◌, ◌≡◌, ◌∙◌, false, Bool, arith, ◌==◌, nat_eq, ◌∷◌, [], contains}
use chatx.Text.{Str, codes, remove_char, strip, lower, lower_char, str_eq, lstrip}
use chatx.Text.Laws.{
  Lacks, remove_char-Lacks_self, remove_char-Lacks, remove_char_of_Lacks, All-strip, All-lower,
  strip_idem, lower_idem, strip-lower, lstrip-lower-strip,
}

-- `discovery.normalize_hash`; a missing hash is the empty text.
unfoldable pub normalize_hash : Str → Str
normalize_hash h = lower (strip (remove_char b':' (remove_char b'>' (remove_char b'<' h))))

abbrev pub hub_group_peer : Str
hub_group_peer = codes "__hub_group__"

-- `peers.is_hub_peer_hash`
unfoldable pub is_hub_peer_hash : Str → Bool
unfolding contains
is_hub_peer_hash peer_hash =
    contains (normalize_hash peer_hash) (hub_group_peer ∷ codes "__hub_group__" ∷ [])

Lacks-lower : (b : ℕ) → b < b'A' → (s : Str) → Lacks b s → Lacks b (lower s)
unfolding lower_char
Lacks-lower b small = All-lower (λ d. (d == b) ≡ false) (λ c h. ground arith)

-- To strip a text and to put it in lower case brings back no character below the letters.
Lacks-clean : (b : ℕ) (s : Str) → b < b'A' → Lacks b s → Lacks b (lower (strip s))
Lacks-clean b s small h = Lacks-lower b small (strip s) (All-strip _ s h)

-- A text without the three marks only loses the spaces at its ends and its capitals.
normalize_hash_of_Lacks :
    (s : Str) → Lacks b'<' s → Lacks b'>' s → Lacks b':' s → normalize_hash s ≡ lower (strip s)
unfolding normalize_hash
normalize_hash_of_Lacks s lt gt colon = rw (
  remove_char_of_Lacks b'<' s lt,
  remove_char_of_Lacks b'>' s gt,
  remove_char_of_Lacks b':' s colon,
)

lower-strip_idem : (s : Str) → lower (strip (lower (strip s))) ≡ lower (strip s)
lower-strip_idem s = rw (strip-lower (strip s), strip_idem) (lower_idem (strip s))

-- Normalising a hash a second time changes nothing, so a normalised hash can be compared with `==`
-- and used as a key.
pub normalize_hash_idem : (h : Str) → normalize_hash (normalize_hash h) ≡ normalize_hash h
unfolding normalize_hash
normalize_hash_idem h =
    let x = remove_char b'<' h in
    let y = remove_char b'>' x in
    let z = remove_char b':' y in
    let lt =
      remove_char-Lacks b'<' b':' y
        (remove_char-Lacks b'<' b'>' x (remove_char-Lacks_self b'<' h)) in
    let gt = remove_char-Lacks b'>' b':' y (remove_char-Lacks_self b'>' x) in
    let colon = remove_char-Lacks_self b':' y in
    normalize_hash_of_Lacks (lower (strip z)) (Lacks-clean b'<' z (omega arith) lt)
      (Lacks-clean b'>' z (omega arith) gt) (Lacks-clean b':' z (omega arith) colon)
    ∙ lower-strip_idem z

-- A normalised hash has no colon, and no space at its start.
pub normalize_hash-Lacks_colon : (h : Str) → Lacks b':' (normalize_hash h)
unfolding normalize_hash
normalize_hash-Lacks_colon h =
    Lacks-clean b':' (remove_char b':' (remove_char b'>' (remove_char b'<' h))) (omega arith)
      (remove_char-Lacks_self b':' (remove_char b'>' (remove_char b'<' h)))

pub lstrip-normalize_hash : (h : Str) → lstrip (normalize_hash h) ≡ normalize_hash h
unfolding normalize_hash
lstrip-normalize_hash h =
    lstrip-lower-strip (remove_char b':' (remove_char b'>' (remove_char b'<' h)))
