-- ===== src/Book/Names.antt =====
-- The name of a contact (`_resolve_contact_name` of chatx5/core/contacts.py).
use chatx.Prelude.{
  ◌≡◌, refl, ap, ◌∙◌, ◌⊎◌, inl, inr, Bool, true, false, List, [], arith, if◌then◌else◌, nat_eq,
  if_both,
}
use chatx.Text.{Str, strip, str_eq}
use chatx.Text.Laws.{strip_idem}
use chatx.Book.{
  Card, normalize_card, card_hashes, is_corrupt_raw, is_corrupt_contact_name, sanitize_contact_name,
  has_persisted_display_name, resolve_contact_name,
}

is_corrupt_contact_name-strip :
    (name : Str) (hashes : List Str)
    → is_corrupt_contact_name (strip name) hashes ≡ is_corrupt_contact_name name hashes
unfolding is_corrupt_contact_name
is_corrupt_contact_name-strip name hashes = ap (λ raw. is_corrupt_raw raw hashes) (strip_idem name)

module _ (c : Card) (name : Str) where
  abbrev hashes : List Str
  hashes = card_hashes (normalize_card c)

  -- No name, or one of the two that is not refused.
  abbrev Fine : Str → Type 0
  Fine n =
      (n ≡ [])
      ⊎ ((is_corrupt_contact_name n hashes ≡ false) × ((n ≡ strip name) ⊎ (n ≡ strip c.name)))

  if_Fine : (b : Bool) (x y : Str) → Fine x → Fine y → Fine (if b then x else y)
  if_Fine true x y f g = f
  if_Fine false x y f g = g

  Fine-incoming : Fine (sanitize_contact_name name hashes)
  Fine-incoming =
      if_both Fine (is_corrupt_contact_name name hashes) [] (strip name) (λ corrupt. inl refl)
        (λ fine. inr (is_corrupt_contact_name-strip name hashes ∙ fine, inl refl))

  Fine-saved : Fine (sanitize_contact_name c.name hashes)
  Fine-saved =
      if_both Fine (is_corrupt_contact_name c.name hashes) [] (strip c.name) (λ corrupt. inl refl)
        (λ fine. inr (is_corrupt_contact_name-strip c.name hashes ∙ fine, inr refl))

-- The name that is chosen is one of the two names, trimmed and not refused, or there is none.
pub resolve_contact_name_lem :
    (c : Card) (name : Str) (custom : Bool)
    → (resolve_contact_name c name custom ≡ [])
      ⊎ ((is_corrupt_contact_name
              (resolve_contact_name c name custom)
              (card_hashes (normalize_card c))
            ≡ false)
          × ((resolve_contact_name c name custom ≡ strip name)
              ⊎ (resolve_contact_name c name custom ≡ strip c.name)))
unfolding resolve_contact_name
resolve_contact_name_lem c name custom =
    let p = Fine-incoming c name in let q = Fine-saved c name in search (if_Fine c name) depth 12

-- A contact whose label counts as persisted, and is not refused, keeps it against every name that
-- discovery brings.
pub resolve_contact_name-persisted :
    (c : Card) (name : Str)
    → has_persisted_display_name c ≡ true
    → is_corrupt_contact_name c.name (card_hashes (normalize_card c)) ≡ false
    → resolve_contact_name c name false ≡ strip c.name
unfolding resolve_contact_name has_persisted_display_name
resolve_contact_name-persisted c name persisted fine = ground arith
