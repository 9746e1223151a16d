-- ===== src/Book/Merged.antt =====
-- Which saved contacts are joined (`_should_merge_contacts` of chatx5/core/contacts.py).
use chatx.Prelude.{
  ◌≡◌, sym, ◌∙◌, inl, inr, Bool, true, ◌||◌, List, [], ◌∷◌, arith, Bool-cases, nat_eq, contains,
  any,
}
use chatx.Text.{Str, str_eq, str_beq_iff}
use chatx.Text.Laws.{str_beq_refl}
use chatx.Contacts.{normalize_contact, contact_hashes, no_colons}
use chatx.Book.{Card}
use chatx.Book.Merge.{
  Hashes, transport_hashes, same_given, complementary, crossed, should_merge_contacts,
}

any-contains :
    (x : Str) (xs ys : List Str)
    → contains x ys ≡ true
    → contains x xs ≡ true
    → any (λ y. contains y xs) ys ≡ true
unfolding contains
any-contains x xs [] h g = absurd (ground arith)
any-contains x xs (y ∷ ys) h g = ground (arith, any-contains x xs ys, str_beq_iff x y)

contains_head : (x : Str) (xs : List Str) → contains x (x ∷ xs) ≡ true
unfolding contains
contains_head x xs = ground (arith, str_beq_refl x)

any-more :
    (x : Str) (xs ys : List Str)
    → any (λ y. contains y xs) ys ≡ true
    → any (λ y. contains y (x ∷ xs)) ys ≡ true
unfolding contains
any-more x xs [] h = h
any-more x xs (y ∷ ys) h = ground (arith, any-more x xs ys)

any_shared :
    (xs ys : List Str) → any (λ x. contains x ys) xs ≡ true → any (λ y. contains y xs) ys ≡ true
any_shared [] ys h = absurd (ground arith)
any_shared (x ∷ xs) ys h = elim (Bool-cases (contains x ys)) [
  | inl here ↦ any-contains x (x ∷ xs) ys here (contains_head x xs)
  | inr later ↦ any-more x xs ys (any_shared xs ys (ground arith))
]

any_shared_symm : (xs ys : List Str) → any (λ x. contains x ys) xs ≡ any (λ y. contains y xs) ys
any_shared_symm xs ys = elim (Bool-cases (any (λ x. contains x ys) xs)) [
  | inl joint ↦ joint ∙ sym (any_shared xs ys joint)
  | inr apart ↦ elim (Bool-cases (any (λ y. contains y xs) ys)) [
    | inl joint ↦ any_shared ys xs joint ∙ sym joint
    | inr apart' ↦ apart ∙ sym apart'
  ]
]

same_given_symm : (a b : Str) → same_given a b ≡ same_given b a
same_given_symm a b = ground (arith, str_beq_iff a b, str_beq_iff b a)

swapped :
    (p q r s t u v w : Bool)
    → (p || q || r || s || t || u || v || w) ≡ (r || s || p || q || v || w || t || u)
swapped p q r s t u v w = ground arith

crossed_symm : (a b : Hashes) → crossed a b ≡ crossed b a
crossed_symm a b =
    swapped (same_given a.serial b.lan) (same_given a.serial b.hash) (same_given b.serial a.lan)
      (same_given b.serial a.hash) (same_given a.lan b.serial) (same_given a.lan b.hash)
      (same_given b.lan a.serial) (same_given b.lan a.hash)

complementary_symm : (a b : Hashes) → complementary a b ≡ complementary b a
complementary_symm a b = ground arith

-- Whether two contacts are joined does not depend on which of them comes first.
pub should_merge_contacts_symm :
    (a b : Card) → should_merge_contacts a b ≡ should_merge_contacts b a
unfolding should_merge_contacts
should_merge_contacts_symm a b =
    let x = normalize_contact a.entry in
    let y = normalize_contact b.entry in
    cc (
      any_shared_symm (contact_hashes x) (contact_hashes y),
      same_given_symm (no_colons x.identity_hash) (no_colons y.identity_hash),
      crossed_symm (transport_hashes x) (transport_hashes y),
      complementary_symm (transport_hashes x) (transport_hashes y),
    )
