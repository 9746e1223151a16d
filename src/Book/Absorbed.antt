-- ===== src/Book/Absorbed.antt =====
-- The second loop of `list_contacts` (chatx5/core/contacts.py), which joins contacts pair by pair, comes to
-- its end.
use chatx.Prelude.{
  ℕ, zero, suc, ◌≤◌, ◌≡◌, refl, ap, List, [], ◌∷◌, ◌++◌, arith, if◌then◌else◌, nat_eq, length,
}
use chatx.Text.{Str}
use chatx.Book.{Card, normalize_card}
use chatx.Book.Merge.{should_merge_contacts, merge_contact_entries}
use chatx.Book.Files.{absorb, absorb_all}

-- A contact takes in later ones; it brings in none.
length-absorb-le : (c : Card) (cs : List Card) → length (absorb c cs).0.1 ≤ length cs
unfolding absorb
length-absorb-le c [] = omega arith
length-absorb-le c (d ∷ cs) = ground (
  arith,
  length-absorb-le (if should_merge_contacts c d then merge_contact_entries c d else c) cs,
)

-- Two numbers of rounds that are both enough give the same contacts.
absorb_all_rounds :
    (m n : ℕ) (cs : List Card) → length cs ≤ m → length cs ≤ n → absorb_all m cs ≡ absorb_all n cs
unfolding absorb_all
absorb_all_rounds zero zero cs a b = refl
absorb_all_rounds zero (suc n) [] a b = refl
absorb_all_rounds (suc m) zero [] a b = refl
absorb_all_rounds (suc m) (suc n) [] a b = refl
absorb_all_rounds zero (suc n) (c ∷ cs) a b = absurd (omega arith)
absorb_all_rounds (suc m) zero (c ∷ cs) a b = absurd (omega arith)
absorb_all_rounds (suc m) (suc n) (c ∷ cs) a b =
    let r = absorb (normalize_card c) cs in
    let le = length-absorb-le (normalize_card c) cs in
    ap (λ (rest : List Card × List Str). (r.0.0 ∷ rest.0, r.1 ++ rest.1))
      (absorb_all_rounds m n r.0.1 (omega (arith, le)) (omega (arith, le)))
