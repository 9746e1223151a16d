-- ===== src/Offers/Once.antt =====
-- A popped offer is gone.
use chatx.Prelude.{ℕ, ◌+◌, ◌≡◌, ◌≢◌, none, inl, inr, List, [], ◌∷◌, arith, All, Option-cases}
use chatx.Text.{Str, str_eq, str_beq_iff}
use chatx.Dict.{lookup, IsDict}
use chatx.Dict.Laws.{lookup-insert, lookup-erase, lookup-erase_with}
use chatx.Offers.{
  Offers, progressed, is_expired, register_offer, set_offer_progress, get_offer_state, peek_offer,
  pop_offer, remove_offer, cleanup_expired,
}
use chatx.Offers.Calls.{
  Call, register, progress, get, peek, pop, remove, cleanup, exec, exec-IsDict,
}

-- The table after a sequence of calls, each some time after the one before.
unfoldable pub after : ℕ → Offers → List (ℕ × Call) → Offers
after now d [] = d
after now d ((wait, c) ∷ cs) = after (now + wait) (exec c (now + wait) d).1 cs

-- The call does not register an offer under the id.
abbrev pub Leaves : Str → Call → Type 0
Leaves id (register j o) = j ≢ id
Leaves id _ = Unit

exec-stays_none :
    (id : Str) (c : Call) (now : ℕ) (d : Offers)
    → IsDict d
    → Leaves id c
    → lookup id d ≡ none
    → lookup id (exec c now d).1 ≡ none
unfolding exec register_offer set_offer_progress get_offer_state peek_offer pop_offer remove_offer
    cleanup_expired
exec-stays_none id (register j o) now d k l h =
    ground (arith, lookup-insert id j o d, str_beq_iff j id)
exec-stays_none id (progress j n) now d k l h = elim (Option-cases (lookup j d)) [
  | inl e ↦ rw (e, set_offer_progress) h
  | inr (o, e) ↦
      rw (e, set_offer_progress)
        (ground (arith, lookup-insert id j (progressed n o) d, str_beq_iff j id))
]
exec-stays_none id (get j) now d k l h = ground (arith, lookup-erase id j d)
exec-stays_none id (peek j token) now d k l h = ground (arith, lookup-erase id j d)
exec-stays_none id (pop j token) now d k l h = ground (arith, lookup-erase id j d)
exec-stays_none id (remove j) now d k l h = ground (arith, lookup-erase id j d)
exec-stays_none id cleanup now d k l h = ground (arith, lookup-erase_with (is_expired now) id d k)

after-stays_none :
    (id : Str) (now : ℕ) (d : Offers) (calls : List (ℕ × Call))
    → IsDict d
    → All (λ c. Leaves id c.1) calls
    → lookup id d ≡ none
    → lookup id (after now d calls) ≡ none
unfolding after
after-stays_none id now d [] k l h = h
after-stays_none id now d ((wait, c) ∷ calls) k l h =
    after-stays_none id (now + wait) (exec c (now + wait) d).1 calls
      (exec-IsDict c (now + wait) d k) l.1 (exec-stays_none id c (now + wait) d k l.0 h)

pop-gone :
    (id token : Str) (now : ℕ) (d : Offers)
    → (pop_offer id token now d).0 ≢ none
    → lookup id (pop_offer id token now d).1 ≡ none
unfolding pop_offer
pop-gone id token now d h = ground (arith, lookup-erase id id d, str_beq_iff id id)

-- When a pop has returned the offer, no sequence of calls that does not register the id again brings
-- it back.
pub pop_once :
    (id token : Str) (now : ℕ) (d : Offers) (calls : List (ℕ × Call))
    → IsDict d
    → (pop_offer id token now d).0 ≢ none
    → All (λ c. Leaves id c.1) calls
    → lookup id (after now (pop_offer id token now d).1 calls) ≡ none
pop_once id token now d calls k h l =
    after-stays_none id now (pop_offer id token now d).1 calls
      (unfold exec in exec-IsDict (pop id token) now d k) l (pop-gone id token now d h)
