-- ===== src/Offers/Calls.antt =====
-- The calls of chatx5/core/lan_transfer.py as data, what each returns and leaves behind, and that the
-- table stays a `dict` under all of them.
use chatx.Prelude.{ℕ, Option, none, inl, inr, arith, Option-cases}
use chatx.Text.{Str}
use chatx.Dict.{lookup, IsDict}
use chatx.Dict.Laws.{insert-IsDict, erase-IsDict, erase_all-IsDict}
use chatx.Offers.{
  Offer, Offers, progressed, register_offer, set_offer_progress, get_offer_state, peek_offer,
  pop_offer, remove_offer, cleanup_expired,
}

pub data Call : Type 0 where
  register : Str → Offer → Call
  progress : Str → ℕ → Call
  get : Str → Call
  peek pop : Str → Str → Call
  remove : Str → Call
  cleanup : Call

-- A call at a time: its reply and the table after it.
unfoldable pub exec : Call → ℕ → Offers → Option Offer × Offers
exec (register id o) now d = (none, register_offer id o d)
exec (progress id n) now d = (none, set_offer_progress id n d)
exec (get id) now d = get_offer_state id now d
exec (peek id token) now d = peek_offer id token now d
exec (pop id token) now d = pop_offer id token now d
exec (remove id) now d = (none, remove_offer id d)
exec cleanup now d = (none, cleanup_expired now d)

pub exec-IsDict : (c : Call) (now : ℕ) (d : Offers) → IsDict d → IsDict (exec c now d).1
unfolding exec register_offer set_offer_progress get_offer_state peek_offer pop_offer remove_offer
    cleanup_expired
exec-IsDict (register id o) now d h = insert-IsDict id o d h
exec-IsDict (progress id n) now d h = elim (Option-cases (lookup id d)) [
  | inl e ↦ rw (e, set_offer_progress) h
  | inr (o, e) ↦ rw (e, set_offer_progress) (insert-IsDict id (progressed n o) d h)
]
exec-IsDict (get id) now d h = ground (arith, erase-IsDict id d)
exec-IsDict (peek id token) now d h = ground (arith, erase-IsDict id d)
exec-IsDict (pop id token) now d h = ground (arith, erase-IsDict id d)
exec-IsDict (remove id) now d h = erase-IsDict id d h
exec-IsDict cleanup now d h = erase_all-IsDict _ d h
