-- ===== src/Offers/Refinement.antt =====
-- What the table of offers promises: a partial map in which an offer is there until it expires, is
-- popped or is removed. The code drops expired offers as it meets them; no caller can tell.
use mathlib.Core.Option
use mathlib.Core.Path.{ap₂}
use chatx.Prelude.{
  ℕ, ◌+◌, ◌≡◌, refl, Option, none, some, inl, inr, List, [], ◌∷◌, arith, ◌==◌, ltb, Option-cases,
  if◌then◌else◌,
}
use chatx.Text.{Str, str_eq, str_beq_iff}
use chatx.Dict.{lookup, IsDict}
use chatx.Dict.Laws.{lookup-insert, lookup-erase, lookup-erase_with}
use chatx.Offers.{
  Offer, Offers, progressed, is_expired, register_offer, set_offer_progress, get_offer_state,
  peek_offer, pop_offer, remove_offer, cleanup_expired,
}
use chatx.Offers.Calls.{
  Call, register, progress, get, peek, pop, remove, cleanup, exec, exec-IsDict,
}

abbrev pub Table : Type 0
Table = Str → Option Offer

abbrev pub live : ℕ → Option Offer → Option Offer
live now none = none
live now (some o) = if ltb o.expires now then none else some o

abbrev pub with_token : Str → Option Offer → Option Offer
with_token token none = none
with_token token (some o) = if o.token == token then some o else none

abbrev pub put : Str → Option Offer → Table → Table
put k o t = λ j. if k == j then o else t j

-- A pop takes the offer away exactly when it returns it.
abbrev pub taken : Str → Option Offer → Table → Table
taken id none t = t
taken id (some o) t = put id none t

-- The calls on the abstract map: nothing is dropped for its age.
unfoldable pub spec : Call → ℕ → Table → Option Offer × Table
spec (register id o) now t = (none, put id (some o) t)
spec (progress id n) now t = (none, put id (Option.map (progressed n) (t id)) t)
spec (get id) now t = (live now (t id), t)
spec (peek id token) now t = (with_token token (live now (t id)), t)
spec (pop id token) now t = let r = with_token token (live now (t id)) in (r, taken id r t)
spec (remove id) now t = (none, put id none t)
spec cleanup now t = (none, t)

-- The replies to a sequence of calls, each some time after the one before.
module _ {ℓ} {S : Type ℓ} (step : Call → ℕ → S → Option Offer × S) where
  unfoldable pub replies : ℕ → S → List (ℕ × Call) → List (Option Offer)
  replies now s [] = []
  replies now s ((wait, c) ∷ cs) =
      let (r, s') = step c (now + wait) s in r ∷ replies (now + wait) s' cs

abbrev Agree : ℕ → Offers → Table → Type 0
Agree now d t = (j : Str) → live now (lookup j d) ≡ live now (t j)

live-later :
    (now wait : ℕ) (o : Option Offer) → live (now + wait) (live now o) ≡ live (now + wait) o
live-later now wait o = ground arith

Agree-later : (now wait : ℕ) (d : Offers) (t : Table) → Agree now d t → Agree (now + wait) d t
Agree-later now wait d t h j = cc (h j, live-later now wait (lookup j d), live-later now wait (t j))

live-progressed :
    (now n : ℕ) (o : Option Offer)
    → live now (Option.map (progressed n) o) ≡ Option.map (progressed n) (live now o)
live-progressed now n none = refl
live-progressed now n (some o) = ground arith

module _ (now : ℕ) (d : Offers) (t : Table) (h : Agree now d t) where
  Agree-register : (id : Str) (o : Offer) → Agree now (register_offer id o d) (put id (some o) t)
  unfolding register_offer
  Agree-register id o j = ground (arith, lookup-insert j id o d, h j)

  Agree-erase : (id : Str) → Agree now (remove_offer id d) (put id none t)
  unfolding remove_offer
  Agree-erase id j = ground (arith, lookup-erase j id d, h j)

  Agree-progress :
      (id : Str) (n : ℕ)
      → Agree now (set_offer_progress id n d) (put id (Option.map (progressed n) (t id)) t)
  unfolding set_offer_progress
  Agree-progress id n j = elim (Option-cases (lookup id d)) [
    | inl e ↦
        rw (e, set_offer_progress)
          (ground (arith, h j, h id, live-progressed now n (t id), str_beq_iff id j))
    | inr (o, e) ↦
        rw (e, set_offer_progress)
          (ground (
            arith,
            h j,
            h id,
            live-progressed now n (t id),
            lookup-insert j id (progressed n o) d,
            str_beq_iff id j,
          ))
  ]

  get_lem : (id : Str) → (get_offer_state id now d).0 ≡ live now (t id)
  unfolding get_offer_state
  get_lem id = ground (arith, h id)

  peek_lem : (id token : Str) → (peek_offer id token now d).0 ≡ with_token token (live now (t id))
  unfolding peek_offer
  peek_lem id token = ground (arith, h id)

  pop_lem : (id token : Str) → (pop_offer id token now d).0 ≡ with_token token (live now (t id))
  unfolding pop_offer
  pop_lem id token = ground (arith, h id)

  Agree-get : (id : Str) → Agree now (get_offer_state id now d).1 t
  unfolding get_offer_state
  Agree-get id j = ground (arith, lookup-erase j id d, str_beq_iff id j, h j)

  Agree-peek : (id token : Str) → Agree now (peek_offer id token now d).1 t
  unfolding peek_offer
  Agree-peek id token j = ground (arith, lookup-erase j id d, str_beq_iff id j, h j)

  Agree-pop :
      (id token : Str)
      → Agree now (pop_offer id token now d).1 (taken id (with_token token (live now (t id))) t)
  unfolding pop_offer
  Agree-pop id token j = ground (arith, lookup-erase j id d, str_beq_iff id j, h j, h id)

  Agree-cleanup : IsDict d → Agree now (cleanup_expired now d) t
  unfolding cleanup_expired
  Agree-cleanup k j = ground (arith, lookup-erase_with (is_expired now) j d k, h j)

exec-spec_reply :
    (c : Call) (now : ℕ) (d : Offers) (t : Table)
    → Agree now d t
    → (exec c now d).0 ≡ (spec c now t).0
unfolding exec spec
exec-spec_reply (get id) now d t h = get_lem now d t h id
exec-spec_reply (peek id token) now d t h = peek_lem now d t h id token
exec-spec_reply (pop id token) now d t h = pop_lem now d t h id token
exec-spec_reply _ now d t h = refl

exec-spec-Agree :
    (c : Call) (now : ℕ) (d : Offers) (t : Table)
    → IsDict d
    → Agree now d t
    → Agree now (exec c now d).1 (spec c now t).1
unfolding exec spec
exec-spec-Agree (register id o) now d t k h = Agree-register now d t h id o
exec-spec-Agree (progress id n) now d t k h = Agree-progress now d t h id n
exec-spec-Agree (get id) now d t k h = Agree-get now d t h id
exec-spec-Agree (peek id token) now d t k h = Agree-peek now d t h id token
exec-spec-Agree (pop id token) now d t k h = Agree-pop now d t h id token
exec-spec-Agree (remove id) now d t k h = Agree-erase now d t h id
exec-spec-Agree cleanup now d t k h = Agree-cleanup now d t h k

replies-Agree :
    (now : ℕ) (d : Offers) (t : Table) (calls : List (ℕ × Call))
    → IsDict d
    → Agree now d t
    → replies exec now d calls ≡ replies spec now t calls
unfolding replies
replies-Agree now d t [] k h = refl
replies-Agree now d t ((wait, c) ∷ calls) k h =
    let later = Agree-later now wait d t h in
    ap₂ (◌∷◌) (exec-spec_reply c (now + wait) d t later) (
      replies-Agree (now + wait) (exec c (now + wait) d).1 (spec c (now + wait) t).1 calls
        (exec-IsDict c (now + wait) d k) (exec-spec-Agree c (now + wait) d t k later))

-- Whatever is called, and whenever, from a table without double keys: each call replies what it would
-- reply on the partial map that never drops an expired offer but hides it.
pub replies-exec-spec :
    (now : ℕ) (d : Offers) (calls : List (ℕ × Call))
    → IsDict d
    → replies exec now d calls ≡ replies spec now (λ j. lookup j d) calls
replies-exec-spec now d calls k = replies-Agree now d (λ j. lookup j d) calls k (λ j. refl)
