-- ===== src/Scope/Equivalence.antt =====
-- `same_lan_scope` is an equivalence between the addresses of four parts.
use chatx.Prelude.{◌≡◌, refl, ◌↔◌, ◌≢◌, true, [], ◌∷◌, Option, none, some, arith}
use chatx.Prelude.Int.{ℤ, pos}
use chatx.Text.{Str, str_beq_iff}
use chatx.Text.Parts.{split, int}
use chatx.Scope.{Quad, quad_of, private_range, numbers_match, quads_match, same_lan_scope}

private_range_symm : (a0 a1 b0 b1 : ℤ) → private_range a0 a1 b0 b1 ≡ private_range b0 b1 a0 a1
unfolding private_range
private_range_symm (pos a0) (pos a1) (pos b0) (pos b1) = ground arith
private_range_symm a0 a1 b0 b1 = ground arith

private_range_trans :
    (a0 a1 b0 b1 c0 c1 : ℤ)
    → private_range a0 a1 b0 b1 ≡ true
    → private_range b0 b1 c0 c1 ≡ true
    → private_range a0 a1 c0 c1 ≡ true
unfolding private_range
private_range_trans a0 a1 b0 b1 c0 c1 h k = ground arith

numbers_match_symm :
    (a0 a1 b0 b1 : Option ℤ) → numbers_match a0 a1 b0 b1 ≡ numbers_match b0 b1 a0 a1
unfolding numbers_match
numbers_match_symm (some a0) (some a1) (some b0) (some b1) = private_range_symm a0 a1 b0 b1
numbers_match_symm a0 a1 b0 b1 = ground arith

numbers_match_trans :
    (a0 a1 b0 b1 c0 c1 : Option ℤ)
    → numbers_match a0 a1 b0 b1 ≡ true
    → numbers_match b0 b1 c0 c1 ≡ true
    → numbers_match a0 a1 c0 c1 ≡ true
unfolding numbers_match
numbers_match_trans (some a0) (some a1) (some b0) (some b1) (some c0) (some c1) h k =
    private_range_trans a0 a1 b0 b1 c0 c1 h k
numbers_match_trans a0 a1 b0 b1 c0 c1 h k = ground arith

quads_match_symm : (a b : Option Quad) → quads_match a b ≡ quads_match b a
unfolding quads_match
quads_match_symm none none = refl
quads_match_symm none (some b) = refl
quads_match_symm (some a) none = refl
quads_match_symm (some a) (some b) = ground (
  arith,
  numbers_match_symm (int a.p0) (int a.p1) (int b.p0) (int b.p1),
  str_beq_iff a.p0 b.p0,
  str_beq_iff b.p0 a.p0,
  str_beq_iff a.p1 b.p1,
  str_beq_iff b.p1 a.p1,
  str_beq_iff a.p2 b.p2,
  str_beq_iff b.p2 a.p2,
)

quads_match_trans :
    (a b c : Option Quad) → quads_match a b ≡ true → quads_match b c ≡ true → quads_match a c ≡ true
unfolding quads_match
quads_match_trans none b c h k = absurd (ground arith)
quads_match_trans (some a) none c h k = absurd (ground arith)
quads_match_trans (some a) (some b) none h k = absurd (ground arith)
quads_match_trans (some a) (some b) (some c) h k = ground (
  arith,
  numbers_match_trans (int a.p0) (int a.p1) (int b.p0) (int b.p1) (int c.p0) (int c.p1),
  str_beq_iff a.p0 b.p0,
  str_beq_iff b.p0 c.p0,
  str_beq_iff a.p0 c.p0,
  str_beq_iff a.p1 b.p1,
  str_beq_iff b.p1 c.p1,
  str_beq_iff a.p1 c.p1,
  str_beq_iff a.p2 b.p2,
  str_beq_iff b.p2 c.p2,
  str_beq_iff a.p2 c.p2,
)

-- Whether two addresses share a scope does not depend on their order.
pub same_lan_scope_symm : (a b : Str) → same_lan_scope a b ≡ same_lan_scope b a
unfolding same_lan_scope
same_lan_scope_symm a b = ground (arith, quads_match_symm (quad_of a) (quad_of b))

-- Two addresses that each share a scope with a third share one with each other, also where one
-- match is by the first three parts and the other by a private range.
pub same_lan_scope_trans :
    (a b c : Str)
    → same_lan_scope a b ≡ true
    → same_lan_scope b c ≡ true
    → same_lan_scope a c ≡ true
unfolding same_lan_scope
same_lan_scope_trans a b c h k =
    ground (arith, quads_match_trans (quad_of a) (quad_of b) (quad_of c))

quads_match_self : (q : Quad) → quads_match (some q) (some q) ≡ true
unfolding quads_match
quads_match_self q =
    ground (arith, str_beq_iff q.p0 q.p0, str_beq_iff q.p1 q.p1, str_beq_iff q.p2 q.p2)

self_of_quad : (o : Option Quad) → (quads_match o o ≡ true) ↔ (o ≢ none)
unfolding quads_match
self_of_quad none = ground arith
self_of_quad (some q) = ground (arith, quads_match_self q)

-- An address shares a scope with itself exactly when it has four parts between dots.
pub same_lan_scope-self_iff : (a : Str) → (same_lan_scope a a ≡ true) ↔ (quad_of a ≢ none)
unfolding same_lan_scope split
same_lan_scope-self_iff [] = ground arith
same_lan_scope-self_iff (c ∷ s) = self_of_quad (quad_of (c ∷ s))
