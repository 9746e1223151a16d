-- ===== src/Aliases/Canonical.antt =====
-- Destination hashes are canonical: what `dest_hash_for` returns, and when two hashes are equivalent.
use chatx.Prelude.{
  ◌∷◌, false, inl, inr, Bool-cases, ◌≢◌, ◌≡◌, refl, ap, sym, keep, ◌∙◌, true, some, [], arith, ◌==◌,
  Option-cases,
}
use chatx.Text.{Str, truthy, str_eq, remove_char, strip, lower, str_beq_iff}
use chatx.Dict.{lookup}
use chatx.Dict.Laws.{lookup-insert}
use chatx.Hash.{normalize_hash, normalize_hash_idem}
use chatx.Aliases.{
  Aliases, is_in, note_identity, register_peer_mapping, dest_of, dest_hash_for, hashes_equivalent,
}

-- Every destination that an identity leads to is known as a destination, normalised and not empty.
pub record IsSound (a : Aliases) : Type 0 where
  pub known :
      (k v : Str)
      → lookup k a.identity_to_dest ≡ some v
      → is_in (lookup v a.dest_to_identity) ≡ true
  pub normal : (k v : Str) → lookup k a.identity_to_dest ≡ some v → normalize_hash v ≡ v
  pub not_empty : (k v : Str) → lookup k a.identity_to_dest ≡ some v → truthy v ≡ true

pub empty_aliases-IsSound : IsSound (record { identity_to_dest = []; dest_to_identity = [] })
unfolding lookup
empty_aliases-IsSound = record {
  known = λ k v e. absurd (cc);
  normal = λ k v e. absurd (cc);
  not_empty = λ k v e. absurd (cc);
}

note_identity-IsSound :
    (dest ident : Str) (a : Aliases)
    → normalize_hash dest ≡ dest
    → truthy dest ≡ true
    → IsSound a
    → IsSound (note_identity dest ident a)
unfolding note_identity
note_identity-IsSound dest ident a n t s = record {
  known = λ k v e. ground (
    arith,
    s.known k v,
    lookup-insert k ident dest a.identity_to_dest,
    lookup-insert v dest ident a.dest_to_identity,
    str_beq_iff dest v,
  );
  normal = λ k v e. ground (arith, s.normal k v, lookup-insert k ident dest a.identity_to_dest);
  not_empty =
      λ k v e. ground (arith, s.not_empty k v, lookup-insert k ident dest a.identity_to_dest);
}

-- Sound maps stay sound when a destination and an identity are registered, whatever the two hashes are:
-- every destination that an identity leads to is known as a destination, in normal form, and not empty.
pub register_peer_mapping-IsSound :
    (dest_hash identity_hash : Str) (a : Aliases)
    → IsSound a
    → IsSound (register_peer_mapping dest_hash identity_hash a)
unfolding register_peer_mapping
register_peer_mapping-IsSound dest_hash identity_hash a s =
    let d = normalize_hash dest_hash in
    elim (Bool-cases (truthy d)) [
      | inl t ↦
          let noted =
            note_identity-IsSound d (normalize_hash identity_hash) a (normalize_hash_idem dest_hash)
              t s in
          ground (arith, noted)
      | inr empty ↦ ground arith
    ]

normalize_hash_nil : normalize_hash [] ≡ []
unfolding normalize_hash remove_char keep strip lower
normalize_hash_nil = refl

module _ (a : Aliases) (c : Str) (s : IsSound a) where
  dest_of-normal : normalize_hash c ≡ c → normalize_hash (dest_of a c) ≡ dest_of a c
  unfolding dest_of
  dest_of-normal n = elim (Option-cases (lookup c a.identity_to_dest)) [
    | inl e ↦ ground (arith, normalize_hash_nil)
    | inr (v, e) ↦ ground (arith, s.normal c v e, normalize_hash_nil)
  ]

  dest_of_twice : dest_of a (dest_of a c) ≡ dest_of a c
  unfolding dest_of
  dest_of_twice = elim (Option-cases (lookup c a.identity_to_dest)) [
    | inl e ↦ ground arith
    | inr (v, e) ↦ ground (arith, s.known c v e)
  ]

-- A destination hash is its own destination hash.
pub dest_hash_for_idem :
    (a : Aliases) (h : Str) → IsSound a → dest_hash_for a (dest_hash_for a h) ≡ dest_hash_for a h
unfolding dest_hash_for
dest_hash_for_idem a h s =
    let c = normalize_hash h in
    ap (dest_of a) (dest_of-normal a c s (normalize_hash_idem h)) ∙ dest_of_twice a c s

-- Whether two hashes are equivalent does not depend on their order.
pub hashes_equivalent_symm :
    (m : Aliases) (a b : Str) → hashes_equivalent m a b ≡ hashes_equivalent m b a
unfolding hashes_equivalent
hashes_equivalent_symm m a b = ground (
  arith,
  str_beq_iff (dest_hash_for m a) (dest_hash_for m b),
  str_beq_iff (dest_hash_for m b) (dest_hash_for m a),
  str_beq_iff a b,
  str_beq_iff b a,
)

dest_of-truthy : (m : Aliases) (c : Str) → truthy c ≡ true → truthy (dest_of m c) ≡ true
unfolding dest_of
dest_of-truthy m c h = ground arith

equivalent_of_same :
    (m : Aliases) (x y : Str)
    → truthy (dest_hash_for m x) ≡ true
    → dest_hash_for m x ≡ dest_hash_for m y
    → hashes_equivalent m x y ≡ true
unfolding hashes_equivalent
equivalent_of_same m x y h e = ground (arith, str_beq_iff (dest_hash_for m x) (dest_hash_for m y))

equivalent_of_mapped :
    (m : Aliases) (x y : Str)
    → truthy (dest_hash_for m x) ≡ true
    → truthy (dest_hash_for m y) ≡ true
    → lookup (normalize_hash x) m.identity_to_dest ≡ some (dest_hash_for m y)
    → hashes_equivalent m x y ≡ true
unfolding hashes_equivalent
equivalent_of_mapped m x y h k e =
    ground (arith, str_beq_iff (dest_hash_for m y) (dest_hash_for m y))

noted :
    (d i : Str) (a : Aliases)
    → (i == d) ≡ false
    → truthy d ≡ true
    → truthy i ≡ true
    → (dest_of (note_identity d i a) d ≡ d)
      × (lookup i (note_identity d i a).identity_to_dest ≡ some d)
unfolding note_identity dest_of
noted d i a other hd hi = ground (
  arith,
  lookup-insert d d i a.dest_to_identity,
  lookup-insert i i d a.identity_to_dest,
  str_beq_iff d d,
  str_beq_iff i i,
)

registered :
    (d i dh ih : Str) (a : Aliases)
    → truthy d ≡ true
    → truthy i ≡ true
    → normalize_hash dh ≡ d
    → normalize_hash ih ≡ i
    → register_peer_mapping dh ih a ≡ note_identity d i a
unfolding register_peer_mapping
registered d i dh [] a td ti ed ei = absurd (ground (arith, normalize_hash_nil))
registered d i dh (c ∷ ih) a td ti ed ei = rw (ed, ei, register_peer_mapping) (ground arith)

-- Once a destination and an identity have been registered together, neither of them empty in normal form,
-- they are equivalent.
pub register_peer_mapping-equivalent :
    (dest_hash identity_hash : Str) (a : Aliases)
    → normalize_hash dest_hash ≢ []
    → normalize_hash identity_hash ≢ []
    → hashes_equivalent (register_peer_mapping dest_hash identity_hash a) identity_hash dest_hash
      ≡ true
unfolding dest_hash_for
register_peer_mapping-equivalent dh ih a hd hi =
    let d = normalize_hash dh in
    let i = normalize_hash ih in
    let m = register_peer_mapping dh ih a in
    let td : truthy d ≡ true = ground arith in
    let ti : truthy i ≡ true = ground arith in
    elim (Bool-cases (i == d)) [
      | inl same ↦
          equivalent_of_same m ih dh (dest_of-truthy m i ti)
            (ap (dest_of m) ((str_beq_iff i d).0 same))
      | inr other ↦
          let e : m ≡ note_identity d i a = registered d i dh ih a td ti refl refl in
          let n = noted d i a other td ti in
          equivalent_of_mapped m ih dh (dest_of-truthy m i ti) (dest_of-truthy m d td)
            (rw e (n.1 ∙ ap some (sym n.0)))
    ]
