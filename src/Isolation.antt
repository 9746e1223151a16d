-- ===== src/Isolation.antt =====
-- Serial and LAN interfaces are kept apart (chatx5/core/transport_isolation.py). The interfaces are Reticulum's:
-- a type with equality, and `interface_family` are parameters; a family that is not known is the
-- empty text.
mod Tests
use chatx.Prelude.{
  ℕ, zero, suc, ◌+◌, ◌-◌, ◌*◌, ◌/◌, ◌%◌, ◌≤◌, ◌<◌, max, min, ◌≡◌, refl, sym, ap, ◌∙◌, ◌≢◌, ◌↔◌, ◌⊎◌,
  inl, inr, Bool, true, false, not, ◌&&◌, ◌||◌, Option, none, some, List, [], ◌∷◌, ◌++◌, map,
  append-nil, append_assoc, arith, ltb, leb, nat_beq, nat_beq_iff, if◌then◌else◌, Bool-cases,
  Option-cases, Eq, ◌==◌, nat_eq, contains, length, drop, take, keep, count, any, all,
  length-append, length-drop, length-keep-le, keep-append, keep-keep, All, All-append, All-keep,
  All-drop,
}
use chatx.Text.{Str, codes, truthy, str_eq, str_beq_iff, str_beq}

abbrev pub serial : Str
serial = codes "serial"

unfoldable pub is_lan_family : Str → Bool
unfolding contains
is_lan_family family = contains family (codes "udp" ∷ codes "lan" ∷ codes "tcp" ∷ [])

unfoldable pub families_compatible : Str → Str → Bool
families_compatible source target =
    if not (truthy source) || not (truthy target)
    then true
    else if source == serial && is_lan_family target
    then false
    else not (target == serial && is_lan_family source)

-- One of the two is serial and the other is on the LAN.
abbrev pub crosses : Str → Str → Bool
crosses f g = (f == serial && is_lan_family g) || (g == serial && is_lan_family f)

families_compatible-crosses : (f g : Str) → families_compatible f g ≡ not (crosses f g)
unfolding families_compatible is_lan_family contains str_beq
families_compatible-crosses [] [] = refl
families_compatible-crosses [] (d ∷ g) = ground arith
families_compatible-crosses (c ∷ f) [] = ground arith
families_compatible-crosses (c ∷ f) (d ∷ g) = ground (arith, is_lan_family, str_beq)

module _ {ℓ} {I : Type ℓ} ⦃e : Eq I⦄ (interface_family : I → Str) where
  -- `dual_transport_isolation_enabled`, of the interfaces that are online.
  unfoldable pub dual_transport_isolation_enabled : Bool → List I → Bool
  dual_transport_isolation_enabled serial_online online =
      serial_online && any (λ i. is_lan_family (interface_family i)) online

  others : I → List I → List I
  others attached [] = []
  others attached (i ∷ is) =
      let rest = others attached is in
      if i == attached
      then rest
      else if families_compatible (interface_family attached) (interface_family i)
      then i ∷ rest
      else rest

  -- `_filter_interfaces`
  unfoldable pub filter_interfaces : Bool → Option I → List I → List I
  unfolding others
  filter_interfaces enabled none interfaces = interfaces
  filter_interfaces enabled (some attached) interfaces =
      let source = interface_family attached in
      if not enabled
      then interfaces
      else if not (source == serial) && not (is_lan_family source)
      then interfaces
      else others attached interfaces

  contains-others :
      (attached i : I) (is : List I)
      → contains i (others attached is) ≡ (
          contains i is
          && not (i == attached)
          && not (crosses (interface_family attached) (interface_family i)))
  unfolding others contains
  contains-others attached i [] = refl
  contains-others attached i (j ∷ is) = ground (
    arith,
    contains-others attached i is,
    e.test_iff i j,
    e.test_iff i attached,
    e.test_iff j attached,
    families_compatible-crosses (interface_family attached) (interface_family j),
  )

-- With isolation on, a request that came in on a serial or a LAN interface goes out exactly on the
-- other interfaces that do not cross between serial and LAN.
pub filter_interfaces_lem {ℓ} :
    {I : Type ℓ} ⦃e : Eq I⦄ (interface_family : I → Str) (attached i : I) (interfaces : List I)
    → (interface_family attached == serial || is_lan_family (interface_family attached)) ≡ true
    → contains i (filter_interfaces interface_family true (some attached) interfaces) ≡ (
        contains i interfaces
        && not (i == attached)
        && not (crosses (interface_family attached) (interface_family i)))
unfolding filter_interfaces
filter_interfaces_lem family attached i interfaces known =
    ground (arith, contains-others family attached i interfaces)
