-- ===== src/Targets/Distinct.antt =====
-- No address is sent to twice.
use chatx.Prelude.{
  ◌≡◌, refl, inl, inr, Bool, false, ◌||◌, List, [], ◌∷◌, ◌++◌, map, arith, Bool-cases, ◌==◌, nat_eq,
  contains,
}
use chatx.Text.{Str, codes, truthy, strip, str_eq, str_beq_iff}
use chatx.Text.Parts.{split}
use chatx.Targets.{
  Interface, add_new, put_first, iface_targets, directed_broadcasts, add_all, sample_subnet_hosts,
  efficient_unicast_hosts, with_sample, with_directed, dotted,
}

abbrev pub Distinct : List Str → Type 0
Distinct [] = Unit
Distinct (x ∷ xs) = (contains x xs ≡ false) × Distinct xs

contains-snoc :
    (x y : Str) (xs : List Str) → contains x (xs ++ (y ∷ [])) ≡ (contains x xs || x == y)
unfolding contains
contains-snoc x y [] = ground arith
contains-snoc x y (z ∷ xs) = ground (arith, contains-snoc x y xs)

snoc-Distinct :
    (xs : List Str) (y : Str) → Distinct xs → contains y xs ≡ false → Distinct (xs ++ (y ∷ []))
unfolding contains
snoc-Distinct [] y d h = (refl, tt)
snoc-Distinct (x ∷ xs) y d h =
    ground (arith, snoc-Distinct xs y, contains-snoc x y xs, str_beq_iff x y, str_beq_iff y x)

add_new-Distinct : (x : Str) (xs : List Str) → Distinct xs → Distinct (add_new x xs)
add_new-Distinct x xs d = ground (arith, snoc-Distinct xs x d)

put_first-Distinct : (x : Str) (xs : List Str) → Distinct xs → Distinct (put_first x xs)
put_first-Distinct x xs d = ground arith

iface_targets-Distinct :
    (is : List Interface) (xs : List Str) → Distinct xs → Distinct (iface_targets xs is)
unfolding iface_targets
iface_targets-Distinct [] xs d = d
iface_targets-Distinct (i ∷ is) xs d =
    iface_targets-Distinct is (add_new i.subnet_broadcast (add_new i.broadcast xs)) (
      add_new-Distinct i.subnet_broadcast (add_new i.broadcast xs)
        (add_new-Distinct i.broadcast xs d))

add_all-Distinct : (ys xs : List Str) → Distinct xs → Distinct (add_all ys xs)
unfolding add_all
add_all-Distinct [] xs d = d
add_all-Distinct (y ∷ ys) xs d = add_all-Distinct ys (add_new y xs) (add_new-Distinct y xs d)

with_sample-Distinct :
    (android : Bool) (parts xs : List Str) → Distinct xs → Distinct (with_sample android parts xs)
with_sample-Distinct android [] xs d = d
with_sample-Distinct android (a ∷ []) xs d = d
with_sample-Distinct android (a ∷ b ∷ []) xs d = d
with_sample-Distinct android (a ∷ b ∷ c ∷ []) xs d = d
with_sample-Distinct android (a ∷ b ∷ c ∷ e ∷ []) xs d =
    add_all-Distinct (sample_subnet_hosts android (dotted a b c) e) xs d
with_sample-Distinct android (a ∷ b ∷ c ∷ e ∷ f ∷ parts) xs d = d

with_directed-Distinct : (parts xs : List Str) → Distinct xs → Distinct (with_directed parts xs)
with_directed-Distinct [] xs d = d
with_directed-Distinct (a ∷ []) xs d = d
with_directed-Distinct (a ∷ b ∷ []) xs d = d
with_directed-Distinct (a ∷ b ∷ c ∷ []) xs d = d
with_directed-Distinct (a ∷ b ∷ c ∷ e ∷ []) xs d =
    put_first-Distinct (dotted a b c (codes "255")) xs d
with_directed-Distinct (a ∷ b ∷ c ∷ e ∷ f ∷ parts) xs d = d

-- Neither the broadcasts nor the single hosts that discovery sends to hold an address twice, whatever
-- the interfaces, the address of the machine, the known addresses and the peer's are.
pub targets-Distinct :
    (ifaces : List Interface) (android : Bool) (ip : Str) (known_ips : List Str) (peer_ip : Str)
    → Distinct (directed_broadcasts ifaces ip)
      × Distinct (efficient_unicast_hosts android ip known_ips peer_ip)
unfolding directed_broadcasts efficient_unicast_hosts
targets-Distinct ifaces android ip known_ips peer_ip =
    let broadcasts = iface_targets-Distinct ifaces [] tt in
    let known =
      put_first-Distinct (strip peer_ip) (add_all (map strip known_ips) [])
        (add_all-Distinct (map strip known_ips) [] tt) in
    let ts = iface_targets [] ifaces in
    let everyone = codes "255.255.255.255" in
    let ks = put_first (strip peer_ip) (add_all (map strip known_ips) []) in
    elim (Bool-cases (truthy ip)) [
      | inl given ↦ rw given (
        add_new-Distinct everyone (with_directed (split b'.' ip) ts)
            (with_directed-Distinct (split b'.' ip) ts broadcasts),
        with_sample-Distinct android (split b'.' ip) ks known,
      )
      | inr missing ↦ rw missing (add_new-Distinct everyone ts broadcasts, known)
    ]
