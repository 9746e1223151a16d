-- ===== src/Failover/Order.antt =====
-- What the lists of transports promise.
use chatx.Prelude.{
  ◌∙◌, ◌==◌, ◌&&◌, false, ◌≡◌, refl, inl, inr, Bool, true, false, ◌||◌, some, List, [], ◌∷◌, arith,
  if◌then◌else◌, Bool-cases, nat_eq, contains, all,
}
use chatx.Failover.{
  tcp, Family, Situation, Session, no_session, other_session, serial_session, lan_session, is_lan,
  is_serial, is_expected, order, expected_of, failover_families_to_try, preferred_failover_family,
  family_eq, serial, only_serial, unlocked_families, lan_families, udp_up, tcp_up, Session,
  same_family, lan_up,
}

-- A transport that may be tried where no pick of the user binds.
abbrev pub unpicked : Situation → Family → Bool
unpicked s f =
    if s.hub
    then f == tcp
    else if s.via_serial
    then is_serial f && s.serial_ready
    else is_expected s.expected f

-- A transport that may be tried.
abbrev pub permitted : Situation → Family → Bool
permitted s f = elim s.session [
  | lan_session ↦ is_lan f
  | serial_session ↦ if s.serial_ready then is_serial f else unpicked s f
  | _ ↦ unpicked s f
]

abbrev pub Distinct : List Family → Type 0
Distinct [] = Unit
Distinct (f ∷ fs) = (contains f fs ≡ false) × Distinct fs

expected_of_expected :
    (expected seen fs : List Family)
    → all (is_expected expected) (expected_of expected seen fs) ≡ true
unfolding expected_of
expected_of_expected expected seen [] = refl
expected_of_expected expected seen (f ∷ fs) =
    ground
      (arith, expected_of_expected expected seen fs, expected_of_expected expected (f ∷ seen) fs)

contains-expected_of :
    (expected seen fs : List Family) (f : Family)
    → contains f seen ≡ true
    → contains f (expected_of expected seen fs) ≡ false
unfolding expected_of contains
contains-expected_of expected seen [] f h = refl
contains-expected_of expected seen (g ∷ fs) f h = ground (
  arith,
  contains-expected_of expected seen fs f h,
  contains-expected_of expected (g ∷ seen) fs f,
  family_eq.test_iff f g,
)

expected_of-Distinct : (expected seen fs : List Family) → Distinct (expected_of expected seen fs)
unfolding expected_of contains
expected_of-Distinct expected seen [] = tt
expected_of-Distinct expected seen (f ∷ fs) =
    let here : contains f (f ∷ seen) ≡ true = rw ((family_eq.test_iff f f).1 refl) refl in
    ground (
      arith,
      expected_of-Distinct expected seen fs,
      expected_of-Distinct expected (f ∷ seen) fs,
      contains-expected_of expected (f ∷ seen) fs f here,
    )

all_mono :
    (f g : Family → Bool)
    → ((x : Family) → f x ≡ true → g x ≡ true)
    → (xs : List Family) → all f xs ≡ true
    → all g xs ≡ true
all_mono f g h [] k = refl
all_mono f g h (x ∷ xs) k = ground (arith, all_mono f g h xs, h x)

only_serial_expected :
    (expected : List Family) → only_serial expected ≡ true → is_expected expected serial ≡ true
only_serial_expected [] h = refl
only_serial_expected (e ∷ es) h = ground arith

module _ (s : Situation) where
  unlocked_expected :
      s.hub ≡ false
      → s.via_serial ≡ false
      → all (is_expected s.expected) (expected_of s.expected [] (order s)) ≡ true
      → Distinct (expected_of s.expected [] (order s))
      → (all (unpicked s) (unlocked_families s) ≡ true) × Distinct (unlocked_families s)
  unfolding contains
  unlocked_expected no_hub no_via one two =
      let out = expected_of s.expected [] (order s) in
      let all_out : all (unpicked s) out ≡ true =
        all_mono (is_expected s.expected) (unpicked s) (λ f h. ground arith) out one in
      ground (arith, all_out, two, only_serial_expected s.expected)

  unlocked_lem : (all (unpicked s) (unlocked_families s) ≡ true) × Distinct (unlocked_families s)
  unfolding contains same_family
  unlocked_lem =
      let one = expected_of_expected s.expected [] (order s) in
      let two = expected_of-Distinct s.expected [] (order s) in
      elim (Bool-cases s.hub) [
        | inl hub ↦ ground arith
        | inr no_hub ↦ elim (Bool-cases s.via_serial) [
          | inl via ↦ ground arith
          | inr no_via ↦ unlocked_expected no_hub no_via one two
        ]
      ]

  lan_lem : (all is_lan (lan_families s) ≡ true) × Distinct (lan_families s)
  unfolding contains same_family
  lan_lem = ground arith

if_not {ℓ} : {A : Type ℓ} (b : Bool) (x y : A) → b ≡ false → (if b then x else y) ≡ y
if_not b x y h = rw h refl

not_ready :
    (s : Situation)
    → s.session ≡ serial_session
    → s.serial_ready ≡ false
    → (all (permitted s) (failover_families_to_try s) ≡ true)
      × Distinct (failover_families_to_try s)
unfolding failover_families_to_try order lan_up
not_ready s e gone =
    let same : failover_families_to_try s ≡ unlocked_families s =
      rw (e, failover_families_to_try)
        (if_not s.serial_ready (serial ∷ []) (unlocked_families s) gone) in
    let free = unlocked_lem s in
    rw same (
      all_mono (unpicked s) (permitted s)
          (λ f h. rw e (if_not s.serial_ready (is_serial f) (unpicked s f) gone ∙ h))
          (unlocked_families s) free.0,
      free.1,
    )

-- In every situation the list of the transports to try names none twice. If the user picked LAN, each is
-- one of the LAN families; if serial was picked and is ready, each is serial. Else, and also if serial was
-- picked and is not ready, each is TCP where the hub is used; without it, each is serial, which is
-- ready then, for a peer seen on serial; and for any other peer serial is among them only if the peer is
-- expected on serial, and a LAN family only if it is expected on one, or if nothing is expected.
pub failover_families_permitted :
    (s : Situation)
    → (all (permitted s) (failover_families_to_try s) ≡ true)
      × Distinct (failover_families_to_try s)
unfolding failover_families_to_try contains
failover_families_permitted s = by_session s.session refl
  where
    by_session :
        (k : Session)
        → s.session ≡ k
        → (all (permitted s) (failover_families_to_try s) ≡ true)
          × Distinct (failover_families_to_try s)
    by_session no_session e = rw (e, failover_families_to_try) (unlocked_lem s)
    by_session other_session e = rw (e, failover_families_to_try) (unlocked_lem s)
    by_session lan_session e = rw (e, failover_families_to_try) (lan_lem s)
    by_session serial_session e = elim (Bool-cases s.serial_ready) [
      | inl ready ↦ rw (e, failover_families_to_try) (rw ready (refl, (refl, tt)))
      | inr gone ↦ not_ready s e gone
    ]

-- While the LAN is up and the peer answers there, and no hub is used, serial is preferred only for a link
-- that is on serial already and measurably faster.
pub lan_stays_primary :
    (s : Situation)
    → s.hub ≡ false
    → s.physical_lan ≡ true
    → s.peer_lan_down ≡ false
    → (udp_up s || tcp_up s) ≡ true
    → preferred_failover_family s ≡ some serial
    → (s.attached ≡ serial) × (s.serial_faster ≡ true)
unfolding preferred_failover_family
lan_stays_primary s hub physical up answered h = (ground arith, ground arith)
