-- ===== src/Targets/Tests.antt =====
-- Runs of the target lists, and the theorem at concrete addresses.
use chatx.Prelude.{◌≡◌, refl, true, [], ◌∷◌, nat_eq, contains}
use chatx.Text.{codes, str_beq}
use chatx.Targets.{Interface, decimal, directed_broadcasts, efficient_unicast_hosts, iface_targets}
use chatx.Targets.Distinct.{Distinct, targets-Distinct}
use chatx.Text.Parts.{split}

abbrev wifi : Interface
wifi = record {
  kind = codes "wifi";
  up = true;
  gateway_iface = true;
  broadcast = codes "10.0.0.255";
  subnet_broadcast = codes "10.0.0.255";
}

printed : decimal 254 ≡ codes "254"
unfolding decimal
printed = refl

broadcasts :
    directed_broadcasts (wifi ∷ []) (codes "10.0.0.7")
    ≡ codes "10.0.0.255" ∷ codes "255.255.255.255" ∷ []
unfolding directed_broadcasts contains split iface_targets str_beq
broadcasts = refl

targets-Distinct_example :
    Distinct (directed_broadcasts (wifi ∷ wifi ∷ []) (codes "10.0.0.7"))
    × Distinct (
        efficient_unicast_hosts true (codes "10.0.0.7") (codes "10.0.0.9" ∷ []) (codes " 10.0.0.9"))
targets-Distinct_example =
    targets-Distinct (wifi ∷ wifi ∷ []) true (codes "10.0.0.7") (codes "10.0.0.9" ∷ [])
      (codes " 10.0.0.9")
