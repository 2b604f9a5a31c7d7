-- ===== src/Discovery/Tests.antt =====
-- The known hosts on small inputs, and the witnesses of their properties.
use vitaki_vitarps.Base.{
  ◌⊎◌, inl, ap, sym, keep_if, ◌≡◌, ◌≢◌, refl, List, ◌==◌, ℕ, true, some, [], ◌∷◌, length,
  if◌then◌else◌, arith,
}
use mathlib.Core.Option.{none-ne-some}
use vitaki_vitarps.Discovery.Hosts.{
  Host, Service, no_host, is_fresh, report_state, drop_old_hosts, host_received,
}
use vitaki_vitarps.Discovery.DropLaws.{drop_old_hosts_lem}
use vitaki_vitarps.Discovery.Known.{known_host}
use vitaki_vitarps.Discovery.ReceiveLaws.{host_received_lem}
use vitaki_vitarps.Discovery.Valid.{IsValid, Event, received, pinged, run, run-IsValid}

abbrev living_room : Host
living_room = record no_host {
  state = 1;
  host_request_port = 997;
  host_id = some (65 ∷ []);
  host_name = some (80 ∷ 83 ∷ 53 ∷ []);
}

abbrev bedroom : Host
bedroom = record no_host { state = 2; host_id = some (66 ∷ []) }

-- The first host has been silent for too long, the second has not.
abbrev service : Service
service = record {
  hosts_max = 2;
  host_drop_pings = 3;
  has_cb = true;
  ping_index = 9;
  hosts =
      record { host = living_room; last_ping_index = 5 }
      ∷ record { host = bedroom; last_ping_index = 6 }
      ∷ [];
}

drops_one :
    (drop_old_hosts service).0
    ≡ record service { hosts = record { host = bedroom; last_ping_index = 6 } ∷ [] }
unfolding drop_old_hosts is_fresh
drops_one = refl

drop_old_hosts_example :
    let (s', reports) = drop_old_hosts service in
    (s' ≡ record service { hosts = keep_if (is_fresh service) service.hosts })
    × (reports ≡ (if length s'.hosts == length service.hosts then [] else report_state s'))
drop_old_hosts_example = drop_old_hosts_lem service

abbrev first : List ℕ → ℕ
first [] = 0
first (b ∷ bs) = b

-- The first host is switched on.
host_received_example :
    let host = record living_room { state = 2 } in
    let (s', reports) = host_received (λ k. true) service host in
    (known_host s'.hosts (65 ∷ []) ≡ some host)
    × (known_host s'.hosts (66 ∷ []) ≡ known_host service.hosts (66 ∷ []))
    × ((known_host service.hosts (65 ∷ []) ≡ some host) × (reports ≡ [])
        ⊎ (known_host service.hosts (65 ∷ []) ≢ some host) × (reports ≡ report_state s'))
host_received_example =
    host_received_lem service (record living_room { state = 2 }) (65 ∷ []) (66 ∷ []) refl
      (λ e. absurd (omega (arith, ap first e))) (inl (λ e. none-ne-some living_room (sym e)))

abbrev nobody : Service
nobody = record service { hosts = [] }

abbrev events : List Event
events =
    received (λ k. true) bedroom
    ∷ pinged
    ∷ received (λ k. k == 3) living_room
    ∷ pinged
    ∷ pinged
    ∷ []

run-IsValid_example : IsValid (run nobody events)
run-IsValid_example = run-IsValid nobody events (record { distinct = tt; space = omega arith })
