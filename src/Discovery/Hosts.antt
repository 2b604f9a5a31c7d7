-- ===== src/Discovery/Hosts.antt =====
-- lib/src/discoveryservice.c: the hosts that are known. The mutex is held in every operation, and a
-- host and its discovery info, which stand in two arrays, are one entry here; what stands behind
-- `hosts_count` in the arrays is never read.
use vitaki_vitarps.Base.{
  ℕ, zero, suc, ◌+◌, ◌%◌, ◌^◌, Bool, true, false, not, ◌||◌, Option, none, some, List, [], ◌∷◌,
  ◌++◌, map, leb, ◌==◌, if◌then◌else◌, length, get_or, set, take, drop,
}
use vitaki_vitarps.Frame.Processor.{same_bytes}

-- A string is the bytes before its 0, or NULL; `state` is the number of the enumeration's name.
pub record Host : Type 0 where
  pub state : ℕ
  pub host_request_port : ℕ
  pub host_addr : Option (List ℕ)
  pub system_version : Option (List ℕ)
  pub device_discovery_protocol_version : Option (List ℕ)
  pub host_name : Option (List ℕ)
  pub host_type : Option (List ℕ)
  pub host_id : Option (List ℕ)
  pub running_app_titleid : Option (List ℕ)
  pub running_app_name : Option (List ℕ)

pub record Entry : Type 0 where
  pub host : Host
  pub last_ping_index : ℕ

pub record Service : Type 0 where
  pub hosts_max : ℕ
  pub host_drop_pings : ℕ
  pub has_cb : Bool
  pub ping_index : ℕ
  pub hosts : List Entry

-- A host of zeros, as `memset` leaves it.
abbrev pub no_host : Host
no_host = record {
  state = 0;
  host_request_port = 0;
  host_addr = none;
  system_version = none;
  device_discovery_protocol_version = none;
  host_name = none;
  host_type = none;
  host_id = none;
  running_app_titleid = none;
  running_app_name = none;
}

abbrev pub no_entry : Entry
no_entry = record { host = no_host; last_ping_index = 0 }

-- The hosts that each call of the callback is given.
abbrev pub Reports : Type 0
Reports = List (List Host)

unfoldable pub report_state : Service → Reports
report_state s = if s.has_cb then map (λ e. e.host) s.hosts ∷ [] else []

unfoldable pub is_fresh : Service → Entry → Bool
is_fresh s e = leb s.ping_index ((e.last_ping_index + s.host_drop_pings) % 2 ^ 64)

-- `memmove` of what is behind the entry `i`.
abbrev pub remove_at : List Entry → ℕ → List Entry
remove_at es i = take i es ++ drop (i + 1) es

-- The loop from the index `i` on, with the rounds left; whether a host went.
unfoldable pub drop_from : ℕ → Service → ℕ → List Entry → Bool → List Entry × Bool
drop_from zero s i es change = (es, change)
drop_from (suc n) s i es change =
    let fresh = is_fresh s (get_or es i no_entry) in
    drop_from n s (if fresh then i + 1 else i) (if fresh then es else remove_at es i)
      (change || not fresh)

unfoldable pub drop_old_hosts : Service → Service × Reports
unfolding drop_from report_state
drop_old_hosts s =
    let (es, change) = drop_from (length s.hosts) s 0 s.hosts false in
    let s' = record s { hosts = es } in (s', if change then report_state s' else [])

-- `discovery_service_ping` up to the mutex's release.
unfoldable pub ping : Service → Service × Reports
unfolding drop_old_hosts
ping s = drop_old_hosts (record s { ping_index = (s.ping_index + 1) % 2 ^ 64 })

abbrev pub has_id : List ℕ → Host → Bool
has_id id host = elim host.host_id [ none ↦ false | some other ↦ same_bytes other id ]

-- The index of the first host with an id.
unfoldable pub find_host : List Entry → List ℕ → Option ℕ
find_host [] id = none
find_host (e ∷ es) id =
    if has_id id e.host
    then some 0
    else elim (find_host es id) [ none ↦ none | some i ↦ some (i + 1) ]

-- What `strdup` gives.
abbrev pub strdup : Bool → List ℕ → Option (List ℕ)
strdup strdup_ok text = if strdup_ok then some text else none

-- `UPDATE_STRING`: the string left, and whether it changed.
unfoldable pub update_string : Bool → Option (List ℕ) → Option (List ℕ) → Option (List ℕ) × Bool
update_string strdup_ok none none = (none, false)
update_string strdup_ok none (some new) = (strdup strdup_ok new, true)
update_string strdup_ok (some old) none = (none, true)
update_string strdup_ok (some old) (some new) =
    if same_bytes old new then (some old, false) else (strdup strdup_ok new, true)

-- The host left in a slot, and whether something changed; `strdup_ok k` is whether `strdup` succeeds
-- for the string `k` of CHIAKI_DISCOVERY_HOST_STRING_FOREACH, counted from 0.
unfoldable pub update_host : (ℕ → Bool) → Host → Host → Host × Bool
unfolding update_string
update_host strdup_ok slot host =
    let (addr, c1) = update_string (strdup_ok 0) slot.host_addr host.host_addr in
    let (version, c2) = update_string (strdup_ok 1) slot.system_version host.system_version in
    let (protocol, c3) =
      update_string (strdup_ok 2) slot.device_discovery_protocol_version
        host.device_discovery_protocol_version in
    let (name, c4) = update_string (strdup_ok 3) slot.host_name host.host_name in
    let (type, c5) = update_string (strdup_ok 4) slot.host_type host.host_type in
    let (id, c6) = update_string (strdup_ok 5) slot.host_id host.host_id in
    let (titleid, c7) =
      update_string (strdup_ok 6) slot.running_app_titleid host.running_app_titleid in
    let (app_name, c8) = update_string (strdup_ok 7) slot.running_app_name host.running_app_name in
    (
      record {
        state = host.state;
        host_request_port = host.host_request_port;
        host_addr = addr;
        system_version = version;
        device_discovery_protocol_version = protocol;
        host_name = name;
        host_type = type;
        host_id = id;
        running_app_titleid = titleid;
        running_app_name = app_name;
      },
      not (slot.state == host.state)
          || not (slot.host_request_port == host.host_request_port)
          || c1
          || c2
          || c3
          || c4
          || c5
          || c6
          || c7
          || c8,
    )

-- A host that is known, at an index.
unfoldable pub refresh : (ℕ → Bool) → Service → ℕ → Host → Service × Bool
unfolding update_host
refresh strdup_ok s index host =
    let (slot, change) = update_host strdup_ok (get_or s.hosts index no_entry).host host in
    (
      record s {
        hosts = set s.hosts index (record { host = slot; last_ping_index = s.ping_index });
      },
      change,
    )

-- The host's slot is found, or a new one is made, unless there is no space.
unfoldable pub host_received : (ℕ → Bool) → Service → Host → Service × Reports
unfolding find_host refresh report_state
host_received strdup_ok s host = elim host.host_id [
  | none ↦ (s, [])
  | some id ↦ elim (find_host s.hosts id) [
    | some index ↦
        let (s', change) = refresh strdup_ok s index host in
        (s', if change then report_state s' else [])
    | none ↦
        if length s.hosts == s.hosts_max
        then (s, [])
        else let (s', _) =
            refresh strdup_ok (record s { hosts = s.hosts ++ (no_entry ∷ []) }) (length s.hosts)
              host in
          (s', report_state s')
  ]
]
