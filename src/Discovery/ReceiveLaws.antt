-- ===== src/Discovery/ReceiveLaws.antt =====
-- What a received host leaves.
use vitaki_vitarps.Base.{
  ℕ, get_or-append, ◌≡◌, ◌≢◌, ◌⊎◌, inl, inr, refl, sym, ap, ◌∙◌, subst, Bool, true, false, Option,
  none, some, List, [], ◌∷◌, ◌++◌, arith, length, get_or, set, Bool-cases, if◌then◌else◌,
}
use vitaki_vitarps.Frame.Processor.{same_bytes}
use vitaki_vitarps.Takion.PacketLaws.{same_bytes_refl, same_bytes→eq}
use vitaki_vitarps.Discovery.Hosts.{
  Host, Entry, Service, no_host, strdup, no_entry, report_state, find_host, update_string,
  update_host, refresh, host_received,
}
use vitaki_vitarps.Discovery.Known.{
  known_host, find_host-IsFirst, set-append_new, known_host-append, known_host-append_other,
}

abbrev text_is : Option (List ℕ) → List ℕ → Bool
text_is none id = false
text_is (some text) id = same_bytes text id

-- The string left is the new one, when `strdup` succeeds, and the mark tells whether it differs.
update_string_lem :
    (old new : Option (List ℕ))
    → ((update_string true old new).0 ≡ new)
      × (((update_string true old new).1 ≡ true) × (old ≢ new)
          ⊎ ((update_string true old new).1 ≡ false) × (old ≡ new))
unfolding update_string
update_string_lem none none = (refl, inr (refl, refl))
update_string_lem none (some new) = (refl, inl (refl, λ e. cc))
update_string_lem (some old) none = (refl, inl (refl, λ e. cc))
update_string_lem (some old) (some new) = elim (Bool-cases (same_bytes old new)) [
  | inl same ↦ rw same (let e = same_bytes→eq old new same in (ap some e, inr (refl, ap some e)))
  | inr differ ↦ rw differ (
    refl,
    inl (
      refl,
      λ e.
          let same : same_bytes old new ≡ true =
            subst (λ o. text_is o new ≡ true) (sym e) (same_bytes_refl new) in
          cc,
    ),
  )
]

-- The same for all of a host.
update_host_lem :
    (slot host : Host)
    → ((update_host (λ k. true) slot host).0 ≡ host)
      × (((update_host (λ k. true) slot host).1 ≡ true) × (slot ≢ host)
          ⊎ ((update_host (λ k. true) slot host).1 ≡ false) × (slot ≡ host))
unfolding update_host
update_host_lem slot host = grind (
  arith,
  update_string_lem slot.host_addr host.host_addr,
  update_string_lem slot.system_version host.system_version,
  update_string_lem slot.device_discovery_protocol_version host.device_discovery_protocol_version,
  update_string_lem slot.host_name host.host_name,
  update_string_lem slot.host_type host.host_type,
  update_string_lem slot.host_id host.host_id,
  update_string_lem slot.running_app_titleid host.running_app_titleid,
  update_string_lem slot.running_app_name host.running_app_name,
)

-- A slot with the id keeps it, whatever `strdup` gives.
pub update_host-same_id :
    (strdup_ok : ℕ → Bool) (slot host : Host) (id : List ℕ)
    → slot.host_id ≡ some id
    → host.host_id ≡ some id
    → (update_host strdup_ok slot host).0.host_id ≡ some id
unfolding update_host update_string
update_host-same_id strdup_ok slot host id e e' = rw (e, e', same_bytes_refl id) refl

-- A new slot has the id, or none.
pub update_host-new_id :
    (strdup_ok : ℕ → Bool) (host : Host) (id : List ℕ)
    → host.host_id ≡ some id
    → (update_host strdup_ok no_host host).0.host_id ≡ strdup (strdup_ok 5) id
unfolding update_host update_string
update_host-new_id strdup_ok host id e = rw e refl

-- The entry that a received host leaves, by the host in its slot.
abbrev pub entry_left : (ℕ → Bool) → Service → Host → Host → Entry
entry_left strdup_ok s slot host = record {
  host = (update_host strdup_ok slot host).0;
  last_ping_index = s.ping_index;
}

pub received-known :
    (strdup_ok : ℕ → Bool) (s : Service) (host : Host) (id : List ℕ) (i : ℕ)
    → host.host_id ≡ some id
    → find_host s.hosts id ≡ some i
    → let slot = (get_or s.hosts i no_entry).host in
      let s' = record s { hosts = set s.hosts i (entry_left strdup_ok s slot host) } in
      host_received strdup_ok s host
      ≡ (s', if (update_host strdup_ok slot host).1 then report_state s' else [])
unfolding host_received refresh
received-known strdup_ok s host id i e found = ground (arith, found)

fresh_slot : (es : List Entry) → get_or (es ++ (no_entry ∷ [])) (length es) no_entry ≡ no_entry
fresh_slot es = get_or-append es [] no_entry no_entry (length es) refl

pub received-new :
    (strdup_ok : ℕ → Bool) (s : Service) (host : Host) (id : List ℕ)
    → host.host_id ≡ some id
    → find_host s.hosts id ≡ none
    → length s.hosts ≢ s.hosts_max
    → let s' = record s { hosts = s.hosts ++ (entry_left strdup_ok s no_host host ∷ []) } in
      host_received strdup_ok s host ≡ (s', report_state s')
unfolding host_received refresh
received-new strdup_ok s host id e missing room = ground (
  arith,
  missing,
  room,
  fresh_slot s.hosts,
  set-append_new s.hosts (entry_left strdup_ok s no_host host) no_entry,
)

pub received-full :
    (strdup_ok : ℕ → Bool) (s : Service) (host : Host) (id : List ℕ)
    → host.host_id ≡ some id
    → find_host s.hosts id ≡ none
    → length s.hosts ≡ s.hosts_max
    → host_received strdup_ok s host ≡ (s, [])
unfolding host_received
received-full strdup_ok s host id e missing full = ground (arith, missing, full)

pub received_anonymous :
    (strdup_ok : ℕ → Bool) (s : Service) (host : Host)
    → host.host_id ≡ none
    → host_received strdup_ok s host ≡ (s, [])
unfolding host_received
received_anonymous strdup_ok s host e = ground (arith, e)

-- When every call of strdup succeeds: a host with an id that is known, or for which there is space,
-- is known under that id afterwards as it was received, and the hosts with other ids stay; the
-- callback is called, if there is one, with the hosts then known, exactly when the host was not known
-- as it is now.
pub host_received_lem :
    (s : Service) (host : Host) (id other : List ℕ)
    → host.host_id ≡ some id
    → other ≢ id
    → (known_host s.hosts id ≢ none) ⊎ (length s.hosts ≢ s.hosts_max)
    → let (s', reports) = host_received (λ k. true) s host in
      (known_host s'.hosts id ≡ some host)
      × (known_host s'.hosts other ≡ known_host s.hosts other)
      × ((known_host s.hosts id ≡ some host) × (reports ≡ [])
          ⊎ (known_host s.hosts id ≢ some host) × (reports ≡ report_state s'))
host_received_lem s host id other e differ space = elim (find_host-IsFirst s.hosts id) [
  | inl (missing, unknown) ↦
      let room : length s.hosts ≢ s.hosts_max = elim space [
        | inl known ↦ absurd (known unknown)
        | inr r ↦ r
      ] in
      let x : Entry = entry_left (λ k. true) s no_host host in
      let is_host : x.host ≡ host = (update_host_lem no_host host).0 in
      let is_id = ap (λ (h : Host). h.host_id) is_host ∙ e in
      rw (received-new (λ k. true) s host id e missing room) (
        known_host-append s.hosts x id unknown is_id ∙ ap some is_host,
        known_host-append_other s.hosts x id other is_id differ,
        inr ((λ k. cc), refl),
      )
  | inr (i, found, f) ↦
      let slot = (get_or s.hosts i no_entry).host in
      let x : Entry = entry_left (λ k. true) s slot host in
      let is_host : x.host ≡ host = (update_host_lem slot host).0 in
      let is_id = ap (λ (h : Host). h.host_id) is_host ∙ e in
      rw (received-known (λ k. true) s host id i e found) (
        f.replaced x is_id ∙ ap some is_host,
        f.others x other is_id differ,
        elim (update_host_lem slot host).1 [
          | inl (change, new) ↦ rw change (inr ((λ k. new (ground (arith, k, f.known))), refl))
          | inr (no_change, same) ↦ rw no_change (inl (f.known ∙ ap some same, refl))
        ],
      )
]
