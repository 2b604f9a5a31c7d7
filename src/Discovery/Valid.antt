-- ===== src/Discovery/Valid.antt =====
-- What holds of the service however hosts are received and pings are sent.
use vitaki_vitarps.Base.{
  sym, get_or, ℕ, ◌+◌, ◌%◌, ◌^◌, ◌≤◌, inl, inr, subst, Bool, List, [], ◌∷◌, arith, length,
  length-keep_if, length-append, length-set, Bool-cases, Option-cases, ◌==◌, ==→ne, ==→eq,
}
use vitaki_vitarps.Discovery.Hosts.{
  no_entry, no_host, Host, Entry, Service, is_fresh, drop_old_hosts, ping, host_received,
}
use vitaki_vitarps.Discovery.DropLaws.{drop_old_hosts_lem}
use vitaki_vitarps.Discovery.Known.{find_host-IsFirst}
use vitaki_vitarps.Discovery.ReceiveLaws.{
  update_host-same_id, update_host-new_id, entry_left, received-known, received-new, received-full,
  received_anonymous,
}
use vitaki_vitarps.Discovery.Distinct.{
  IsApart, IsDistinct, keep_if-IsDistinct, append-IsDistinct, set-IsDistinct, new-IsApart, found_id,
}

pub record IsValid (s : Service) : Type 0 where
  pub distinct : IsDistinct s.hosts
  pub space : length s.hosts ≤ s.hosts_max

host_received-IsValid :
    (strdup_ok : ℕ → Bool) (s : Service) (host : Host)
    → IsValid s
    → IsValid (host_received strdup_ok s host).0
host_received-IsValid strdup_ok s host v = elim (Option-cases host.host_id) [
  | inl e ↦ rw (received_anonymous strdup_ok s host e) v
  | inr (id, e) ↦ elim (find_host-IsFirst s.hosts id) [
    | inr (i, found, f) ↦
        let slot = (get_or s.hosts i no_entry).host in
        let x : Entry = entry_left strdup_ok s slot host in
        let is_id = update_host-same_id strdup_ok slot host id (found_id s.hosts id i found) e in
        rw (received-known strdup_ok s host id i e found) (record {
          distinct = set-IsDistinct s.hosts x id i is_id found v.distinct;
          space = omega (arith, v.space, length-set s.hosts i x);
        })
    | inl (missing, unknown) ↦ elim (Bool-cases (length s.hosts == s.hosts_max)) [
      | inl full ↦ rw (received-full strdup_ok s host id e missing (==→eq _ _ full)) v
      | inr room ↦
          let x : Entry = entry_left strdup_ok s no_host host in
          let apart : IsApart x.host.host_id s.hosts =
            subst (λ o. IsApart o s.hosts) (sym (update_host-new_id strdup_ok host id e))
              (new-IsApart (strdup_ok 5) s.hosts id unknown) in
          rw (received-new strdup_ok s host id e missing (==→ne _ _ room)) (record {
            distinct = append-IsDistinct s.hosts x apart v.distinct;
            space = omega (arith, v.space, ==→ne _ _ room, length-append s.hosts (x ∷ []));
          })
    ]
  ]
]

drop-IsValid : (s : Service) → IsValid s → IsValid (drop_old_hosts s).0
drop-IsValid s v = rw ((drop_old_hosts_lem s).0) (record {
  distinct = keep_if-IsDistinct (is_fresh s) s.hosts v.distinct;
  space = omega (arith, v.space, length-keep_if (is_fresh s) s.hosts);
})

-- What happens to the service.
pub data Event : Type 0 where
  received : (ℕ → Bool) → Host → Event
  pinged : Event

unfoldable pub step : Service → Event → Service
step s (received strdup_ok host) = (host_received strdup_ok s host).0
step s pinged = (ping s).0

unfoldable pub run : Service → List Event → Service
unfolding step
run s [] = s
run s (e ∷ es) = run (step s e) es

step-IsValid : (s : Service) (e : Event) → IsValid s → IsValid (step s e)
unfolding step ping
step-IsValid s (received strdup_ok host) v = host_received-IsValid strdup_ok s host v
step-IsValid s pinged v =
    drop-IsValid (record s { ping_index = (s.ping_index + 1) % 2 ^ 64 })
      (record { distinct = v.distinct; space = v.space })

-- However hosts are received and pings are sent, and whatever calls of strdup fail, no two hosts are
-- known under the same id, and there are never more than there is space for.
pub run-IsValid : (s : Service) (es : List Event) → IsValid s → IsValid (run s es)
unfolding run
run-IsValid s [] v = v
run-IsValid s (e ∷ es) v = run-IsValid (step s e) es (step-IsValid s e v)
