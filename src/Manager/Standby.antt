-- ===== src/Manager/Standby.antt =====
-- cmd/manager/main.go: every replica serves the agents, but only the leader's controller fills its
-- mapper: what a replica answers that is not the leader.
use kubevirt_wol.Common.{
  get, refl, [], none, inl, inr, arith, Option-cases, Text, List, ◌∷◌, ◌≡◌, ◌∙◌,
}
use kubevirt_wol.Cluster.{VmClient}
use kubevirt_wol.Mapper.{new_mac_mapper, lookup}
use kubevirt_wol.VmStarter.{World}
use kubevirt_wol.Aggregator.{
  Aggregator, Received, new_aggregator, report_wol_event, report_wol_event_stream, check_duplicate,
  record_event,
}

-- The aggregator that `main` serves, with the mapper that it makes.
unfoldable pub new_replica : Aggregator
new_replica = new_aggregator new_mac_mapper

lookup-new : (mac : Text) → lookup mac new_mac_mapper ≡ none
unfolding lookup new_mac_mapper get
lookup-new mac = refl

module _ {S : Type 0} (client : VmClient S) where
  report-idle :
      (r : Received) (a : Aggregator) (w : World S)
      → a.mapper ≡ new_mac_mapper
      → ((report_wol_event client r.readings r.event a w).0.mapper ≡ new_mac_mapper)
        × ((report_wol_event client r.readings r.event a w).1.cluster ≡ w.cluster)
  unfolding report_wol_event check_duplicate record_event
  report-idle r a w empty = ground (arith, lookup-new r.event.mac_address)

  stream-idle :
      (closed : Text) (rs : List Received) (a : Aggregator) (w : World S)
      → a.mapper ≡ new_mac_mapper
      → (report_wol_event_stream client closed rs a w).1.cluster ≡ w.cluster
  unfolding report_wol_event_stream
  stream-idle closed [] a w empty = refl
  stream-idle closed (r ∷ rs) a w empty =
      let (still, same) = report-idle r a w empty in
      elim (Option-cases r.send_error) [
        | inl fine ↦ rw fine (stream-idle closed rs _ _ still ∙ same)
        | inr (e, bad) ↦ rw bad same
      ]

  -- As long as its controller does not run, which it does on the leader only, a replica starts no VM,
  -- whatever events the agents report to it: the cluster stays as it was.
  pub standby-idle :
      (closed : Text) (rs : List Received) (w : World S)
      → (report_wol_event_stream client closed rs new_replica w).1.cluster ≡ w.cluster
  unfolding new_replica new_aggregator
  standby-idle closed rs w = stream-idle closed rs new_replica w refl
