-- ===== src/Aggregator/Burst.antt =====
-- Packets for one address that follow each other within the window.
use kubevirt_wol.Common.{
  ℕ, ◌+◌, ◌<◌, ◌≡◌, refl, ◌∙◌, ap, List, [], ◌∷◌, some, Text, arith, get, All, inl, inr, ◌++◌,
  Option-cases,
}
use kubevirt_wol.Cluster.{VmClient}
use kubevirt_wol.VmStarter.{World}
use kubevirt_wol.Aggregator.{
  WolEventResponse, DedupeEntry, Aggregator, Received, Streamed, duplicate, report_wol_event,
  report_wol_event_stream, check_duplicate, record_event, after_send,
}
use kubevirt_wol.Aggregator.Responses.{
  Fresh, next, world, report-duplicate, get-report-Fresh, first_entry,
}

-- Each event is for the address, and is checked less than the window after the one before.
abbrev pub Chain : ℕ → Text → ℕ → List Received → Type 0
Chain window mac last [] = Unit
Chain window mac last (r ∷ rs) =
    (r.event.mac_address ≡ mac)
    × (r.readings.checked < last + window)
    × Chain window mac r.readings.checked rs

module _ {S : Type 0} (client : VmClient S) where
  -- Every response says duplicate, and the cluster and the goroutines are as they were.
  pub record Quiet (w : World S) (out : Streamed client) : Type 0 where
    pub duplicates : All (λ (resp : WolEventResponse). resp.status ≡ duplicate) out.2
    pub cluster : out.1.cluster ≡ w.cluster
    pub restores : out.1.restores ≡ w.restores

  pub report-duration :
      (r : Received) (a : Aggregator) (w : World S)
      → (next client r.readings r.event a w).dedupe_duration ≡ a.dedupe_duration
  unfolding report_wol_event check_duplicate record_event
  report-duration r a w = ground arith

  Quiet-after_send :
      (r : Received) (a : Aggregator) (w : World S) (resp : WolEventResponse) (a' : Aggregator)
      (w' : World S) (rest : Streamed client)
      → resp.status ≡ duplicate
      → w'.cluster ≡ w.cluster
      → w'.restores ≡ w.restores
      → Quiet w' rest
      → Quiet w (after_send client resp r.send_error (a', w') rest)
  Quiet-after_send r a w resp a' w' rest d c s q = elim (Option-cases r.send_error) [
    | inl fine ↦ rw fine (record {
      duplicates = (d, q.duplicates);
      cluster = q.cluster ∙ c;
      restores = q.restores ∙ s;
    })
    | inr (e, bad) ↦ rw bad (record { duplicates = tt; cluster = c; restores = s })
  ]

  pub stream-Quiet :
      (closed : Text) (rs : List Received) (a : Aggregator) (w : World S) (entry : DedupeEntry)
      (mac : Text)
      → get mac a.dedupe_map ≡ some entry
      → Chain a.dedupe_duration mac entry.last_seen rs
      → Quiet w (report_wol_event_stream client closed rs a w)
  unfolding report_wol_event_stream
  stream-Quiet closed [] a w entry mac e c = record {
    duplicates = tt;
    cluster = refl;
    restores = refl;
  }
  stream-Quiet closed (r ∷ rs) a w entry mac e (same, within, chain) =
      let found : get r.event.mac_address a.dedupe_map ≡ some entry = rw same e in
      let (status, flag, kept, renewed) =
        report-duplicate client r.readings r.event a w entry found within in
      Quiet-after_send r a w _ _ _ _ status (ap (λ (v : World S). v.cluster) kept)
        (ap (λ (v : World S). v.restores) kept)
        (stream-Quiet closed rs (next client r.readings r.event a w)
          (world client r.readings r.event a w)
          (record entry {
            last_seen = r.readings.checked;
            count = entry.count + 1;
            nodes = entry.nodes ++ r.event.node_name ∷ [];
          })
          mac (rw (← same) renewed) (rw report-duration chain))

  -- After an address was answered, any number of further packets for it, each checked less than the
  -- window after the one before, are all answered as duplicates: the VM is not started again.
  pub burst_starts_once :
      (closed : Text) (first : Received) (rs : List Received) (a : Aggregator) (w : World S)
      → Fresh first.readings.checked first.event.mac_address a
      → Chain a.dedupe_duration first.event.mac_address first.readings.recorded rs
      → Quiet (world client first.readings first.event a w) (
          report_wol_event_stream client closed rs
            (next client first.readings first.event a w)
            (world client first.readings first.event a w))
  burst_starts_once closed first rs a w fresh chain =
      stream-Quiet closed rs _ _ (first_entry client first.readings first.event a w)
        first.event.mac_address (get-report-Fresh client first.readings first.event a w fresh)
        (rw report-duration chain)
