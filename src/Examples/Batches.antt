-- ===== src/Examples/Batches.antt =====
-- A batch of two events in two orders, and the result applied to it.
use mathlib.Core.List.{Permᴰ}
use network_anomaly_root_cau.Prelude.{
  ◌==◌, if◌then◌else◌, true, some, [], ◌∷◌, ◌≡◌, refl, map, is_unique, contains,
}
use network_anomaly_root_cau.Prelude.Result.{ok}
use network_anomaly_root_cau.Db.Tables.{Event}
use network_anomaly_root_cau.Orchestration.Pipeline.{Pipeline, process_batch}
use network_anomaly_root_cau.Orchestration.AnyOrder.{process_batch_any_order}
use network_anomaly_root_cau.Examples.Incidents.{manager, first, second, anomaly, store}
use network_anomaly_root_cau.Examples.Publications.{orchestrator}

-- the detector reports one anomaly, about the second event
abbrev pipeline : Pipeline
pipeline = record {
  detector = some (λ e st. ok (if e.id == "e_2" then anomaly ∷ [] else []));
  incident_manager = some (λ n. manager);
  orchestrator = λ n. orchestrator;
  pipeline_request = λ id. id;
  now = 9;
}

ids_run : is_unique (map (λ (e : Event). e.id) (second ∷ first ∷ [])) ≡ true
unfolding is_unique contains
ids_run = refl

process_batch_any_order_example :
    process_batch pipeline (second ∷ first ∷ []) store
    ≡ process_batch pipeline (first ∷ second ∷ []) store
process_batch_any_order_example =
    process_batch_any_order pipeline (second ∷ first ∷ []) (first ∷ second ∷ []) store ids_run
      (Permᴰ.swap refl refl)
