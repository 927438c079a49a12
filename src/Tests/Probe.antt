-- ===== src/Tests/Probe.antt =====
-- The probe's theorems at concrete inputs.
use ip_proxy_pool.Base.{◌≡◌, ◌↔◌, some, [], ◌∷◌, str_eq, map, All}
use ip_proxy_pool.Models.{ProbeResult, success}
use ip_proxy_pool.Storage.Server.{ok}
use ip_proxy_pool.Checker.Probe.{TestTarget, Reply, answered, Messages, probe_proxy_targets}
use ip_proxy_pool.Checker.Probe.Verdict.{Attempt, result_of, AttemptPasses, round_succeeds_iff}
use ip_proxy_pool.Tests.Memory.{whole_ms}

abbrev texts : Messages
texts = record {
  safe_message = λ m. m;
  returned = λ n. "target returned an error";
  expected = λ expected n. "another status was expected";
}

abbrev target : TestTarget
target = record { expected_statuses = 200 ∷ []; expected_text = some "ok"; json_keys = "ip" ∷ [] }

abbrev good : Reply
good = answered (record {
  status_code = 200;
  has_text = λ t. str_eq t "ok";
  json_object = some ("ip" ∷ "port" ∷ []);
})

abbrev attempt : Attempt whole_ms texts
attempt = record { target = target; reply = good; latency_ms = 90 }

round_succeeds_iff_example :
    (whole : ProbeResult whole_ms) × (probe_proxy_targets whole_ms texts
        (map (result_of whole_ms texts) (attempt ∷ attempt ∷ []))
      ≡ ok whole)
    × ((whole.category ≡ success) ↔ All (AttemptPasses whole_ms texts) (attempt ∷ attempt ∷ []))
round_succeeds_iff_example = round_succeeds_iff whole_ms texts attempt (attempt ∷ [])
