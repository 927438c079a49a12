-- ===== src/Tests/Peer.antt =====
-- The policy of peers at concrete inputs.
use ip_proxy_pool.Base.{ℕ, ◌≡◌, refl, Bool, true, false, ◌&&◌, leb, arith}
use ip_proxy_pool.Storage.Server.{ok}
use ip_proxy_pool.Peer.Policy.{
  SelectionPolicy, SelectionEvidence, is_valid, effective_peer_policy, accepts, floor,
  effective_peer_policy_is_strictest,
}
use ip_proxy_pool.Tests.Memory.{whole_ms}

abbrev request : SelectionPolicy whole_ms
request = record {
  domain = "d";
  min_score = 50;
  max_latency_ms = 800;
  max_checked_age_seconds = 3600;
  min_consecutive_successes = 1;
}

abbrev service : SelectionPolicy whole_ms
service = record request { min_score = 95; max_latency_ms = 3000 }

abbrev cache : SelectionPolicy whole_ms
cache = record request { max_checked_age_seconds = 60; min_consecutive_successes = 3 }

leb_trans : (x y z : ℕ) → leb x y ≡ true → leb y z ≡ true → leb x z ≡ true
leb_trans x y z h k = ground (arith, h, k)

leb_total :
    (x y : ℕ)
    → ◌≡◌ {A = Bool} true true
    → ◌≡◌ {A = Bool} true true
    → leb x y ≡ false
    → leb y x ≡ true
leb_total x y f g h = ground (arith, h)

effective_peer_policy_is_strictest_example :
    (policy : SelectionPolicy whole_ms) × (effective_peer_policy whole_ms request service cache
      ≡ ok policy)
    × ((r : SelectionEvidence whole_ms) (now : ℕ)
        → accepts whole_ms r policy now ≡ (
            ((accepts whole_ms r request now && accepts whole_ms r service now)
              && accepts whole_ms r cache now)
            && accepts whole_ms r (floor whole_ms "d") now))
unfolding is_valid
effective_peer_policy_is_strictest_example =
    effective_peer_policy_is_strictest whole_ms leb_trans leb_total request service cache refl refl
      refl refl refl refl
