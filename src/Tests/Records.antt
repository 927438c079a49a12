-- ===== src/Tests/Records.antt =====
-- A record that the tests share, fast enough for the priority index.
use ip_proxy_pool.Base.{Bool, none, some, [], ◌∷◌}
use ip_proxy_pool.Models.{ProxyRecord, available}
use ip_proxy_pool.Storage.Server.{Pool}
use ip_proxy_pool.Storage.Lease.{Lease}
use ip_proxy_pool.Tests.Memory.{whole_ms, server}

abbrev pub fast : ProxyRecord whole_ms
fast = record {
  endpoint = "8.8.8.8:80";
  domain = "example.com";
  score = 85;
  state = available;
  source_names = "s" ∷ [];
  first_seen_at = 0;
  last_seen_at = 0;
  last_checked_at = some 0;
  next_check_at = 5;
  consecutive_successes = 2;
  consecutive_failures = 0;
  success_count = 2;
  failure_count = 0;
  latency_ewma_ms = some 120;
  last_status_code = some 200;
  last_error_type = none;
  last_error_message = none;
}

abbrev pub empty : Pool whole_ms server
empty = record {
  listed = Bool.false;
  records = [];
  quality = [];
  due = [];
  leased = [];
  lease_owners = [];
  available_latency = [];
  priority_due = [];
}

-- The worker `a` holds the record until the time 40.
abbrev pub busy : Pool whole_ms server
busy = record {
  listed = Bool.true;
  records = ("8.8.8.8:80", fast) ∷ [];
  quality = ("8.8.8.8:80", 85) ∷ [];
  due = [];
  leased = ("8.8.8.8:80", 40) ∷ [];
  lease_owners = ("8.8.8.8:80", "a:1") ∷ [];
  available_latency = ("8.8.8.8:80", 120) ∷ [];
  priority_due = ("8.8.8.8:80", 5) ∷ [];
}

abbrev pub lease : Lease
lease = record { domain = "example.com"; endpoint = "8.8.8.8:80"; owner = "a:1"; expires_at = 40 }
