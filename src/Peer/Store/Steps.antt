-- ===== src/Peer/Store/Steps.antt =====
-- The calls of one peer cache's methods as steps: each is one script or one transaction of the
-- server, so any interleaving of the processes that share the cache is a sequence of such steps.
use ip_proxy_pool.Base.{ℕ, ◌≤◌, ◌<◌, ◌≡◌, Bool, Option, List, String}
use ip_proxy_pool.Models.{Floats}
use ip_proxy_pool.Storage.Server.{ok}
use ip_proxy_pool.Peer.Policy.{SelectionPolicy}
use ip_proxy_pool.Peer.Store.{PeerServer, Cache, PeerCacheStore, PeerCacheRecord, SelectionReceipt}
use ip_proxy_pool.Peer.Store.Sync.{begin_sync, abort_sync, note_failure, heartbeat, note_api_result}
use ip_proxy_pool.Peer.Store.Replace.{ReplaceResult, replace}
use ip_proxy_pool.Peer.Store.Choice.{SelectedProxy, select}
use ip_proxy_pool.Peer.Store.Failure.{invalidate}

-- The calls whose time is at least `from` and before `until`.
module _ (fl : Floats) (sv : PeerServer fl) (st : PeerCacheStore fl sv) (from until : ℕ) where
  pub data Step (s : Cache fl sv) : Cache fl sv → Type 0 where
    begins :
        (clock : ℕ) (owner : String) (o : Option ℕ) {s' : Cache fl sv}
        → begin_sync fl sv clock owner s ≡ ok (o, s')
        → Step s s'
    aborts :
        (clock generation : ℕ) (owner : String) → Step s (abort_sync fl sv clock generation owner s)
    notes : (outcome : String) (now : ℕ) → Step s (note_failure fl sv outcome now s)
    beats : (now : ℕ) → Step s (heartbeat fl sv now s)
    notes_api : (success : Bool) → Step s (note_api_result fl sv success s)
    replaces :
        (snapshot : List (PeerCacheRecord fl)) (generation : Option ℕ) (owner : String)
        (clock now : ℕ) (is_formal : String → Bool) (n : ReplaceResult) {s' : Cache fl sv}
        → from ≤ now
        → now < until
        → replace fl sv st snapshot generation owner clock now is_formal s ≡ ok (n, s')
        → Step s s'
    selects :
        (policy : SelectionPolicy fl) (tokens : List (String × String)) (exclusions : List String)
        (principal : String) (is_formal : String → Bool) (clock now : ℕ)
        (proxies : List (SelectedProxy fl)) {s' : Cache fl sv}
        → select fl sv st policy tokens exclusions principal is_formal clock now s
          ≡ ok (proxies, s')
        → Step s s'
    fails :
        (r : SelectionReceipt fl) (clock now : ℕ) (b : Bool) {s' : Cache fl sv}
        → from ≤ now
        → now < until
        → invalidate fl sv st r clock now s ≡ ok (b, s')
        → Step s s'

  pub data Reach (s : Cache fl sv) : Cache fl sv → Type 0 where
    here : Reach s s
    next : {s' s'' : Cache fl sv} → Reach s s' → Step s' s'' → Reach s s''
