-- ===== src/Tests/Selection.antt =====
-- The selection and the listing at concrete inputs.
use ip_proxy_pool.Base.{
  ℕ, zero, suc, ◌≡◌, ◌≢◌, refl, inl, true, Option, none, some, List, [], ◌∷◌, String, All,
}
use ip_proxy_pool.Models.{ProxyRecord}
use ip_proxy_pool.Storage.Server.{Pool}
use ip_proxy_pool.Storage.Index.{latency_index_score}
use ip_proxy_pool.Storage.Save.{save_record}
use ip_proxy_pool.Storage.Sound.{IsSound}
use ip_proxy_pool.Storage.Steps.{start, then_step, saves}
use ip_proxy_pool.Storage.Reachable.{reachable-IsSound}
use ip_proxy_pool.Storage.Select.{
  Request, ProxySelection, Replies, Indexed, criteria_of, select_random_proxies, both_segments,
  segment, inspect, selection, zrem_stale,
}
use ip_proxy_pool.Storage.Select.Reason.{skip_reason}
use ip_proxy_pool.Storage.Select.Total.{selection_ends}
use ip_proxy_pool.Storage.Select.Counting.{IsSelectable}
use ip_proxy_pool.Storage.Select.Sound.{selection_meets_request, IsAccounted}
use ip_proxy_pool.Storage.Select.Clean.{sound_pool_is_kept, IsEntry}
use ip_proxy_pool.Storage.Listing.{Query, Page, pages, fill, list_proxies}
use ip_proxy_pool.Storage.Listing.Pages.{IsPage, page_lists_its_range, over}
use ip_proxy_pool.Storage.Listing.Total.{listing_ends}
use ip_proxy_pool.Tests.Memory.{whole_ms, server}
use ip_proxy_pool.Tests.Records.{fast, empty}

-- The one member of the index.
abbrev entry : Indexed whole_ms server
entry = record { member = "8.8.8.8:80"; latency = 120; raw = some fast }

-- One whose record is gone.
abbrev gone : Indexed whole_ms server
gone = record { member = "9.9.9.9:80"; latency = 150; raw = none }

abbrev one_entry : Replies whole_ms server
one_entry zero num = entry ∷ []
one_entry (suc a) num = []

abbrev with_stale : Replies whole_ms server
with_stale zero num = entry ∷ gone ∷ []
with_stale (suc a) num = []

abbrev request : Request whole_ms server
request = record {
  min_score = 80;
  count = 2;
  max_latency_ms = some 500;
  max_checked_age_seconds = some 600;
  min_consecutive_successes = 2;
  cleanup_stale = true;
}

abbrev as_is : List (ProxyRecord whole_ms) → List (ProxyRecord whole_ms)
as_is rs = rs

abbrev one_selected : ProxySelection whole_ms server
one_selected = record {
  records = fast ∷ [];
  index_members = 2;
  indexed_candidates = 2;
  inspected = 2;
  skipped_score = 0;
  skipped_freshness = 0;
  skipped_successes = 0;
  skipped_inconsistent = 1;
}

abbrev pool : Pool whole_ms server
pool = save_record whole_ms server 1000 fast empty

selection_ends_example :
    select_random_proxies whole_ms server true 2 2 0 7 with_stale as_is request empty ≢ none
selection_ends_example = selection_ends whole_ms server with_stale true 2 2 0 7 as_is request empty

abbrev Selectable : ProxyRecord whole_ms → Type 0
Selectable = IsSelectable whole_ms server (criteria_of whole_ms server 7 request)

selection_meets_request_example :
    All Selectable (fast ∷ [])
    × IsAccounted whole_ms server as_is
        (criteria_of whole_ms server 7 request)
        with_stale
        2
        one_selected
unfolding select_random_proxies both_segments segment inspect selection zrem_stale skip_reason
    latency_index_score
selection_meets_request_example =
    selection_meets_request whole_ms server as_is (λ P rs h. h) (λ rs. refl) true 2 2 0 7 with_stale
      request empty empty one_selected refl

empty_at : (k : String) → IsSound whole_ms server 1000 k empty
empty_at k = record {
  readable = refl;
  paired = refl;
  kept = inl refl;
  quality = refl;
  latency = refl;
  priority = refl;
}

pool_at : (k : String) → IsSound whole_ms server 1000 k pool
pool_at k =
    reachable-IsSound whole_ms server 1000 k (then_step start (saves fast tt) tt) (empty_at k)

replies_at :
    (a n : ℕ)
    → All (IsEntry whole_ms server (criteria_of whole_ms server 7 request) pool) (one_entry a n)
unfolding save_record latency_index_score
replies_at zero n = (record { raw = refl; indexed = refl; in_range = refl }, tt)
replies_at (suc a) n = tt

abbrev clean_selection : ProxySelection whole_ms server
clean_selection = record one_selected {
  index_members = 1;
  indexed_candidates = 1;
  inspected = 1;
  skipped_inconsistent = 0;
}

sound_pool_is_kept_example : pool ≡ pool
unfolding select_random_proxies both_segments segment inspect selection zrem_stale skip_reason
    latency_index_score
sound_pool_is_kept_example =
    sound_pool_is_kept whole_ms server 1000 as_is true 1 1 0 7 one_entry request pool pool
      clean_selection pool_at replies_at refl

abbrev query : Query
query = record {
  min_score = 0;
  max_score = 100;
  limit = 1;
  offset = 0;
  state = none;
  source = some "s";
}

abbrev index : List (Option (ProxyRecord whole_ms))
index = none ∷ some fast ∷ some fast ∷ []

abbrev first_page : Page whole_ms server
first_page = record { items = fast ∷ []; offset = 0; next_offset = some 2 }

page_lists_its_range_example : IsPage whole_ms server query index first_page
unfolding list_proxies pages fill
page_lists_its_range_example = page_lists_its_range whole_ms server query index first_page refl

listing_ends_example : list_proxies whole_ms server (over whole_ms server query index) query ≢ none
listing_ends_example = listing_ends whole_ms server query (over whole_ms server query index)
