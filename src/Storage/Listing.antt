-- ===== src/Storage/Listing.antt =====
-- `list_proxies` of storage/repository.py: the records of a domain by quality, in pages.
pub mod Window
pub mod Pages
pub mod Total
use ip_proxy_pool.Base.{
  ℕ, zero, suc, ◌+◌, ◌-◌, ◌*◌, min, max, Bool, true, false, not, ◌&&◌, ◌||◌, Option, none, some,
  List, [], ◌∷◌, ◌++◌, String, leb, ltb, ◌==◌, if◌then◌else◌, length, elem,
}
use Prim.Native.String.{count}
use ip_proxy_pool.Models.{
  Floats, ProxyRecord, ProxyState, is_available, is_quarantined, is_candidate,
}
use ip_proxy_pool.Storage.Server.{Server, Result, ok, value_error, ◌>>=◌, ◌>>◌, require}

abbrev same_state : ProxyState → ProxyState → Bool
same_state ProxyState.candidate s = is_candidate s
same_state ProxyState.available s = is_available s
same_state ProxyState.quarantined s = is_quarantined s
same_state ProxyState.degraded s = not (is_candidate s || (is_available s || is_quarantined s))

abbrev is_state : Option ProxyState → ProxyState → Bool
is_state none s = true
is_state (some wanted) s = same_state wanted s

abbrev is_source : Option String → List String → Bool
is_source none names = true
is_source (some wanted) names = elem wanted names

-- The arguments of the method, the domain apart.
pub record Query : Type 0 where
  pub min_score : ℕ
  pub max_score : ℕ
  pub limit : ℕ
  pub offset : ℕ
  pub state : Option ProxyState
  pub source : Option String

abbrev has_length : Option String → Bool
has_length none = true
has_length (some s) = leb 1 (count s) && leb (count s) 64

module _ (fl : Floats) (sv : Server fl) where
  open sv use {Raw, decode_record}

  pub record Page : Type 0 where
    pub items : List (ProxyRecord fl)
    pub offset : ℕ
    pub next_offset : Option ℕ

  abbrev pub is_match : Query → ProxyRecord fl → Bool
  is_match q r = is_state q.state r.state && is_source q.source r.source_names

  abbrev pub push : Bool → ProxyRecord fl → List (ProxyRecord fl) → List (ProxyRecord fl)
  push wanted r items = if wanted then items ++ (r ∷ []) else items

  -- The replies of ZREVRANGEBYSCORE and HMGET for `num` members from `start` on: what is stored
  -- for each.
  abbrev pub Replies : Type 0
  Replies = (start num : ℕ) → List (Option Raw)

  -- The loop over what one range holds: the items and how much of the range was consumed.
  unfoldable pub fill :
      Query
      → (limit : ℕ) → List (Option Raw)
      → List (ProxyRecord fl)
      → (consumed : ℕ) → Result (List (ProxyRecord fl) × ℕ)
  fill q limit [] items consumed = ok (items, consumed)
  fill q limit (none ∷ raws) items consumed = fill q limit raws items (consumed + 1)
  fill q limit (some raw ∷ raws) items consumed = elim (decode_record raw) [
    | none ↦ value_error
    | some r ↦
        let items' = push (is_match q r) r items in
        let rest = fill q limit raws items' (consumed + 1) in
        if is_match q r && length items' == limit then ok (items', consumed + 1) else rest
  ]

  abbrev pub fetch_count : (limit current : ℕ) → ℕ
  fetch_count limit current = min (min (max (limit * 5) 50) 1001) (10001 - current)

  abbrev pub last_page : (offset : ℕ) → List (ProxyRecord fl) → Page
  last_page offset items = record { items = items; offset = offset; next_offset = none }

  -- The page when it is full.
  abbrev pub full_page :
      (offset : ℕ) → List (ProxyRecord fl) → (consumed members fetched current : ℕ) → Page
  full_page offset items consumed members fetched current = record {
    items = items;
    offset = offset;
    next_offset =
        if (ltb consumed members || members == fetched) && leb current 10000
        then some current
        else none;
  }

  -- The loop, on fuel: `none` when it is out.
  unfoldable pub pages :
      (fuel : ℕ) → Replies → Query → (current : ℕ) → List (ProxyRecord fl) → Option (Result Page)
  pages zero replies q current items = none
  pages (suc fuel) replies q current items =
      let fetched = fetch_count q.limit current in
      let raws = replies current fetched in
      if not (leb current 10000) || length raws == 0
      then some (ok (last_page q.offset items))
      else elim (fill q q.limit raws items 0) [
        | value_error ↦ some value_error
        | ok (items', consumed) ↦
            let rest = pages fuel replies q (current + consumed) items' in
            if length items' == q.limit
            then some
                (ok (full_page q.offset items' consumed (length raws) fetched (current + consumed)))
            else if ltb (length raws) fetched
            then some (ok (last_page q.offset items'))
            else rest
      ]

  abbrev pub is_valid : Query → Bool
  is_valid q =
      (leb 1 q.limit && leb q.limit 200)
      && (leb q.offset 10000
          && ((leb q.min_score 100 && leb q.max_score 100)
              && (leb q.min_score q.max_score && has_length q.source)))

  unfoldable pub list_proxies : Replies → Query → Option (Result Page)
  unfolding pages
  list_proxies replies q =
      if is_valid q then pages 10002 replies q q.offset [] else some value_error
