-- ===== src/Storage/Listing/Total.antt =====
-- The loop of the listing ends.

use ip_proxy_pool.Base.{
  ℕ, zero, suc, ◌+◌, ◌-◌, ◌≤◌, ◌<◌, ◌≡◌, ◌≢◌, ◌⊎◌, inl, inr, not, ◌||◌, Option, none, List, [], leb,
  ◌==◌, length, arith, Bool-cases,
}
use ip_proxy_pool.Models.{Floats, ProxyRecord}
use ip_proxy_pool.Storage.Server.{Server, Result-cases, ok}
use ip_proxy_pool.Storage.Listing.{Query, Replies, is_valid, fill, fetch_count, pages, list_proxies}
use ip_proxy_pool.Storage.Listing.Window.{fill-IsFilled}

module _ (fl : Floats) (sv : Server fl) (q : Query) (replies : Replies fl sv) where
  fill-consumed :
      (raws : List (Option sv.Raw)) (items : List (ProxyRecord fl)) (c : ℕ)
      (items' : List (ProxyRecord fl)) (c' : ℕ)
      → fill fl sv q q.limit raws items c ≡ ok (items', c')
      → length items < q.limit
      → 1 ≤ length raws
      → (length items' ≡ q.limit) ⊎ ((length items' < q.limit) × (c + 1 ≤ c'))
  fill-consumed raws items c items' c' e room any =
      let i = fill-IsFilled fl sv q q.limit raws items c items' c' e room in
      elim i.ends [
        | inl (full, one) ↦ inl full
        | inr (more, all) ↦ inr (more, omega (arith, i.moved, all, any))
      ]

  pages-ne-none :
      (fuel current : ℕ) (items : List (ProxyRecord fl))
      → length items < q.limit
      → 10001 - current < fuel
      → pages fl sv fuel replies q current items ≢ none
  unfolding pages
  pages-ne-none zero current items room enough = absurd (omega (arith, enough))
  pages-ne-none (suc fuel) current items room enough =
      let asked = fetch_count fl sv q.limit current in
      let raws = replies current asked in
      elim (Bool-cases (not (leb current 10000) || length raws == 0)) [
        | inl over_ ↦ rw over_ (λ e. cc)
        | inr any ↦ elim (Result-cases (fill fl sv q q.limit raws items 0)) [
          | inl bad ↦ rw (any, bad) (λ e. cc)
          | inr ((items', consumed), filled) ↦
              elim (fill-consumed raws items 0 items' consumed filled room (ground (arith, any))) [
                | inl full ↦ λ e. ground (arith, any, filled, full, e)
                | inr (more, one) ↦
                    let rest =
                      pages-ne-none fuel (current + consumed) items' more
                        (ground (arith, any, one, enough)) in
                    λ e. ground (arith, any, filled, more, rest, e)
              ]
        ]
      ]

  -- Whatever the server replies, the loop of the listing ends within its fuel of 10,002 rounds: a
  -- round that is not the last one moves on by at least one member, and none starts past 10,000.
  pub listing_ends : list_proxies fl sv replies q ≢ none
  unfolding list_proxies
  listing_ends = elim (Bool-cases (is_valid fl sv q)) [
    | inr bad ↦ rw bad (λ e. cc)
    | inl valid ↦ rw valid (pages-ne-none 10002 q.offset [] (ground (arith, valid)) (omega arith))
  ]
