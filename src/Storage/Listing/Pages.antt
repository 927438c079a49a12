-- ===== src/Storage/Listing/Pages.antt =====
-- The pages of the listing over one index: what a page holds.
use mathlib.Core.List.{append-nil}
use ip_proxy_pool.Base.{
  ℕ, zero, suc, ◌+◌, ◌-◌, ◌≤◌, ◌<◌, ◌≡◌, ◌⊎◌, refl, ap, sym, ◌∙◌, inl, inr, true, ◌&&◌, ◌||◌,
  Option, none, some, List, [], ◌∷◌, ◌++◌, leb, ltb, ◌==◌, length, take, drop, arith, Bool-cases,
  length-take,
}
use ip_proxy_pool.Models.{Floats, ProxyRecord}
use ip_proxy_pool.Storage.Server.{Server, Result-cases, ok, value_error}
use ip_proxy_pool.Storage.Listing.{
  Query, Page, Replies, is_valid, fill, fetch_count, full_page, last_page, pages, list_proxies,
}
use ip_proxy_pool.Storage.Listing.Window.{
  range, range-add, nothing_left, matches, matches-append, fill-IsFilled,
}

module _ {ℓ} {A : Type ℓ} where
  take-take : (n m : ℕ) (xs : List A) → n ≤ length (take m xs) → take n (take m xs) ≡ take n xs
  take-take zero m xs h = refl
  take-take (suc n) zero xs h = absurd (omega (arith, h))
  take-take (suc n) (suc m) [] h = refl
  take-take (suc n) (suc m) (x ∷ xs) h = ap (λ t. x ∷ t) (take-take n m xs (omega (arith, h)))

  -- A range that came short is followed by nothing.
  came_short :
      (a asked from end : ℕ) (xs : List A)
      → a ≤ from
      → from + length (take asked (drop from xs)) ≤ end
      → length (take asked (drop from xs)) < asked
      → range a end xs ≡ range a (from + length (take asked (drop from xs))) xs
  came_short a asked from end xs after within short =
      let b = from + length (take asked (drop from xs)) in
      let whole : b + (end - b) ≡ end = omega (arith, within) in
      ap (λ k. range a k xs) (sym whole)
      ∙ range-add a b (end - b) xs (omega (arith, after))
      ∙ ap (λ ys. range a b xs ++ ys) (nothing_left asked from (end - b) xs short)
      ∙ append-nil (range a b xs)

abbrev end_of : Option ℕ → ℕ
end_of none = 10001
end_of (some n) = n

module _ (fl : Floats) (sv : Server fl) (q : Query) where
  open sv use {Raw, decode_record}

  abbrev pub over : List (Option Raw) → Replies fl sv
  over xs start num = take num (drop start xs)

  pub record IsPage (xs : List (Option Raw)) (page : Page fl sv) : Type 0 where
    pub from : page.offset ≡ q.offset
    pub fits : length page.items ≤ q.limit
    pub holds : page.items ≡ matches fl sv q (range q.offset (end_of page.next_offset) xs)
    pub goes_on :
        (n : ℕ)
        → page.next_offset ≡ some n
        → (length page.items ≡ q.limit) × ((q.offset < n) × (n ≤ 10000))

  pub valid_bounds : is_valid fl sv q ≡ true → (1 ≤ q.limit) × (q.offset ≤ 10000)
  valid_bounds valid = (ground (arith, valid), ground (arith, valid))

  module _ (xs : List (Option Raw)) where
    last-IsPage :
        (items : List (ProxyRecord fl)) (b : ℕ)
        → length items ≤ q.limit
        → items ≡ matches fl sv q (range q.offset b xs)
        → range q.offset 10001 xs ≡ range q.offset b xs
        → IsPage xs (last_page fl sv q.offset items)
    last-IsPage items b fits holds same = record {
      from = refl;
      fits = fits;
      holds = holds ∙ ap (matches fl sv q) (sym same);
      goes_on = λ n e. absurd (ground (arith, e));
    }

    -- What is collected after a range is what matches up to there.
    collected :
        (asked current used : ℕ) (items items' : List (ProxyRecord fl))
        → q.offset ≤ current
        → items ≡ matches fl sv q (range q.offset current xs)
        → used ≤ length (over xs current asked)
        → items' ≡ items ++ matches fl sv q (take used (over xs current asked))
        → items' ≡ matches fl sv q (range q.offset (current + used) xs)
    collected asked current used items items' after holds within added =
        let part = drop current xs in
        added
        ∙ ap (λ ys. items ++ matches fl sv q ys) (take-take used asked part within)
        ∙ ap (λ ys. ys ++ matches fl sv q (take used part)) holds
        ∙ sym (matches-append fl sv q (range q.offset current xs) (take used part))
        ∙ ap (matches fl sv q) (sym (range-add q.offset current used xs after))

    full-IsPage :
        (asked current used : ℕ) (items : List (ProxyRecord fl))
        → q.offset ≤ current
        → current ≤ 10000
        → asked ≤ 10001 - current
        → length items ≡ q.limit
        → 1 ≤ used
        → used ≤ length (over xs current asked)
        → items ≡ matches fl sv q (range q.offset (current + used) xs)
        → IsPage xs (
            full_page fl sv q.offset items used
              (length (over xs current asked))
              asked
              (current + used))
    full-IsPage asked current used items after still most full one within holds =
        let raws = over xs current asked in
        let got : length raws ≤ asked = omega (arith, length-take asked (drop current xs)) in
        elim (Bool-cases
          ((ltb used (length raws) || length raws == asked) && leb (current + used) 10000)) [
            | inl more ↦ rw more (record {
              from = refl;
              fits = omega (arith, full);
              holds = holds;
              goes_on = λ n e. (full, ground (arith, more, e, after, one));
            })
            | inr over_ ↦ elim (Bool-cases (leb (current + used) 10000)) [
              | inr last ↦
                  let end : current + used ≡ 10001 =
                    ground (arith, last, still, most, within, got) in
                  rw over_ (
                    last-IsPage items (current + used) (omega (arith, full)) holds
                      (ap (λ k. range q.offset k xs) (sym end)))
              | inl room ↦
                  let all : length raws ≡ used = ground (arith, over_, room, within, got) in
                  let short : length raws < asked = ground (arith, over_, room, within, got) in
                  rw over_ (
                    last-IsPage items (current + length raws) (omega (arith, full)) (rw all holds) (
                      came_short q.offset asked current 10001 xs after (ground (arith, room, all))
                        short))
            ]
          ]

    -- A range that came short is the last one.
    short-IsPage :
        (asked current : ℕ) (items : List (ProxyRecord fl))
        → q.offset ≤ current
        → current + length (over xs current asked) ≤ 10001
        → length items ≤ q.limit
        → items ≡ matches fl sv q (range q.offset (current + length (over xs current asked)) xs)
        → length (over xs current asked) < asked
        → IsPage xs (last_page fl sv q.offset items)
    short-IsPage asked current items after within fits holds short =
        last-IsPage items (current + length (over xs current asked)) fits holds
          (came_short q.offset asked current 10001 xs after within short)

    -- What the loop over one range has collected, and why it ended.
    filled-cases :
        (asked current : ℕ) (items items' : List (ProxyRecord fl)) (consumed : ℕ)
        → fill fl sv q q.limit (over xs current asked) items 0 ≡ ok (items', consumed)
        → q.offset ≤ current
        → length items < q.limit
        → items ≡ matches fl sv q (range q.offset current xs)
        → (items' ≡ matches fl sv q (range q.offset (current + consumed) xs))
          × (consumed ≤ length (over xs current asked))
          × (((length items' ≡ q.limit) × (1 ≤ consumed))
              ⊎ ((length items' < q.limit) × (consumed ≡ length (over xs current asked))))
    filled-cases asked current items items' consumed filled after room holds =
        let raws = over xs current asked in
        let i = fill-IsFilled fl sv q q.limit raws items 0 items' consumed filled room in
        let used : consumed ≡ i.used = omega (arith, i.moved) in
        let within : consumed ≤ length raws = omega (arith, used, i.within) in
        (
          collected asked current consumed items items' after holds within
              (i.added ∙ ap (λ k. items ++ matches fl sv q (take k raws)) (sym used)),
          within,
          elim i.ends [
            | inl (full, one) ↦ inl (full, omega (arith, used, one))
            | inr (more, all) ↦ inr (more, omega (arith, used, all))
          ],
        )

    pages-IsPage :
        (fuel current : ℕ) (items : List (ProxyRecord fl)) (page : Page fl sv)
        → pages fl sv fuel (over xs) q current items ≡ some (ok page)
        → q.offset ≤ current
        → current ≤ 10001
        → length items < q.limit
        → items ≡ matches fl sv q (range q.offset current xs)
        → IsPage xs page
    unfolding pages
    pages-IsPage zero current items page e after within room holds = absurd (ground (arith, e))
    pages-IsPage (suc fuel) current items page e after within room holds =
        let asked = fetch_count fl sv q.limit current in
        let raws = over xs current asked in
        let got : length raws ≤ asked = omega (arith, length-take asked (drop current xs)) in
        let most : asked ≤ 10001 - current = omega arith in
        elim (Bool-cases (leb current 10000)) [
          | inr done ↦
              let end : current ≡ 10001 = ground (arith, done, within) in
              let last : last_page fl sv q.offset items ≡ page = ground (arith, done, e) in
              rw (← last) (
                last-IsPage items current (omega (arith, room)) holds
                  (ap (λ k. range q.offset k xs) (sym end)))
          | inl still ↦ elim (Bool-cases (length raws == 0)) [
            | inl empty ↦
                let last : last_page fl sv q.offset items ≡ page =
                  ground (arith, still, empty, e) in
                let nothing : length raws ≡ 0 = ground (arith, empty) in
                let same : current + length raws ≡ current = omega (arith, nothing) in
                rw (← last) (
                  short-IsPage asked current items after (omega (arith, nothing, within))
                    (omega (arith, room)) (rw same holds) (ground (arith, still, nothing)))
            | inr any ↦ elim (Result-cases (fill fl sv q q.limit raws items 0)) [
              | inl bad ↦ absurd (ground (arith, still, any, bad, e))
              | inr ((items', consumed), filled) ↦
                  let (holds', within', ends) =
                    filled-cases asked current items items' consumed filled after room holds in
                  elim ends [
                    | inl (full, one) ↦
                        let last : full_page fl sv q.offset items' consumed (length raws) asked
                              (current + consumed)
                            ≡ page =
                          ground (arith, still, any, filled, full, e) in
                        rw (← last) (
                          full-IsPage asked current consumed items' after (ground (arith, still))
                            most full one within' holds')
                    | inr (more, all) ↦ elim (Bool-cases (ltb (length raws) asked)) [
                      | inl short ↦
                          let last : last_page fl sv q.offset items' ≡ page =
                            ground (arith, still, any, filled, more, short, e) in
                          rw (← last) (
                            short-IsPage asked current items' after
                              (ground (arith, got, most, still)) (omega (arith, more))
                              (holds'
                                ∙ ap (λ k. matches fl sv q (range q.offset (current + k) xs)) all)
                              (ground (arith, short)))
                      | inr long ↦
                          pages-IsPage fuel (current + consumed) items' page
                            (ground (arith, still, any, filled, more, long, e))
                            (omega (arith, after)) (ground (arith, within', got, most, still)) more
                            holds'
                    ]
                  ]
            ]
          ]
        ]

    nothing_before : [] ≡ matches fl sv q (range q.offset q.offset xs)
    unfolding matches
    nothing_before =
        let here_ : q.offset - q.offset ≡ 0 = omega arith in
        ap (λ k. matches fl sv q (take k (drop q.offset xs))) (sym here_)

    -- Over an index that stays as it is while it is read, with or without members whose records
    -- are gone, a page that the listing returns starts where it was asked to, has at most `limit`
    -- records, and they are exactly the records of the asked state and source between its offset
    -- and the next one, in the order of the index; without a next offset they reach the end, or
    -- position 10,000, past which nothing is read. A next offset is given only with a full page, is
    -- past the offset and at most 10,000: so pages that follow one another leave out no record and
    -- repeat none.
    pub page_lists_its_range :
        (page : Page fl sv) → list_proxies fl sv (over xs) q ≡ some (ok page) → IsPage xs page
    unfolding list_proxies
    page_lists_its_range page e = elim (Bool-cases (is_valid fl sv q)) [
      | inr bad ↦
          let e' : some value_error ≡ some (ok page) = rw bad at e in absurd (ground (arith, e'))
      | inl valid ↦
          let (one, low) = valid_bounds valid in
          pages-IsPage 10002 q.offset [] page (rw valid at e) (omega arith) (omega (arith, low))
            (omega (arith, one)) nothing_before
    ]
