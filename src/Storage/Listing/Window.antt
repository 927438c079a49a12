-- ===== src/Storage/Listing/Window.antt =====
-- One range of the listing, and ranges one after the other.
use mathlib.Core.List.{append-nil, append_assoc}
use ip_proxy_pool.Base.{
  ℕ, zero, suc, ◌+◌, ◌-◌, ◌≤◌, ◌<◌, ◌≡◌, refl, ap, sym, ◌∙◌, ◌⊎◌, inl, inr, Option, none, some,
  List, [], ◌∷◌, ◌++◌, ◌==◌, if◌then◌else◌, length, take, drop, arith, Bool-cases, Option-cases,
  length-append, length-take,
}
use ip_proxy_pool.Models.{Floats, ProxyRecord}
use ip_proxy_pool.Storage.Server.{Server, ok}
use ip_proxy_pool.Storage.Listing.{Query, is_match, fill}

module _ {ℓ} {A : Type ℓ} where
  take-nil : (n : ℕ) → take {A = A} n [] ≡ []
  take-nil zero = refl
  take-nil (suc n) = refl

  drop-nil : (n : ℕ) → drop {A = A} n [] ≡ []
  drop-nil zero = refl
  drop-nil (suc n) = refl

  take-add : (n m : ℕ) (xs : List A) → take (n + m) xs ≡ take n xs ++ take m (drop n xs)
  take-add zero m xs = ap (λ k. take k xs) (omega arith)
  take-add (suc n) m [] = take-nil (suc n + m) ∙ sym (take-nil m)
  take-add (suc n) m (x ∷ xs) =
      let next : suc (n + m) ≡ suc n + m = omega arith in
      rw (← next) (ap (λ t. x ∷ t) (take-add n m xs))

  drop-add : (n m : ℕ) (xs : List A) → drop m (drop n xs) ≡ drop (n + m) xs
  drop-add zero m xs = ap (λ k. drop k xs) (omega arith)
  drop-add (suc n) m [] = drop-nil m ∙ sym (drop-nil (suc n + m))
  drop-add (suc n) m (x ∷ xs) =
      let next : suc (n + m) ≡ suc n + m = omega arith in rw (← next) (drop-add n m xs)

  drop_all : (n : ℕ) (xs : List A) → length xs ≤ n → drop n xs ≡ []
  drop_all n [] h = drop-nil n
  drop_all zero (x ∷ xs) h = absurd (omega (arith, h))
  drop_all (suc n) (x ∷ xs) h = drop_all n xs (omega (arith, h))

  -- The entries from `a` up to `b`.
  abbrev pub range : (a b : ℕ) → List A → List A
  range a b xs = take (b - a) (drop a xs)

  pub range-add :
      (a b n : ℕ) (xs : List A) → a ≤ b → range a (b + n) xs ≡ range a b xs ++ take n (drop b xs)
  range-add a b n xs h =
      let sum : b + n - a ≡ b - a + n = omega (arith, h) in
      let whole : a + (b - a) ≡ b = omega (arith, h) in
      ap (λ k. take k (drop a xs)) sum
      ∙ take-add (b - a) n (drop a xs)
      ∙ ap (λ ys. range a b xs ++ take n ys) (drop-add a (b - a) xs ∙ ap (λ k. drop k xs) whole)

  -- Nothing is left behind a range that was asked for more than it had.
  pub nothing_left :
      (asked from more : ℕ) (xs : List A)
      → length (take asked (drop from xs)) < asked
      → take more (drop (from + length (take asked (drop from xs))) xs) ≡ []
  nothing_left asked from more xs short =
      let got = take asked (drop from xs) in
      let fits : length (drop from xs) ≤ length got =
        omega (arith, short, length-take asked (drop from xs)) in
      ap (take more)
        (sym (drop-add from (length got) xs) ∙ drop_all (length got) (drop from xs) fits)
      ∙ take-nil more

module _ (fl : Floats) (sv : Server fl) (q : Query) where
  open sv use {Raw, decode_record}

  abbrev decoded : Option Raw → Option (ProxyRecord fl)
  decoded none = none
  decoded (some raw) = decode_record raw

  abbrev add_match : Option (ProxyRecord fl) → List (ProxyRecord fl) → List (ProxyRecord fl)
  add_match none rest = rest
  add_match (some r) rest = if is_match fl sv q r then r ∷ rest else rest

  -- The records that the query asks for, in the order of the index.
  unfoldable pub matches : List (Option Raw) → List (ProxyRecord fl)
  matches [] = []
  matches (o ∷ raws) = add_match (decoded o) (matches raws)

  pub matches-append : (xs ys : List (Option Raw)) → matches (xs ++ ys) ≡ matches xs ++ matches ys
  unfolding matches
  matches-append [] ys = refl
  matches-append (none ∷ xs) ys = matches-append xs ys
  matches-append (some raw ∷ xs) ys = elim (Option-cases (decode_record raw)) [
    | inl bad ↦ rw bad (matches-append xs ys)
    | inr (r, good) ↦ elim (Bool-cases (is_match fl sv q r)) [
      | inl wanted ↦ rw (good, wanted) (ap (λ t. r ∷ t) (matches-append xs ys))
      | inr other ↦ rw (good, other) (matches-append xs ys)
    ]
  ]

  -- What one range adds: the matches of the part that was consumed, which is all of it unless the
  -- page is full.
  pub record IsFilled (limit : ℕ) (raws : List (Option Raw)) (items : List (ProxyRecord fl)) (c : ℕ)
      (items' : List (ProxyRecord fl)) (c' : ℕ) : Type 0 where
    pub used : ℕ
    pub moved : c' ≡ c + used
    pub within : used ≤ length raws
    pub added : items' ≡ items ++ matches (take used raws)
    pub ends :
        ((length items' ≡ limit) × (1 ≤ used)) ⊎ ((length items' < limit) × (used ≡ length raws))

  pub fill-IsFilled :
      (limit : ℕ) (raws : List (Option Raw)) (items : List (ProxyRecord fl)) (c : ℕ)
      (items' : List (ProxyRecord fl)) (c' : ℕ)
      → fill fl sv q limit raws items c ≡ ok (items', c')
      → length items < limit
      → IsFilled limit raws items c items' c'
  unfolding fill matches
  fill-IsFilled limit [] items c items' c' e room =
      let same : items' ≡ items = ground (arith, e) in
      let still : c' ≡ c = ground (arith, e) in
      record {
        used = 0;
        moved = omega (arith, still);
        within = omega arith;
        added = same ∙ sym (append-nil items);
        ends = inr (rw same room, refl);
      }
  fill-IsFilled limit (none ∷ raws) items c items' c' e room =
      let i = fill-IsFilled limit raws items (c + 1) items' c' e room in
      record {
        used = suc i.used;
        moved = omega (arith, i.moved);
        within = omega (arith, i.within);
        added = i.added;
        ends = ground (arith, i.ends);
      }
  fill-IsFilled limit (some raw ∷ raws) items c items' c' e room =
      elim (Option-cases (decode_record raw)) [
        | inl bad ↦ absurd (ground (arith, bad, e))
        | inr (r, good) ↦ elim (Bool-cases (is_match fl sv q r)) [
          | inr other ↦
              let i =
                fill-IsFilled limit raws items (c + 1) items' c' (ground (arith, good, other, e))
                  room in
              record {
                used = suc i.used;
                moved = omega (arith, i.moved);
                within = omega (arith, i.within);
                added = rw (good, other) i.added;
                ends = ground (arith, i.ends);
              }
          | inl wanted ↦ elim (Bool-cases (length (items ++ (r ∷ [])) == limit)) [
            | inl full ↦
                let last : items' ≡ items ++ (r ∷ []) = ground (arith, good, wanted, full, e) in
                let count : length (items ++ (r ∷ [])) ≡ limit = ground (arith, full) in
                record {
                  used = 1;
                  moved = ground (arith, good, wanted, full, e);
                  within = omega arith;
                  added = rw (good, wanted) last;
                  ends = inl (ap length last ∙ count, omega arith);
                }
            | inr more ↦
                let longer : length (items ++ (r ∷ [])) < limit =
                  ground (arith, more, room, length-append items (r ∷ [])) in
                let i =
                  fill-IsFilled limit raws (items ++ (r ∷ [])) (c + 1) items' c'
                    (ground (arith, good, wanted, more, e)) longer in
                record {
                  used = suc i.used;
                  moved = omega (arith, i.moved);
                  within = omega (arith, i.within);
                  added =
                      rw (good, wanted)
                        (i.added ∙ append_assoc items (r ∷ []) (matches (take i.used raws)));
                  ends = ground (arith, i.ends);
                }
          ]
        ]
      ]
