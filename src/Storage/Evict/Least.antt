-- ===== src/Storage/Evict/Least.antt =====
-- The least entries of a list: which they are, and how often a text stands among theirs.
use ip_proxy_pool.Base.{
  ℕ, zero, suc, ◌+◌, ◌≤◌, ◌≡◌, refl, ◌⊎◌, inl, inr, Bool, false, List, [], ◌∷◌, map, String, take,
  All, IsIn, count, Bool-cases, arith,
}
use ip_proxy_pool.Storage.Evict.{insert, insert_all, sorted}
use ip_proxy_pool.Storage.Evict.Ranked.{IsStrictOrder, IsOrdered, insert_all-IsOrdered}

-- The first entries of an ordered list: every entry is one of them, or before none of them.
module _ {A : Type 0} (before : A → A → Bool) where
  abbrev pub IsChosenOrNotBefore : List A → A → Type 0
  IsChosenOrNotBefore chosen x = IsIn x chosen ⊎ All (λ v. before x v ≡ false) chosen

  All-inr : (n : ℕ) (xs : List A) → n ≡ 0 → All (IsChosenOrNotBefore (take n xs)) xs
  All-inr n xs e = rw e (go xs)
    where
      go : (ys : List A) → All (IsChosenOrNotBefore []) ys
      go [] = tt
      go (y ∷ ys) = (inr tt, go ys)

  All-cons :
      (y : A) (chosen xs : List A)
      → All (λ x. before x y ≡ false) xs
      → All (IsChosenOrNotBefore chosen) xs
      → All (IsChosenOrNotBefore (y ∷ chosen)) xs
  All-cons y chosen [] h k = tt
  All-cons y chosen (x ∷ xs) h k = (
    elim k.0 [ inl in_ ↦ inl (inr in_) | inr not_before ↦ inr (h.0, not_before) ],
    All-cons y chosen xs h.1 k.1,
  )

  take-IsChosenOrNotBefore :
      (n : ℕ) (xs : List A) → IsOrdered before xs → All (IsChosenOrNotBefore (take n xs)) xs
  take-IsChosenOrNotBefore zero xs o = All-inr 0 xs refl
  take-IsChosenOrNotBefore (suc n) [] o = tt
  take-IsChosenOrNotBefore (suc n) (y ∷ ys) o =
      (inl (inl refl), All-cons y (take n ys) ys o.0 (take-IsChosenOrNotBefore n ys o.1))

  insert-All_inv :
      (P : A → Type 0) (x : A) (ys : List A) → All P (insert before x ys) → P x × All P ys
  unfolding insert
  insert-All_inv P x [] h = (h.0, tt)
  insert-All_inv P x (y ∷ ys) h = elim (Bool-cases (before x y)) [
    | inl lower ↦ let g = rw (lower, insert) at h in (g.0, g.1)
    | inr upper ↦
        let g : P y × All P (insert before x ys) = rw (upper, insert) at h in
        let r = insert-All_inv P x ys g.1 in (r.0, (g.0, r.1))
  ]

  insert_all-All_inv :
      (P : A → Type 0) (xs ys : List A) → All P (insert_all before ys xs) → All P xs × All P ys
  unfolding insert_all
  insert_all-All_inv P [] ys h = (tt, h)
  insert_all-All_inv P (x ∷ xs) ys h =
      let (later, now_) = insert_all-All_inv P xs (insert before x ys) h in
      let (one, rest) = insert-All_inv P x ys now_ in ((one, later), rest)

  pub sorted-IsChosenOrNotBefore :
      IsStrictOrder before
      → (n : ℕ) (xs : List A) → All (IsChosenOrNotBefore (take n (sorted before xs))) xs
  unfolding sorted
  sorted-IsChosenOrNotBefore order n xs =
      let ys = insert_all before [] xs in
      (insert_all-All_inv (IsChosenOrNotBefore (take n ys)) xs []
        (take-IsChosenOrNotBefore n ys (insert_all-IsOrdered before order xs [] tt))).0

  -- The texts of the entries, counted.
  module _ (text : A → String) where
    count-insert :
        (k : String) (x : A) (ys : List A)
        → count k (map text (insert before x ys)) ≡ count k (map text (x ∷ ys))
    unfolding insert
    count-insert k x [] = refl
    count-insert k x (y ∷ ys) = ground (arith, count-insert k x ys)

    count-insert_all :
        (k : String) (xs ys : List A)
        → count k (map text (insert_all before ys xs))
          ≡ count k (map text ys) + count k (map text xs)
    unfolding insert_all
    count-insert_all k [] ys = omega arith
    count-insert_all k (x ∷ xs) ys =
        ground (arith, count-insert_all k xs (insert before x ys), count-insert k x ys)

    count-take-le :
        (k : String) (n : ℕ) (xs : List A) → count k (map text (take n xs)) ≤ count k (map text xs)
    count-take-le k zero xs = omega arith
    count-take-le k (suc n) [] = omega arith
    count-take-le k (suc n) (x ∷ xs) = ground (arith, count-take-le k n xs)

    pub count-take-sorted-le :
        (k : String) (n : ℕ) (xs : List A)
        → count k (map text (take n (sorted before xs))) ≤ count k (map text xs)
    unfolding sorted
    count-take-sorted-le k n xs =
        omega (arith, count-take-le k n (insert_all before [] xs), count-insert_all k xs [])
