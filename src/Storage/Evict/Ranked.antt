-- ===== src/Storage/Evict/Ranked.antt =====
-- Keeping the first `excess` entries batch by batch is sorting everything once.
use ip_proxy_pool.Base.{
  All-take, ℕ, zero, suc, ◌≡◌, refl, sym, ap, ◌∙◌, Bool, true, false, inl, inr, Bool-cases, List,
  [], ◌∷◌, ◌++◌, take, length, ◌+◌, All, arith,
}
use mathlib.Core.List.{append-nil, append_assoc}
use ip_proxy_pool.Storage.Evict.{insert, insert_all, sorted}

-- What Python promises of `<` on texts, and so on the tuples: it is a strict order.
pub record IsStrictOrder {ℓ} {A : Type ℓ} (before : A → A → Bool) : Type ℓ where
  pub asym : (x y : A) → before x y ≡ true → before y x ≡ false
  pub trans : (x y z : A) → before x y ≡ true → before y z ≡ true → before x z ≡ true

take-take {ℓ} : {A : Type ℓ} (n : ℕ) (xs : List A) → take n (take (suc n) xs) ≡ take n xs
take-take zero xs = refl
take-take (suc n) [] = refl
take-take (suc n) (x ∷ xs) = ap (λ t. x ∷ t) (take-take n xs)

take-take_self {ℓ} : {A : Type ℓ} (n : ℕ) (xs : List A) → take n (take n xs) ≡ take n xs
take-take_self zero xs = refl
take-take_self (suc n) [] = refl
take-take_self (suc n) (x ∷ xs) = ap (λ t. x ∷ t) (take-take_self n xs)

take-cons-take {ℓ} :
    {A : Type ℓ} (n : ℕ) (x : A) (xs : List A) → take n (x ∷ take n xs) ≡ take n (x ∷ xs)
take-cons-take zero x xs = refl
take-cons-take (suc n) x xs = ap (λ t. x ∷ t) (take-take n xs)

module _ {ℓ} {A : Type ℓ} (before : A → A → Bool) where
  take-insert :
      (n : ℕ) (x : A) (ys : List A)
      → take n (insert before x (take n ys)) ≡ take n (insert before x ys)
  unfolding insert
  take-insert zero x ys = refl
  take-insert (suc n) x [] = refl
  take-insert (suc n) x (y ∷ ys) = elim (Bool-cases (before x y)) [
    | inl yes_before ↦ rw yes_before (ap (λ t. x ∷ t) (take-cons-take n y ys))
    | inr not_before ↦ rw not_before (ap (λ t. y ∷ t) (take-insert n x ys))
  ]

  take-insert_all :
      (n : ℕ) (xs ys : List A)
      → take n (insert_all before (take n ys) xs) ≡ take n (insert_all before ys xs)
  unfolding insert_all
  take-insert_all n [] ys = take-take_self n ys
  take-insert_all n (x ∷ xs) ys =
      sym (take-insert_all n xs (insert before x (take n ys)))
      ∙ ap (λ t. take n (insert_all before t xs)) (take-insert n x ys)
      ∙ take-insert_all n xs (insert before x ys)

  insert_all-append :
      (xs zs ys : List A)
      → insert_all before ys (xs ++ zs) ≡ insert_all before (insert_all before ys xs) zs
  unfolding insert_all
  insert_all-append [] zs ys = refl
  insert_all-append (x ∷ xs) zs ys = insert_all-append xs zs (insert before x ys)

  length-insert : (x : A) (ys : List A) → length (insert before x ys) ≡ suc (length ys)
  unfolding insert
  length-insert x [] = refl
  length-insert x (y ∷ ys) = ground (arith, length-insert x ys)

  pub length-insert_all :
      (xs ys : List A) → length (insert_all before ys xs) ≡ length ys + length xs
  unfolding insert_all
  length-insert_all [] ys = omega arith
  length-insert_all (x ∷ xs) ys =
      omega (arith, length-insert x ys, length-insert_all xs (insert before x ys))

  -- No later entry is before an earlier one.
  abbrev pub IsOrdered : List A → Type ℓ
  IsOrdered [] = Unit
  IsOrdered (x ∷ xs) = All (λ y. before y x ≡ false) xs × IsOrdered xs

  take-IsOrdered : (n : ℕ) (xs : List A) → IsOrdered xs → IsOrdered (take n xs)
  take-IsOrdered zero xs h = tt
  take-IsOrdered (suc n) [] h = tt
  take-IsOrdered (suc n) (x ∷ xs) h =
      (All-take (λ y. before y x ≡ false) n xs h.0, take-IsOrdered n xs h.1)

  insert-end :
      (x : A) (ys : List A) → All (λ y. before x y ≡ false) ys → insert before x ys ≡ ys ++ x ∷ []
  unfolding insert
  insert-end x [] h = refl
  insert-end x (y ∷ ys) h = rw h.0 (ap (λ t. y ∷ t) (insert-end x ys h.1))

  All-snoc : (P : A → Type 0) (x : A) (ys : List A) → All P ys → P x → All P (ys ++ x ∷ [])
  All-snoc P x [] h e = (e, tt)
  All-snoc P x (y ∷ ys) h e = (h.0, All-snoc P x ys h.1 e)

  -- Each entry of the second list comes behind all of the first.
  abbrev IsBehind : List A → List A → Type ℓ
  IsBehind ys [] = Unit
  IsBehind ys (z ∷ zs) = All (λ y. before z y ≡ false) ys × IsBehind ys zs

  IsBehind-snoc :
      (z : A) (ys zs : List A)
      → IsBehind ys zs
      → All (λ y. before y z ≡ false) zs
      → IsBehind (ys ++ z ∷ []) zs
  IsBehind-snoc z ys [] h o = tt
  IsBehind-snoc z ys (x ∷ zs) h o =
      (All-snoc (λ y. before x y ≡ false) z ys h.0 o.0, IsBehind-snoc z ys zs h.1 o.1)

  IsBehind-nil : (zs : List A) → IsBehind [] zs
  IsBehind-nil [] = tt
  IsBehind-nil (z ∷ zs) = (tt, IsBehind-nil zs)

  insert_all-IsOrdered_id :
      (zs ys : List A) → IsOrdered zs → IsBehind ys zs → insert_all before ys zs ≡ ys ++ zs
  unfolding insert_all
  insert_all-IsOrdered_id [] ys o h = sym (append-nil ys)
  insert_all-IsOrdered_id (z ∷ zs) ys o h = rw (insert-end z ys h.0) (
      insert_all-IsOrdered_id zs (ys ++ z ∷ []) o.1 (IsBehind-snoc z ys zs h.1 o.0)
      ∙ append_assoc ys (z ∷ []) zs)

  sorted-IsOrdered_id : (zs : List A) → IsOrdered zs → sorted before zs ≡ zs
  unfolding sorted
  sorted-IsOrdered_id zs o = insert_all-IsOrdered_id zs [] o (IsBehind-nil zs)

  module _ (order : IsStrictOrder before) where
    pub All-insert :
        (P : A → Type 0) (x : A) (ys : List A) → P x → All P ys → All P (insert before x ys)
    unfolding insert
    All-insert P x [] e h = (e, tt)
    All-insert P x (y ∷ ys) e h = elim (Bool-cases (before x y)) [
      | inl lower ↦ rw lower (e, (h.0, h.1))
      | inr upper ↦ rw upper (h.0, All-insert P x ys e h.1)
    ]

    pub insert_all-All :
        (P : A → Type 0) (xs ys : List A) → All P xs → All P ys → All P (insert_all before ys xs)
    unfolding insert_all
    insert_all-All P [] ys hx hy = hy
    insert_all-All P (x ∷ xs) ys hx hy =
        insert_all-All P xs (insert before x ys) hx.1 (All-insert P x ys hx.0 hy)

    below-All :
        (x y : A) (ys : List A)
        → before x y ≡ true
        → All (λ z. before z y ≡ false) ys
        → All (λ z. before z x ≡ false) ys
    below-All x y [] e h = tt
    below-All x y (z ∷ ys) e h = (ground (arith, order.trans z x y, h.0, e), below-All x y ys e h.1)

    insert-IsOrdered : (x : A) (ys : List A) → IsOrdered ys → IsOrdered (insert before x ys)
    unfolding insert
    insert-IsOrdered x [] o = (tt, tt)
    insert-IsOrdered x (y ∷ ys) o = elim (Bool-cases (before x y)) [
      | inl lower ↦ rw lower ((order.asym x y lower, below-All x y ys lower o.0), o)
      | inr upper ↦
          rw upper (All-insert (λ z. before z y ≡ false) x ys upper o.0, insert-IsOrdered x ys o.1)
    ]

    pub insert_all-IsOrdered : (xs ys : List A) → IsOrdered ys → IsOrdered (insert_all before ys xs)
    unfolding insert_all
    insert_all-IsOrdered [] ys o = o
    insert_all-IsOrdered (x ∷ xs) ys o =
        insert_all-IsOrdered xs (insert before x ys) (insert-IsOrdered x ys o)

    -- One round of the scan: the best `n` of the best `n` so far and a batch are the best `n` of
    -- all.
    pub take-sorted-append :
        (n : ℕ) (seen batch : List A)
        → take n (sorted before (take n (sorted before seen) ++ batch))
          ≡ take n (sorted before (seen ++ batch))
    unfolding sorted
    take-sorted-append n seen batch =
        let s = insert_all before [] seen in
        let o = take-IsOrdered n s (insert_all-IsOrdered seen [] tt) in
        ap (take n) (insert_all-append (take n s) batch [])
        ∙ ap (λ t. take n (insert_all before t batch))
            (insert_all-IsOrdered_id (take n s) [] o (IsBehind-nil (take n s)))
        ∙ take-insert_all n batch s
        ∙ ap (take n) (sym (insert_all-append seen batch []))
