-- ===== src/Migration/Scores.antt =====
-- Sets to which the members are added with their scores.
use ip_proxy_pool.Base.{
  ◌≡◌, refl, ap, ◌∙◌, ◌⊎◌, inl, inr, Bool, false, Option, none, some, String, str_eq, eq_iff,
  if◌then◌else◌, arith, Bool-cases, Option-cases,
}
use ip_proxy_pool.Redis.{SetCommands}
use ip_proxy_pool.Migration.{add_score}

module _ {S : Type 0} {leb_score : S → S → Bool} (sets : SetCommands S leb_score) where
  -- A set to which members were added with the score that a function gives, has it or nothing.
  abbrev pub IsPartial : (String → Option S) → sets.ZSet → Type 0
  IsPartial score z = (j : String) → (sets.zscore j z ≡ none) ⊎ (sets.zscore j z ≡ score j)

  pub zscore-add_score :
      (score : String → Option S) (j k : String) (z : sets.ZSet)
      → IsPartial score z
      → sets.zscore j (add_score sets false k (score k) z)
        ≡ (if str_eq k j then score j else sets.zscore j z)
  zscore-add_score score j k z partial = elim (Bool-cases (str_eq k j)) [
    | inl same ↦
        let named : k ≡ j = ground (arith, same, eq_iff k j) in
        elim (Option-cases (score j)) [
          | inl nothing ↦
              let none' : score k ≡ none = ap score named ∙ nothing in
              rw (same, none', nothing) (ground (arith, partial j, nothing))
          | inr (s, has) ↦
              let some' : score k ≡ some s = ap score named ∙ has in
              rw (same, some', has) (sets.zscore-zadd j k s z ∙ rw same refl)
        ]
    | inr other ↦ elim (Option-cases (score k)) [
      | inl nothing ↦ rw (other, nothing) refl
      | inr (s, has) ↦ rw (other, has) (sets.zscore-zadd j k s z ∙ rw other refl)
    ]
  ]

  pub add_score-IsPartial :
      (score : String → Option S) (k : String) (z : sets.ZSet)
      → IsPartial score z
      → IsPartial score (add_score sets false k (score k) z)
  add_score-IsPartial score k z partial j =
      let step = zscore-add_score score j k z partial in
      elim (Bool-cases (str_eq k j)) [
        | inl same ↦ inr (step ∙ rw same refl)
        | inr other ↦ elim (partial j) [
          | inl nothing ↦ inl (step ∙ rw other nothing)
          | inr has ↦ inr (step ∙ rw other has)
        ]
      ]
