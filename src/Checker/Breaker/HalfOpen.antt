-- ===== src/Checker/Breaker/HalfOpen.antt =====
-- Who may probe while the circuit is half-open.
use ip_proxy_pool.Base.{
  ℕ, ◌≡◌, ◌≢◌, ◌⊎◌, inl, inr, true, false, some, List, [], ◌∷◌, String, str_eq, leb, ◌+◌, elem,
  eq_iff, if◌then◌else◌, arith, Bool-cases,
}
use ip_proxy_pool.Models.{seconds}
use ip_proxy_pool.Checker.Breaker.Defs.{
  opened_of, open_state, half_open, Circuit, Settings, state_of, before_probe,
}

-- Workers ask one after the other, each with its name and its clock: those who were admitted, and
-- the circuit that they leave.
abbrev pub ask : Settings → Circuit → List (String × ℕ) → Circuit
ask cfg c [] = c
ask cfg c ((owner, now) ∷ calls) = ask cfg (before_probe cfg owner now c).0 calls

abbrev pub admitted : Settings → Circuit → List (String × ℕ) → List String
admitted cfg c [] = []
admitted cfg c ((owner, now) ∷ calls) =
    let (c', decision) = before_probe cfg owner now c in
    let rest = admitted cfg c' calls in if decision.allowed then owner ∷ rest else rest

-- A half-open circuit that a worker owns.
record IsHeld (owner : String) (c : Circuit) : Type 0 where
  half : c.state ≡ some half_open
  mine : c.half_open_owner ≡ some owner

held_probe :
    (cfg : Settings) (owner asker : String) (now : ℕ) (c : Circuit)
    → IsHeld owner c
    → IsHeld owner (before_probe cfg asker now c).0
      × ((before_probe cfg asker now c).1.allowed ≡ str_eq owner asker)
unfolding before_probe
held_probe cfg owner asker now c h =
    (record { half = ground arith; mine = ground arith }, ground arith)

held_admits :
    (cfg : Settings) (owner a : String) (calls : List (String × ℕ)) (c : Circuit)
    → IsHeld owner c
    → elem a (admitted cfg c calls) ≡ true
    → a ≡ owner
held_admits cfg owner a [] c h e = cc
held_admits cfg owner a ((asker, now) ∷ calls) c h e =
    let p = held_probe cfg owner asker now c h in
    ground (
      arith,
      p.1,
      eq_iff owner asker,
      eq_iff asker a,
      held_admits cfg owner a calls (before_probe cfg asker now c).0 p.0,
    )

ask-IsHeld :
    (cfg : Settings) (owner : String) (calls : List (String × ℕ)) (c : Circuit)
    → IsHeld owner c
    → IsHeld owner (ask cfg c calls)
ask-IsHeld cfg owner [] c h = h
ask-IsHeld cfg owner ((asker, now) ∷ calls) c h =
    ask-IsHeld cfg owner calls (before_probe cfg asker now c).0
      (held_probe cfg owner asker now c h).0

open_probe :
    (cfg : Settings) (asker : String) (now : ℕ) (c : Circuit)
    → state_of c ≡ open_state
    → let (c', decision) = before_probe cfg asker now c in
      ((state_of c' ≡ open_state) × (decision.allowed ≡ false))
      ⊎ (IsHeld asker c' × (decision.allowed ≡ true))
unfolding before_probe
open_probe cfg asker now c o = elim (Bool-cases (leb (opened_of c + seconds cfg.cooldown) now)) [
  | inl over ↦ inr (record { half = ground arith; mine = ground arith }, ground arith)
  | inr early ↦ inl (ground arith, ground arith)
]

-- After the cooldown there is one half-open owner: whatever workers ask, in whatever order and at
-- whatever times, an open circuit on which no result is recorded meanwhile admits at most one
-- worker by name.
pub one_half_open_owner :
    (cfg : Settings) (a b : String) (calls : List (String × ℕ)) (c : Circuit)
    → state_of c ≡ open_state
    → elem a (admitted cfg c calls) ≡ true
    → elem b (admitted cfg c calls) ≡ true
    → a ≡ b
one_half_open_owner cfg a b [] c o ea eb = cc
one_half_open_owner cfg a b ((asker, now) ∷ calls) c o ea eb = elim (open_probe cfg asker now c o) [
  | inl (still, refused) ↦
      one_half_open_owner cfg a b calls _ still (rw (refused, admitted) at ea)
        (rw (refused, admitted) at eb)
  | inr (held, allowed) ↦
      let ha = held_admits cfg asker a calls _ held in
      let hb = held_admits cfg asker b calls _ held in
      ground (arith, allowed, eq_iff asker a, eq_iff asker b, ha, hb)
]

-- A half-open circuit stays so, with its owner, until a result is recorded: however long that
-- takes, no other worker is ever admitted.
pub half_open_waits :
    (cfg : Settings) (owner a : String) (calls : List (String × ℕ)) (c : Circuit)
    → c.state ≡ some half_open
    → c.half_open_owner ≡ some owner
    → a ≢ owner
    → (elem a (admitted cfg c calls) ≡ false)
      × ((ask cfg c calls).state ≡ some half_open)
      × ((ask cfg c calls).half_open_owner ≡ some owner)
half_open_waits cfg owner a calls c half mine ne =
    let h : IsHeld owner c = record { half = half; mine = mine } in
    let stays = ask-IsHeld cfg owner calls c h in
    let only = held_admits cfg owner a calls c h in
    (ground (arith, ne, only), stays.half, stays.mine)
