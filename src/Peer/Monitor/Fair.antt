-- ===== src/Peer/Monitor/Fair.antt =====
-- The alerts of one event, along any ticks of the monitor.
use ip_proxy_pool.Base.{
  ℕ, ◌+◌, ◌≤◌, ◌≡◌, refl, sym, subst, inl, inr, Bool, true, false, not, ◌&&◌, Option, none, some,
  List, [], ◌∷◌, String, leb, if◌then◌else◌, arith, Bool-cases,
}
use ip_proxy_pool.Models.{seconds}
use ip_proxy_pool.Peer.Monitor.{
  EventType, Kind, failure, recovery, EventState, new_event, Reading, recovery_allowed, again,
  begun, ended, Delivery, delivered, retried, send_pending, transition, Monitor, Health,
  tick_locked,
}

-- What the pending alert says of the state.
abbrev Matches : Option Kind → EventState → Type 0
Matches none s = Unit
Matches (some failure) s =
    (s.notified ≡ false) × (s.last_failure_sent_at + seconds 1800 ≤ s.retry_at)
Matches (some recovery) s = s.notified ≡ true

abbrev IsConsistent : EventState → Type 0
IsConsistent s = Matches s.pending s

-- Deliveries from a state on: a failure when none is notified, at least 30 minutes after the last
-- one, and a recovery only of a failure that was notified.
abbrev pub IsFair : (notified : Bool) → (last_failure : ℕ) → List Delivery → Type 0
IsFair notified last_failure [] = Unit
IsFair notified last_failure ((failure, t) ∷ rest) =
    (notified ≡ false) × ((last_failure + seconds 1800 ≤ t) × IsFair true t rest)
IsFair notified last_failure ((recovery, t) ∷ rest) =
    (notified ≡ true) × IsFair false last_failure rest

abbrev pub add_delivery : Option Delivery → List Delivery → List Delivery
add_delivery none ds = ds
add_delivery (some d) ds = d ∷ ds

-- A step of the state is fair when whatever is fair after it is fair before it, and it leaves a
-- consistent state.
abbrev IsFairStep : EventState → EventState × Option Delivery → Type 0
IsFairStep s (s', o) =
    IsConsistent s'
    × ((ds : List Delivery)
        → IsFair s'.notified s'.last_failure_sent_at ds
        → IsFair s.notified s.last_failure_sent_at (add_delivery o ds))

unchanged-IsFairStep : (s : EventState) → IsConsistent s → IsFairStep s (s, none)
unchanged-IsFairStep s c = (c, λ ds fair. fair)

delivered-IsFairStep :
    (k : Kind) (epoch : ℕ) (s : EventState)
    → Matches (some k) s
    → s.retry_at ≤ epoch
    → IsFairStep s (delivered k epoch s, some (k, epoch))
delivered-IsFairStep failure epoch s (fresh, spaced) due =
    (tt, λ ds fair. (fresh, (omega (arith, spaced, due), fair)))
delivered-IsFairStep recovery epoch s notified due = (tt, λ ds fair. (notified, fair))

-- A retry is later than the time that was due.
Matches-retried :
    (k : Kind) (epoch : ℕ) (s : EventState)
    → Matches (some k) s
    → s.retry_at ≤ epoch
    → Matches (some k) (retried epoch s)
Matches-retried failure epoch s (fresh, spaced) due = (fresh, omega (arith, spaced, due))
Matches-retried recovery epoch s notified due = notified

send_pending-IsFairStep :
    (r : Reading) (o : Option Kind) (s : EventState)
    → s.pending ≡ o
    → Matches o s
    → IsFairStep s (send_pending r o s)
unfolding send_pending
send_pending-IsFairStep r none s e c = unchanged-IsFairStep s (subst (λ o. Matches o s) (sym e) c)
send_pending-IsFairStep r (some k) s e c =
    let consistent : IsConsistent s = subst (λ o. Matches o s) (sym e) c in
    elim (Bool-cases (leb s.retry_at r.epoch)) [
      | inr early ↦ rw early (unchanged-IsFairStep s consistent)
      | inl due ↦
          let late : s.retry_at ≤ r.epoch = ground (arith, due) in
          elim (Bool-cases r.sent) [
            | inl went ↦ rw (due, went) (delivered-IsFairStep k r.epoch s c late)
            | inr failed ↦
                let s' = retried r.epoch s in
                rw (due, failed)
                  (
                    subst (λ o. Matches o s') (sym e) (Matches-retried k r.epoch s c late),
                    λ ds fair. fair,
                  )
          ]
    ]

-- The state before the send: consistent, and with the same history.
abbrev prepared : Bool → Reading → EventState → EventState
prepared active r s =
    if active && not s.active
    then (if s.notified then again s else begun r s)
    else if not active && s.active
    then ended s
    else s

prepared-IsConsistent :
    (active : Bool) (r : Reading) (s : EventState)
    → IsConsistent s
    → IsConsistent (prepared active r s)
      × ((prepared active r s).notified ≡ s.notified)
      × ((prepared active r s).last_failure_sent_at ≡ s.last_failure_sent_at)
prepared-IsConsistent active r s c = elim (Bool-cases (active && not s.active)) [
  | inl rises ↦ elim (Bool-cases s.notified) [
    | inl notified ↦ rw (rises, notified) (tt, refl, refl)
    | inr fresh ↦ rw (rises, fresh) ((refl, omega arith), refl, refl)
  ]
  | inr stays ↦ elim (Bool-cases (not active && s.active)) [
    | inr same ↦ rw (stays, same) (c, refl, refl)
    | inl falls ↦ elim (Bool-cases s.notified) [
      | inl notified ↦ rw (stays, falls, notified) (refl, refl, refl)
      | inr fresh ↦ rw (stays, falls, fresh) (tt, refl, refl)
    ]
  ]
]

transition-IsFairStep :
    (event_type : EventType) (active : Bool) (r : Reading) (s : EventState)
    → IsConsistent s
    → IsFairStep s (transition event_type active r s)
unfolding transition
transition-IsFairStep event_type active r s c =
    let s' = prepared active r s in
    let (c', notified, last) = prepared-IsConsistent active r s c in
    let (done, fair) = send_pending-IsFairStep r s'.pending s' refl c' in
    elim (Bool-cases (not active && (s.active && not (recovery_allowed event_type r s)))) [
      | inl kept ↦ rw kept (unchanged-IsFairStep s c)
      | inr goes ↦ rw goes (
        done,
        λ ds h.
            subst
              (λ b.
                IsFair b s.last_failure_sent_at (add_delivery (send_pending r s'.pending s').1 ds))
              notified
              (subst (λ n. IsFair s'.notified n (add_delivery (send_pending r s'.pending s').1 ds))
                last (fair ds h)),
      )
    ]

-- One tick: what the monitor reads, the ids and the outcomes of the sends.
pub record Tick : Type 0 where
  pub epoch : ℕ
  pub health : Health
  pub new_id : EventType → String
  pub sent : EventType → Bool

-- What is delivered of one type of event by ticks one after the other.
unfoldable pub deliveries : EventType → Monitor → List Tick → List Delivery
deliveries e m [] = []
deliveries e m (t ∷ ticks) =
    let (m', out) = tick_locked t.epoch t.health t.new_id t.sent m in
    add_delivery (out e) (deliveries e m' ticks)

deliveries-IsFair :
    (e : EventType) (ticks : List Tick) (m : Monitor)
    → IsConsistent (m.events e)
    → IsFair (m.events e).notified (m.events e).last_failure_sent_at (deliveries e m ticks)
unfolding deliveries tick_locked
deliveries-IsFair e [] m c = tt
deliveries-IsFair e (t ∷ ticks) m c =
    let step = tick_locked t.epoch t.health t.new_id t.sent m in
    let (done, fair) : IsFairStep (m.events e) (step.0.events e, step.1 e) =
      transition-IsFairStep e _ _ (m.events e) c in
    fair (deliveries e step.0 ticks) (deliveries-IsFair e ticks step.0 done)

-- Whatever a monitor that starts with no events finds and whichever sends fail, at any times, the
-- alerts that it delivers of a type of event alternate: a failure comes first and after each
-- recovery only, a recovery only after a failure that was delivered; and a failure is delivered at
-- least 1800 seconds after the one before it.
pub alerts-IsFair :
    (e : EventType) (started : Option ℕ) (failures : ℕ) (ticks : List Tick)
    → IsFair false 0 (
        deliveries e
          (record {
            monitor_started_at = started;
            monitor_store_failures = failures;
            events = λ e'. new_event;
          })
          ticks)
alerts-IsFair e started failures ticks =
    deliveries-IsFair e ticks
      (record {
        monitor_started_at = started;
        monitor_store_failures = failures;
        events = λ e'. new_event;
      })
      tt
