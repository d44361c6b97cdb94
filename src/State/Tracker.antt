-- ===== src/State/Tracker.antt =====
-- OperationTracker of crates/rgit-core/src/state.rs: how a shutdown waits for the operations that run. Every
-- atomic access and every call of tokio's Notify is a step, in any order among the tasks.
pub mod Awake
pub mod Returns
use rgit.Common.{
  ℕ, suc, ◌+◌, ◌-◌, ◌<◌, ◌≡◌, Bool, true, ◌==◌, List, [], ◌∷◌, ◌++◌, map, if◌then◌else◌,
}

-- What tokio documents of `Notify`: a future of `notified()` gets the wake-up of every `notify_waiters()`
-- from its creation on.
pub record Notify : Type 1 where
  pub Future : Type 0
  pub notified : Future
  pub woken : Future → Future
  pub ready : Future → Bool
  pub woken_is_ready : (f : Future) → ready (woken f) ≡ true

-- A task in the loop of `wait_idle`: it has its future and is to look at the count, it awaits the future, or it has
-- returned.
pub data Waiter (Future : Type 0) : Type 0 where
  checking sleeping : Future → Waiter Future
  returned : Waiter Future

-- `active` is the atomic count. `guards` are the guards that live, `notifying` those whose drop has taken the
-- count to 0 and has not yet called `notify_waiters()`.
pub record Tracker (Future : Type 0) : Type 0 where
  pub active : ℕ
  pub guards : ℕ
  pub notifying : ℕ
  pub waiters : List (Waiter Future)

module _ (notify : Notify) where
  open notify use {Future, notified, woken, ready}

  abbrev pub default_tracker : Tracker Future
  default_tracker = record { active = 0; guards = 0; notifying = 0; waiters = [] }

  abbrev pub begin : Tracker Future → Tracker Future
  begin t = record t { active = t.active + 1; guards = t.guards + 1 }

  -- `if active.fetch_sub(1) == 1 { idle.notify_waiters() }`, up to the call
  abbrev pub fetch_sub : Tracker Future → Tracker Future
  fetch_sub t = record t {
    active = t.active - 1;
    guards = t.guards - 1;
    notifying = if t.active == 1 then t.notifying + 1 else t.notifying;
  }

  abbrev pub wake : Waiter Future → Waiter Future
  wake (checking f) = checking (woken f)
  wake (sleeping f) = sleeping (woken f)
  wake returned = returned

  abbrev pub notify_waiters : Tracker Future → Tracker Future
  notify_waiters t = record t { notifying = t.notifying - 1; waiters = map wake t.waiters }

  abbrev pub wait_idle : Tracker Future → Tracker Future
  wait_idle t = record t { waiters = checking notified ∷ t.waiters }

  -- `if self.active() == 0 { return; } notified.await`
  abbrev pub checked : ℕ → Future → Waiter Future
  checked active f = if active == 0 then returned else sleeping f

  -- A step of an operation or a waiter that is there.
  pub data Step (t : Tracker Future) (u : Tracker Future) : Type 0 where
    drops : 0 < t.guards → u ≡ fetch_sub t → Step t u
    notifies : 0 < t.notifying → u ≡ notify_waiters t → Step t u
    checks :
        (before after : List (Waiter Future)) (f : Future)
        → t.waiters ≡ before ++ (checking f ∷ after)
        → u ≡ record t { waiters = before ++ (checked t.active f ∷ after) }
        → Step t u
    wakes :
        (before after : List (Waiter Future)) (f : Future)
        → t.waiters ≡ before ++ (sleeping f ∷ after)
        → ready f ≡ true
        → u ≡ record t { waiters = before ++ (checking notified ∷ after) }
        → Step t u

  -- A new operation, or a new waiter.
  pub data Arrival (t : Tracker Future) (u : Tracker Future) : Type 0 where
    begins : u ≡ begin t → Arrival t u
    waits : u ≡ wait_idle t → Arrival t u

  -- Steps of those that are there only.
  pub data Settles (t : Tracker Future) : Tracker Future → Type 0 where
    stay : Settles t t
    step : {u v : Tracker Future} → Settles t u → Step u v → Settles t v

  pub data Reach : Tracker Future → Type 0 where
    start : Reach default_tracker
    by_step : {t u : Tracker Future} → Reach t → Step t u → Reach u
    by_arrival : {t u : Tracker Future} → Reach t → Arrival t u → Reach u
