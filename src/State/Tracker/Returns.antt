-- ===== src/State/Tracker/Returns.antt =====
-- A wait for idleness ends.
use rgit.Common.{
  ℕ, zero, suc, ◌≡◌, refl, ◌∙◌, subst, inl, inr, true, List, [], ◌∷◌, ◌++◌, All, arith,
  append_assoc,
}
use rgit.State.Tracker.{
  Notify, Waiter, checking, sleeping, returned, Tracker, fetch_sub, notify_waiters, Step, drops,
  notifies, checks, wakes, Settles, stay, step, Reach,
}
use rgit.State.Tracker.Awake.{Awake, IsAwake, Step-IsAwake, Reach-IsAwake, All-append}

module _ (notify : Notify) where
  open notify use {Future, notified, woken, ready}

  pub Settles-trans :
      {t u v : Tracker Future} → Settles notify t u → Settles notify u v → Settles notify t v
  Settles-trans r stay = r
  Settles-trans r (step q s) = step (Settles-trans r q) s

  abbrev pub IsReturned : Waiter Future → Type 0
  IsReturned w = w ≡ returned

  -- A tracker without operations.
  abbrev idle : List (Waiter Future) → Tracker Future
  idle ws = record { active = 0; guards = 0; notifying = 0; waiters = ws }

  abbrev Finishes : Tracker Future → Type 0
  Finishes t = (u : Tracker Future) × Settles notify t u × All IsReturned u.waiters

  first : {t u : Tracker Future} → Step notify t u → Finishes u → Finishes t
  first s (v, r, d) = (v, Settles-trans (step stay s) r, d)

  check_step :
      (before after : List (Waiter Future)) (f : Future)
      → Step notify (idle (before ++ (checking f ∷ after))) (idle (before ++ (returned ∷ after)))
  check_step before after f = checks before after f refl refl

  wake_step :
      (before after : List (Waiter Future)) (f : Future)
      → ready f ≡ true
      → Step notify
          (idle (before ++ (sleeping f ∷ after)))
          (idle (before ++ (checking notified ∷ after)))
  wake_step before after f r = wakes before after f refl r refl

  is_ready : (f : Future) → Awake notify 0 0 (sleeping f) → ready f ≡ true
  is_ready f (inl r) = r
  is_ready f (inr (inl k)) = absurd (omega arith)
  is_ready f (inr (inr k)) = absurd (omega arith)

  passed :
      (before after : List (Waiter Future))
      → Finishes (idle ((before ++ (returned ∷ [])) ++ after))
      → Finishes (idle (before ++ (returned ∷ after)))
  passed before after r =
      subst (λ ws. Finishes (idle ws)) (append_assoc before (returned ∷ []) after) r

  finish :
      (before after : List (Waiter Future))
      → All IsReturned before
      → All (Awake notify 0 0) after
      → Finishes (idle (before ++ after))
  finish before [] d a = (idle (before ++ []), stay, All-append IsReturned before [] d tt)
  finish before (returned ∷ after) d a = passed before after (
      finish (before ++ (returned ∷ [])) after
        (All-append IsReturned before (returned ∷ []) d (refl, tt)) a.1)
  finish before (checking f ∷ after) d a = first (check_step before after f) (
      passed before after (
        finish (before ++ (returned ∷ [])) after
          (All-append IsReturned before (returned ∷ []) d (refl, tt)) a.1))
  finish before (sleeping f ∷ after) d a = first (wake_step before after f (is_ready f a.0)) (
      first (check_step before after notified) (
        passed before after (
          finish (before ++ (returned ∷ [])) after
            (All-append IsReturned before (returned ∷ []) d (refl, tt)) a.1)))

  quiet :
      (n : ℕ) (t : Tracker Future) → IsAwake notify t → t.guards ≡ 0 → t.notifying ≡ n → Finishes t
  quiet zero t h g e =
      let same : idle t.waiters ≡ t = ground (arith, h.counted) in
      let awake : All (Awake notify 0 0) t.waiters =
        subst (λ a. All (Awake notify a 0) t.waiters) (h.counted ∙ g)
          (subst (λ n. All (Awake notify t.active n) t.waiters) e h.awake) in
      subst Finishes same (finish [] t.waiters tt awake)
  quiet (suc n) t h g e =
      let s : Step notify t (notify_waiters notify t) = notifies (omega (arith, e)) refl in
      first s (quiet n (notify_waiters notify t) (Step-IsAwake notify s h) g (omega (arith, e)))

  drained : (n : ℕ) (t : Tracker Future) → IsAwake notify t → t.guards ≡ n → Finishes t
  drained zero t h g = quiet t.notifying t h g refl
  drained (suc n) t h g =
      let s : Step notify t (fetch_sub notify t) = drops (omega (arith, g)) refl in
      first s (drained n (fetch_sub notify t) (Step-IsAwake notify s h) (omega (arith, g)))

  -- From every state that the tracker reaches, the drops of the operations that run, and the steps of those that
  -- wait, lead to a state in which every call of wait_idle has returned: no order of steps before can
  -- leave a waiter asleep for good.
  pub wait_idle_returns :
      (t : Tracker Future)
      → Reach notify t
      → (u : Tracker Future) × Settles notify t u × All IsReturned u.waiters
  wait_idle_returns t r = drained t.guards t (Reach-IsAwake notify r) refl
