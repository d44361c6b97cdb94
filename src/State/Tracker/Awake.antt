-- ===== src/State/Tracker/Awake.antt =====
-- No wake-up is lost.
use rgit.Common.{
  ℕ, ◌+◌, ◌-◌, ◌<◌, ◌≡◌, refl, sym, subst, ◌⊎◌, inl, inr, true, ◌==◌, List, [], ◌∷◌, ◌++◌, map, All,
  arith, if◌then◌else◌, Bool-cases,
}
use rgit.State.Tracker.{
  Notify, Waiter, checking, sleeping, returned, Tracker, wake, checked, Step, drops, notifies,
  checks, wakes, begins, waits, Reach, start, by_step, by_arrival,
}

module _ {ℓ κ} {A : Type ℓ} (P : A → Type κ) where
  pub All-append : (xs ys : List A) → All P xs → All P ys → All P (xs ++ ys)
  All-append [] ys h k = k
  All-append (x ∷ xs) ys h k = (h.0, All-append xs ys h.1 k)

  pub All-before : (xs ys : List A) → All P (xs ++ ys) → All P xs
  All-before [] ys h = tt
  All-before (x ∷ xs) ys h = (h.0, All-before xs ys h.1)

  pub All-after : (xs ys : List A) → All P (xs ++ ys) → All P ys
  All-after [] ys h = h
  All-after (x ∷ xs) ys h = All-after xs ys h.1

  -- One element exchanged.
  pub All-exchange :
      (xs ys : List A) (x y : A) → P y → All P (xs ++ (x ∷ ys)) → All P (xs ++ (y ∷ ys))
  All-exchange xs ys x y p h =
      All-append xs (y ∷ ys) (All-before xs (x ∷ ys) h) (p, (All-after xs (x ∷ ys) h).1)

module _ (notify : Notify) where
  open notify use {Future, notified, woken, ready, woken_is_ready}

  -- A waiter that sleeps is ready, or an operation or a notification is still to come.
  abbrev pub Awake : ℕ → ℕ → Waiter Future → Type 0
  Awake active notifying (checking f) = Unit
  Awake active notifying (sleeping f) = (ready f ≡ true) ⊎ (0 < active) ⊎ (0 < notifying)
  Awake active notifying returned = Unit

  pub record IsAwake (t : Tracker Future) : Type 0 where
    pub counted : t.active ≡ t.guards
    pub awake : All (Awake t.active t.notifying) t.waiters

  Awake-drop :
      (a n : ℕ) (ws : List (Waiter Future))
      → All (Awake a n) ws
      → All (Awake (a - 1) (if a == 1 then n + 1 else n)) ws
  Awake-drop a n [] h = tt
  Awake-drop a n (checking f ∷ ws) h = (tt, Awake-drop a n ws h.1)
  Awake-drop a n (returned ∷ ws) h = (tt, Awake-drop a n ws h.1)
  Awake-drop a n (sleeping f ∷ ws) h = (one h.0, Awake-drop a n ws h.1)
    where
      one :
          (ready f ≡ true) ⊎ (0 < a) ⊎ (0 < n)
          → (ready f ≡ true) ⊎ (0 < a - 1) ⊎ (0 < (if a == 1 then n + 1 else n))
      one (inl r) = inl r
      one (inr (inl k)) = inr (ground arith)
      one (inr (inr k)) = inr (inr (ground arith))

  Awake-begin : (a n : ℕ) (ws : List (Waiter Future)) → All (Awake (a + 1) n) ws
  Awake-begin a n [] = tt
  Awake-begin a n (checking f ∷ ws) = (tt, Awake-begin a n ws)
  Awake-begin a n (returned ∷ ws) = (tt, Awake-begin a n ws)
  Awake-begin a n (sleeping f ∷ ws) = (inr (inl (omega arith)), Awake-begin a n ws)

  Awake-wake : (a n : ℕ) (ws : List (Waiter Future)) → All (Awake a n) (map (wake notify) ws)
  Awake-wake a n [] = tt
  Awake-wake a n (checking f ∷ ws) = (tt, Awake-wake a n ws)
  Awake-wake a n (returned ∷ ws) = (tt, Awake-wake a n ws)
  Awake-wake a n (sleeping f ∷ ws) = (inl (woken_is_ready f), Awake-wake a n ws)

  Awake-checked : (a n : ℕ) (f : Future) → Awake a n (checked notify a f)
  Awake-checked a n f = elim (Bool-cases (a == 0)) [
    | inl t ↦ rw t tt
    | inr s ↦ rw s (inr (inl (ground arith)))
  ]

  pub Step-IsAwake : {t u : Tracker Future} → Step notify t u → IsAwake t → IsAwake u
  Step-IsAwake {t} {u} (drops g e) h = subst IsAwake (sym e) (record {
    counted = omega (arith, h.counted);
    awake = Awake-drop t.active t.notifying t.waiters h.awake;
  })
  Step-IsAwake {t} {u} (notifies g e) h =
      subst IsAwake (sym e)
        (record { counted = h.counted; awake = Awake-wake t.active (t.notifying - 1) t.waiters })
  Step-IsAwake {t} {u} (checks before after f w e) h = subst IsAwake (sym e) (record {
    counted = h.counted;
    awake =
        All-exchange (Awake t.active t.notifying) before after (checking f)
          (checked notify t.active f) (Awake-checked t.active t.notifying f)
          (subst (All (Awake t.active t.notifying)) w h.awake);
  })
  Step-IsAwake {t} {u} (wakes before after f w r e) h = subst IsAwake (sym e) (record {
    counted = h.counted;
    awake =
        All-exchange (Awake t.active t.notifying) before after (sleeping f) (checking notified) tt
          (subst (All (Awake t.active t.notifying)) w h.awake);
  })

  -- In every state that the tracker reaches, in whatever order the tasks run, the count is that of the live guards,
  -- and a waiter that sleeps is ready to go on, or an operation still runs, or a drop is about to notify.
  pub Reach-IsAwake : {t : Tracker Future} → Reach notify t → IsAwake t
  Reach-IsAwake start = record { counted = refl; awake = tt }
  Reach-IsAwake (by_step r s) = Step-IsAwake s (Reach-IsAwake r)
  Reach-IsAwake (by_arrival {t} {u} r (begins e)) =
      let h = Reach-IsAwake r in
      subst IsAwake (sym e) (record {
        counted = omega (arith, h.counted);
        awake = Awake-begin t.active t.notifying t.waiters;
      })
  Reach-IsAwake (by_arrival {t} {u} r (waits e)) =
      let h = Reach-IsAwake r in
      subst IsAwake (sym e) (record { counted = h.counted; awake = (tt, h.awake) })
