-- ===== src/Stream/Invariant.antt =====
-- What holds of a stream between any two calls of `poll_next`.
use preconfs_client.Prelude.{
  ℕ, ◌≤◌, ◌<◌, ◌≡◌, refl, sym, ap, subst, arith, true, false, not, Option, none, some, List,
  ltb-false→le,
}
use preconfs_client.Proto.{SubscribeRequest}
use preconfs_client.Reconnect.{Reconnect, exhausted}
use preconfs_client.Stream.{Deps, Item, new, next_items, u32_mod}
use preconfs_client.Stream.Protocol.{
  Phase, live, backing_off, dialing, over, View, view, Step, idle, dropped, delivered, retried,
  gave_up, redialed, resumed, Run, stop, silent, yields, GivesUp, unscheduled, not_retryable,
  out_of_retries, after_failure,
}
use preconfs_client.Stream.Drive.{new-Run}

module _ {Client Status : Type 0} (deps : Deps Client Status) where
  open deps use {feed, float}

  -- The failures that are counted in a phase, under a schedule.
  abbrev pub InLimit : Option (Reconnect float) → Phase → ℕ → Type 0
  InLimit schedule over n = Unit
  InLimit none live n = n ≡ 0
  InLimit none _ n = ⊥
  InLimit (some r) _ n = (max : ℕ) → r.max_retries ≡ some max → n ≤ max

  -- A stream that is not over has counted no more failures than its schedule allows, and is live with
  -- none counted if it has no schedule; the count fits in a u32; a feed without framing is framed.
  pub record IsValid (schedule : Option (Reconnect float)) (v : View) : Type 0 where
    pub limited : InLimit schedule v.phase v.attempts
    pub counted : v.attempts < u32_mod
    pub unframed : feed.slot_framing ≡ false → v.framed ≡ true

  exhausted-false :
      (r : Reconnect float) (n max : ℕ)
      → exhausted float r n ≡ false
      → r.max_retries ≡ some max
      → n ≤ max
  unfolding exhausted
  exhausted-false r n max left e = ground (arith, ltb-false→le max n)

  InLimit-redialed :
      (s : Option (Reconnect float)) (n : ℕ) → InLimit s backing_off n → InLimit s dialing n
  InLimit-redialed none n h = h
  InLimit-redialed (some r) n h = h

  InLimit-resumed : (s : Option (Reconnect float)) (n : ℕ) → InLimit s dialing n → InLimit s live n
  InLimit-resumed none n h = absurd h
  InLimit-resumed (some r) n h = h

  InLimit-delivered : (s : Option (Reconnect float)) → InLimit s live 0
  InLimit-delivered none = refl
  InLimit-delivered (some r) = λ max e. omega arith

  module _ {schedule : Option (Reconnect float)} where
    abbrev at :
        (v : View) {p : Phase} → v.phase ≡ p → IsValid schedule v → InLimit schedule p v.attempts
    at v e h = subst (λ p. InLimit schedule p v.attempts) e h.limited

    pub Step-IsValid :
        {v u : View} {l : Option (Item deps)}
        → Step deps schedule v l u
        → IsValid schedule v
        → IsValid schedule u
    Step-IsValid (idle _ same) h = subst (IsValid schedule) (sym same) h
    Step-IsValid (dropped _ _ _ _ _ same) h = subst (IsValid schedule) (sym same) h
    Step-IsValid (delivered _ _ _ _ _ _ same) h = subst (IsValid schedule) (sym same) (record {
      limited = InLimit-delivered schedule;
      counted = omega arith;
      unframed = λ e. refl;
    })
    Step-IsValid {v} (retried r e _ scheduled _ left _ same) h =
        subst (IsValid schedule) (sym same) (record {
          limited =
              subst (λ x. InLimit x backing_off (after_failure v.attempts)) (sym scheduled)
                (λ max. exhausted-false r _ max left);
          counted = omega arith;
          unframed = h.unframed;
        })
    Step-IsValid {v} (gave_up e n _ g _ same) h =
        subst (IsValid schedule) (sym same)
          (record { limited = tt; counted = count v.attempts n h.counted g; unframed = h.unframed })
      where
        count : (a m : ℕ) → a < u32_mod → GivesUp deps schedule a e m → m < u32_mod
        count a m small (unscheduled _ is_m) = omega arith
        count a m small (not_retryable _ _ _ is_m) = omega arith
        count a m small (out_of_retries _ _ _ is_m) = omega arith
    Step-IsValid {v} (redialed e _ same) h = subst (IsValid schedule) (sym same) (record {
      limited = InLimit-redialed schedule v.attempts (at v e h);
      counted = h.counted;
      unframed = h.unframed;
    })
    Step-IsValid {v} (resumed e _ same) h = subst (IsValid schedule) (sym same) (record {
      limited = InLimit-resumed schedule v.attempts (at v e h);
      counted = h.counted;
      unframed = λ e'. ap not e';
    })

    pub Run-IsValid :
        {v v' : View} {items : List (Item deps)}
        → Run deps schedule v items v'
        → IsValid schedule v
        → IsValid schedule v'
    Run-IsValid stop h = h
    Run-IsValid (silent st run) h = Run-IsValid run (Step-IsValid st h)
    Run-IsValid (yields st run) h = Run-IsValid run (Step-IsValid st h)

  pub new-IsValid :
      (client : Client) (request : SubscribeRequest) (schedule : Option (Reconnect float))
      (stream : deps.io.Streaming)
      → IsValid schedule (view deps (new deps client request schedule stream))
  unfolding new
  new-IsValid client request schedule stream = record {
    limited = InLimit-delivered schedule;
    counted = omega arith;
    unframed = λ e. ap not e;
  }

  -- A new stream keeps its invariant over any polls in any worlds: until it is over it has counted no
  -- more failures than its schedule allows, without a schedule it has counted none and is never
  -- waiting or connecting, the count fits in a u32, and a stream of a feed without framing is framed.
  pub next_items-IsValid :
      (client : Client) (request : SubscribeRequest) (schedule : Option (Reconnect float))
      (stream : deps.io.Streaming) (fuel : ℕ) (ws : List deps.io.World)
      → IsValid schedule
          (view deps (next_items deps fuel ws (new deps client request schedule stream)).1)
  next_items-IsValid client request schedule stream fuel ws =
      Run-IsValid (new-Run deps client request schedule stream fuel ws)
        (new-IsValid client request schedule stream)
