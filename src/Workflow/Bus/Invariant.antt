-- ===== src/Workflow/Bus/Invariant.antt =====
-- What a bus keeps at every time (app/workflow/events.py).
use ops_knowledge.Prelude.{
  ℕ, zero, suc, ◌-◌, ◌<◌, ◌≡◌, refl, subst, none, some, List, [], ◌∷◌, ◌++◌, map, arith, inl, inr,
  Bool-cases, length, take, drop, take_last, take-append-drop, All, All-append, All-map,
}
use mathlib.Core.List.{append_assoc, append-nil}
use ops_knowledge.Workflow.Bus.{
  Event, Subscriber, EventBus, new_bus, is_full, push, put_nowait, replay, no_events, new_queue,
  subscribe, trimmed, fan_out, publish, close, get_at, Reach, started, subscribed, published,
  closed_after, got, is_critical,
}
use ops_knowledge.Workflow.Bus.Thinned.{
  IsThinned, IsThinned-append, IsThinned-nil, trimmed-take_last,
}
use ops_knowledge.Workflow.Bus.Order.{
  IsServed, delivered, get-IsServed, sentinel-IsServed, put_nowait-IsServed, put-IsServed,
}

-- What holds of a bus on which `es` were published.
pub record IsFaithful {D : Type 0} (queue_size history_size : ℕ) (es : List (Event D))
    (bus : EventBus D) : Type 0 where
  pub sized : bus.queue_size ≡ queue_size
  pub history_sized : bus.history_max ≡ history_size
  pub replays : bus.history ≡ take_last history_size es
  pub served : All (IsServed queue_size es) bus.subs

module _ {D : Type 0} (size : ℕ) (pos : 0 < size) where
  longer-IsServed :
      (past history : List (Event D)) (s : Subscriber D)
      → IsServed size past s
      → IsServed size (past ++ history) s
  longer-IsServed past history s h = record {
    in_order =
        subst (λ l. IsThinned l (past ++ history)) (append-nil (delivered s))
          (IsThinned-append h.in_order (IsThinned-nil history));
    bounded = h.bounded;
  }

  replay-IsServed :
      (past history : List (Event D)) (s : Subscriber D)
      → IsServed size past s
      → IsServed size (past ++ history) (replay size history s)
  unfolding replay put_nowait
  replay-IsServed past [] s h = longer-IsServed past [] s h
  replay-IsServed past (ev ∷ history) s h = elim (Bool-cases (is_full size s.queue)) [
    | inl full ↦ simp full (longer-IsServed past (ev ∷ history) s h)
    | inr room ↦
        let put_room : put_nowait size (some ev) s ≡ push (some ev) s = simp room refl in
        simp room (
          subst (λ l. IsServed size l (replay size history (push (some ev) s)))
            (append_assoc past (ev ∷ []) history)
            (replay-IsServed (past ++ ev ∷ []) history (push (some ev) s) (
              subst (IsServed size (past ++ ev ∷ [])) put_room
                (put_nowait-IsServed size pos past ev s h))))
  ]

  new_queue-IsServed :
      (es : List (Event D)) (n : ℕ) (bus : EventBus D)
      → bus.queue_size ≡ size
      → bus.history ≡ take_last n es
      → IsServed size es (new_queue bus)
  unfolding new_queue
  new_queue-IsServed es n bus sized replays =
      let m = length es - n in
      let first : IsServed size (take m es) no_events = record {
        in_order = IsThinned-nil (take m es);
        bounded = omega arith;
      } in
      let replayed : IsServed size es (replay size (take_last n es) no_events) =
        subst (λ l. IsServed size l (replay size (take_last n es) no_events))
          (take-append-drop m es) (replay-IsServed (take m es) (drop m es) no_events first) in
      elim (Bool-cases bus.closed) [
        | inl over ↦ simp (over, sized, replays) (sentinel-IsServed size pos es _ replayed)
        | inr goes_on ↦ simp (goes_on, sized, replays) replayed
      ]

  map-IsServed :
      (es : List (Event D)) (subs : List (Subscriber D))
      → All (IsServed size es) subs
      → All (IsServed size es) (map (put_nowait size none) subs)
  map-IsServed es [] h = tt
  map-IsServed es (s ∷ subs) h = (sentinel-IsServed size pos es s h.0, map-IsServed es subs h.1)

  get_at-IsServed :
      (es : List (Event D)) (i : ℕ) (subs : List (Subscriber D))
      → All (IsServed size es) subs
      → All (IsServed size es) (get_at i subs)
  unfolding get_at
  get_at-IsServed es i [] h = tt
  get_at-IsServed es zero (s ∷ subs) h = (get-IsServed size pos es s h.0, h.1)
  get_at-IsServed es (suc i) (s ∷ subs) h = (h.0, get_at-IsServed es i subs h.1)

  fan_out-IsServed :
      (turns : ℕ → ℕ) (es : List (Event D)) (ev : Event D) (subs : List (Subscriber D))
      → All (IsServed size es) subs
      → All (IsServed size (es ++ ev ∷ [])) (fan_out size turns ev subs)
  unfolding fan_out
  fan_out-IsServed turns es ev [] h = tt
  fan_out-IsServed turns es ev (s ∷ subs) h = (
    elim (Bool-cases (is_critical ev.type)) [
      | inl critical ↦ rw critical (put-IsServed size pos (turns 0) es ev s h.0)
      | inr other ↦ rw other (put_nowait-IsServed size pos es ev s h.0)
    ],
    fan_out-IsServed (λ i. turns (suc i)) es ev subs h.1,
  )

module _ {D : Type 0} (queue_size history_size : ℕ) (pos : 0 < queue_size) where
  publish-IsFaithful :
      (turns : ℕ → ℕ) (es : List (Event D)) (ev : Event D) (bus : EventBus D)
      → IsFaithful queue_size history_size es bus
      → IsFaithful queue_size history_size (es ++ ev ∷ []) (publish turns ev bus)
  unfolding publish
  publish-IsFaithful turns es ev bus h =
      let history : trimmed bus.history_max (bus.history ++ ev ∷ [])
          ≡ take_last history_size (es ++ ev ∷ []) =
        rw (h.history_sized, h.replays) (trimmed-take_last history_size es ev) in
      elim (Bool-cases bus.closed) [
        | inl over ↦ simp over (record {
          sized = h.sized;
          history_sized = h.history_sized;
          replays = history;
          served =
              All-map (IsServed queue_size es) (IsServed queue_size (es ++ ev ∷ [])) bus.subs
                (λ s. longer-IsServed queue_size pos es (ev ∷ []) s) h.served;
        })
        | inr goes_on ↦ simp goes_on (record {
          sized = h.sized;
          history_sized = h.history_sized;
          replays = history;
          served = rw h.sized (fan_out-IsServed queue_size pos turns es ev bus.subs h.served);
        })
      ]

  -- At every time, whatever was called and however slow the consumers are: the history holds the last
  -- events published, up to its size; what a subscriber was given and what waits in its queue are
  -- events that were published, in the order of their publication and none twice; and no queue is
  -- longer than its size.
  pub Reach-IsFaithful :
      (es : List (Event D)) (bus : EventBus D)
      → Reach queue_size history_size es bus
      → IsFaithful queue_size history_size es bus
  unfolding new_bus subscribe close
  Reach-IsFaithful es bus started =
      let none_cut : 0 - history_size ≡ 0 = omega arith in
      record { sized = refl; history_sized = refl; replays = rw none_cut refl; served = tt }
  Reach-IsFaithful es bus (subscribed {bus = before} r) =
      let h = Reach-IsFaithful es before r in
      record {
        sized = h.sized;
        history_sized = h.history_sized;
        replays = h.replays;
        served =
            All-append (IsServed queue_size es) before.subs (new_queue before ∷ []) h.served
              (new_queue-IsServed queue_size pos es history_size before h.sized h.replays, tt);
      }
  Reach-IsFaithful es bus (published {es = past} {bus = before} turns ev r) =
      publish-IsFaithful turns past ev before (Reach-IsFaithful past before r)
  Reach-IsFaithful es bus (closed_after {bus = before} r) =
      let h = Reach-IsFaithful es before r in
      record {
        sized = h.sized;
        history_sized = h.history_sized;
        replays = h.replays;
        served = rw h.sized (map-IsServed queue_size pos es before.subs h.served);
      }
  Reach-IsFaithful es bus (got {bus = before} i r) =
      let h = Reach-IsFaithful es before r in
      record {
        sized = h.sized;
        history_sized = h.history_sized;
        replays = h.replays;
        served = get_at-IsServed queue_size pos es i before.subs h.served;
      }
