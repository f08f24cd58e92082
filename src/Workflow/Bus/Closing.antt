-- ===== src/Workflow/Bus/Closing.antt =====
-- What the consumers of an open bus get when it is closed (app/workflow/events.py).
use mathlib.Core.Option.{some-injective}
use ops_knowledge.Prelude.{
  ℕ, zero, suc, ◌<◌, ◌≡◌, refl, sym, ap, ◌∙◌, subst, true, false, not, none, some, List, [], ◌∷◌,
  ◌++◌, map, arith, inl, inr, Bool-cases, length, get_elem?, All, All-append,
}
use ops_knowledge.Workflow.Bus.{
  Event, Subscriber, EventBus, new_bus, is_full, push, put_nowait, get, stream, put, replay,
  no_events, new_queue, subscribe, fan_out, publish, close, get_at, Reach, started, subscribed,
  published, closed_after, got, is_critical,
}
use ops_knowledge.Workflow.Bus.Order.{events, delivered}
use ops_knowledge.Workflow.Bus.Ending.{waiting, drain_exact, map-some-append, length-some}

module _ {D : Type 0} where
  -- A consumer of a bus that is still open: its loop goes on, and no sentinel waits.
  abbrev IsOpen : Subscriber D → Type 0
  IsOpen s = (evs : List (Event D)) × (s ≡ waiting s.yielded evs)

  push-IsOpen : (ev : Event D) (s : Subscriber D) → IsOpen s → IsOpen (push (some ev) s)
  push-IsOpen ev s (evs, e) = (
    evs ++ ev ∷ [],
    subst (λ q. push (some ev) s ≡ record { queue = q; yielded = s.yielded; ended = false })
        (sym (map-some-append evs (ev ∷ []))) (ap (push (some ev)) e),
  )

  put_nowait-IsOpen :
      (size : ℕ) (ev : Event D) (s : Subscriber D) → IsOpen s → IsOpen (put_nowait size (some ev) s)
  unfolding put_nowait
  put_nowait-IsOpen size ev s h = elim (Bool-cases (is_full size s.queue)) [
    | inl full ↦ simp full h
    | inr room ↦ simp room (push-IsOpen ev s h)
  ]

  get-waiting-IsOpen : (yielded evs : List (Event D)) → IsOpen (get (waiting yielded evs))
  unfolding get
  get-waiting-IsOpen yielded [] = ([], refl)
  get-waiting-IsOpen yielded (ev ∷ evs) = (evs, refl)

  get-IsOpen : (s : Subscriber D) → IsOpen s → IsOpen (get s)
  get-IsOpen s (evs, e) = subst (λ t. IsOpen (get t)) (sym e) (get-waiting-IsOpen s.yielded evs)

  stream-IsOpen : (n : ℕ) (s : Subscriber D) → IsOpen s → IsOpen (stream n s)
  unfolding stream
  stream-IsOpen zero s h = h
  stream-IsOpen (suc n) s h = stream-IsOpen n (get s) (get-IsOpen s h)

  put-IsOpen :
      (size turns : ℕ) (ev : Event D) (s : Subscriber D) → IsOpen s → IsOpen (put size turns ev s)
  unfolding put
  put-IsOpen size turns ev s h =
      put_nowait-IsOpen size ev _ (elim (Bool-cases (is_full size s.queue)) [
        | inl full ↦ simp full (stream-IsOpen turns s h)
        | inr room ↦ simp room h
      ])

  fan_out-IsOpen :
      (size : ℕ) (turns : ℕ → ℕ) (ev : Event D) (subs : List (Subscriber D))
      → All IsOpen subs
      → All IsOpen (fan_out size turns ev subs)
  unfolding fan_out
  fan_out-IsOpen size turns ev [] h = tt
  fan_out-IsOpen size turns ev (s ∷ subs) h = (
    elim (Bool-cases (is_critical ev.type)) [
      | inl critical ↦ rw critical (put-IsOpen size (turns 0) ev s h.0)
      | inr other ↦ rw other (put_nowait-IsOpen size ev s h.0)
    ],
    fan_out-IsOpen size (λ i. turns (suc i)) ev subs h.1,
  )

  replay-IsOpen :
      (size : ℕ) (history : List (Event D)) (s : Subscriber D)
      → IsOpen s
      → IsOpen (replay size history s)
  unfolding replay
  replay-IsOpen size [] s h = h
  replay-IsOpen size (ev ∷ history) s h = elim (Bool-cases (is_full size s.queue)) [
    | inl full ↦ simp full h
    | inr room ↦ simp room (replay-IsOpen size history _ (push-IsOpen ev s h))
  ]

  get_at-IsOpen :
      (i : ℕ) (subs : List (Subscriber D)) → All IsOpen subs → All IsOpen (get_at i subs)
  unfolding get_at
  get_at-IsOpen i [] h = tt
  get_at-IsOpen zero (s ∷ subs) h = (get-IsOpen s h.0, h.1)
  get_at-IsOpen (suc i) (s ∷ subs) h = (h.0, get_at-IsOpen i subs h.1)

  publish-IsOpen :
      (turns : ℕ → ℕ) (ev : Event D) (bus : EventBus D)
      → (bus.closed ≡ false → All IsOpen bus.subs)
      → (publish turns ev bus).closed ≡ false
      → All IsOpen (publish turns ev bus).subs
  unfolding publish
  publish-IsOpen turns ev bus h o = elim (Bool-cases bus.closed) [
    | inl over ↦ let still : true ≡ false = simp over at o in absurd (ground arith)
    | inr goes_on ↦ simp goes_on (fan_out-IsOpen bus.queue_size turns ev bus.subs (h goes_on))
  ]

  -- As long as a bus is open, so is every one of its consumers.
  Reach-IsOpen :
      (queue_size history_size : ℕ) (es : List (Event D)) (bus : EventBus D)
      → Reach queue_size history_size es bus
      → bus.closed ≡ false
      → All IsOpen bus.subs
  unfolding new_bus subscribe new_queue publish close
  Reach-IsOpen queue_size history_size es bus started o = tt
  Reach-IsOpen queue_size history_size es bus (subscribed {bus = before} r) o =
      All-append IsOpen before.subs (new_queue before ∷ [])
        (Reach-IsOpen queue_size history_size es before r o)
        (simp o (replay-IsOpen before.queue_size before.history no_events ([], refl)), tt)
  Reach-IsOpen queue_size history_size es bus (published {es = past} {bus = before} turns ev r) o =
      publish-IsOpen turns ev before (Reach-IsOpen queue_size history_size past before r) o
  Reach-IsOpen queue_size history_size es bus (closed_after {bus = before} r) o =
      absurd (ground arith)
  Reach-IsOpen queue_size history_size es bus (got {bus = before} i r) o =
      get_at-IsOpen i before.subs (Reach-IsOpen queue_size history_size es before r o)

  All-get_elem? :
      (P : Subscriber D → Type 0) (i : ℕ) (subs : List (Subscriber D)) (s : Subscriber D)
      → All P subs
      → get_elem? subs i ≡ some s
      → P s
  All-get_elem? P i [] s h e = absurd (ground arith)
  All-get_elem? P zero (t ∷ subs) s h e = subst P (some-injective t s e) h.0
  All-get_elem? P (suc i) (t ∷ subs) s h e = All-get_elem? P i subs s h.1 e

  get_elem?-map :
      (f : Subscriber D → Subscriber D) (i : ℕ) (subs : List (Subscriber D)) (s : Subscriber D)
      → get_elem? subs i ≡ some s
      → get_elem? (map f subs) i ≡ some (f s)
  get_elem?-map f i [] s e = absurd (ground arith)
  get_elem?-map f zero (t ∷ subs) s e = ap (λ x. some (f x)) (some-injective t s e)
  get_elem?-map f (suc i) (t ∷ subs) s e = get_elem?-map f i subs s e

  events_some : (evs : List (Event D)) → events (map some evs) ≡ evs
  events_some [] = refl
  events_some (ev ∷ evs) = ap (λ l. ev ∷ l) (events_some evs)

  -- When an open bus is closed, every consumer that reads on gets what waits in its queue, to the last
  -- event, and its loop then returns exactly if its queue was not full at the close; else it waits for
  -- ever.
  pub close_exact :
      (queue_size history_size : ℕ) (es : List (Event D)) (bus : EventBus D) (i : ℕ)
      (s : Subscriber D) (n : ℕ)
      → Reach queue_size history_size es bus
      → bus.closed ≡ false
      → get_elem? bus.subs i ≡ some s
      → length s.queue < n
      → (s' : Subscriber D) × (get_elem? (close bus).subs i ≡ some s')
        × (stream n s' ≡ record {
          queue = [];
          yielded = delivered s;
          ended = not (is_full bus.queue_size s.queue);
        })
  unfolding close
  close_exact queue_size history_size es bus i s n r o found enough =
      let (evs, e) =
        All-get_elem? IsOpen i bus.subs s (Reach-IsOpen queue_size history_size es bus r o) found in
      let queued : s.queue ≡ map some evs = ap (λ t. t.queue) e in
      let short : length evs < n = omega (arith, length-some evs, ap length queued) in
      (
        put_nowait bus.queue_size none s,
        get_elem?-map (put_nowait bus.queue_size none) i bus.subs s found,
        subst
            (λ t. stream n (put_nowait bus.queue_size none t) ≡ record {
              queue = [];
              yielded = delivered t;
              ended = not (is_full bus.queue_size t.queue);
            })
            (sym e)
            (drain_exact bus.queue_size n s.yielded evs short
              ∙ ap
                  (λ l. record {
                    queue = [];
                    yielded = s.yielded ++ l;
                    ended = not (is_full bus.queue_size (map some evs));
                  })
                  (sym (events_some evs))),
      )
