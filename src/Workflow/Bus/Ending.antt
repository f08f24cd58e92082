-- ===== src/Workflow/Bus/Ending.antt =====
-- When the loop of a consumer returns: `close`, `subscribe` and `stream` of app/workflow/events.py.
use ops_knowledge.Prelude.{
  ℕ, zero, suc, ◌+◌, ◌≤◌, ◌<◌, ◌≡◌, refl, sym, ap, ◌∙◌, subst, true, false, not, ltb, if◌then◌else◌,
  Option, none, some, List, [], ◌∷◌, ◌++◌, map, arith, inl, inr, Bool-cases, length, length-take-le,
  take, length-append,
}
use mathlib.Core.List.{append_assoc, append-nil}
use ops_knowledge.Workflow.Bus.{
  Event, Subscriber, EventBus, is_full, push, put_nowait, get, stream, replay, no_events, new_queue,
}

module _ {D : Type 0} where
  -- A consumer that goes on, with events only in its queue.
  abbrev pub waiting : List (Event D) → List (Event D) → Subscriber D
  waiting yielded evs = record { queue = map some evs; yielded = yielded; ended = false }

  stream_ended : (n : ℕ) (s : Subscriber D) → s.ended ≡ true → stream n s ≡ s
  unfolding stream get
  stream_ended zero s over = refl
  stream_ended (suc n) s over = simp over (stream_ended n s over)

  -- Enough turns yield all that waits; the loop returns if the sentinel comes after it.
  drain_open :
      (n : ℕ) (yielded evs : List (Event D))
      → length evs ≤ n
      → stream n (waiting yielded evs) ≡ waiting (yielded ++ evs) []
  unfolding stream get
  drain_open zero yielded [] h = rw (append-nil yielded) refl
  drain_open zero yielded (ev ∷ evs) h = absurd (omega arith)
  drain_open (suc n) yielded [] h = drain_open n yielded [] (omega arith)
  drain_open (suc n) yielded (ev ∷ evs) h =
      drain_open n (yielded ++ ev ∷ []) evs (omega arith)
      ∙ ap (λ l. waiting l []) (append_assoc yielded (ev ∷ []) evs)

  drain_closed :
      (n : ℕ) (yielded evs : List (Event D))
      → length evs < n
      → stream n (push none (waiting yielded evs))
        ≡ record { queue = []; yielded = yielded ++ evs; ended = true }
  unfolding stream get
  drain_closed zero yielded evs h = absurd (omega arith)
  drain_closed (suc n) yielded [] h =
      stream_ended n (record { queue = []; yielded = yielded; ended = true }) refl
      ∙ ap (λ l. record { queue = []; yielded = l; ended = true }) (sym (append-nil yielded))
  drain_closed (suc n) yielded (ev ∷ evs) h =
      drain_closed n (yielded ++ ev ∷ []) evs (omega arith)
      ∙ ap (λ l. record { queue = []; yielded = l; ended = true })
          (append_assoc yielded (ev ∷ []) evs)

  pub length-some :
      (evs : List (Event D)) → length (map {B = Option (Event D)} some evs) ≡ length evs
  length-some [] = refl
  length-some (ev ∷ evs) = ap suc (length-some evs)

  pub drain_exact :
      (size n : ℕ) (yielded evs : List (Event D))
      → length evs < n
      → stream n (put_nowait size none (waiting yielded evs))
        ≡ record { queue = []; yielded = yielded ++ evs; ended = not (is_full size (map some evs)) }
  unfolding put_nowait
  drain_exact size n yielded evs h = elim (Bool-cases (is_full size (map some evs))) [
    | inl full ↦ simp full (drain_open n yielded evs (omega arith))
    | inr room ↦ simp room (drain_closed n yielded evs h)
  ]

  pub map-some-append :
      (xs ys : List (Event D))
      → map {B = Option (Event D)} some (xs ++ ys) ≡ map some xs ++ map some ys
  map-some-append [] ys = refl
  map-some-append (x ∷ xs) ys = ap (λ l. some x ∷ l) (map-some-append xs ys)

  replay_exact :
      (size room : ℕ) (history evs : List (Event D))
      → 0 < size
      → length evs + room ≡ size
      → replay size history (waiting [] evs) ≡ waiting [] (evs ++ take room history)
  unfolding replay
  replay_exact size zero [] evs pos h = ap (waiting []) (sym (append-nil evs))
  replay_exact size (suc room) [] evs pos h = ap (waiting []) (sym (append-nil evs))
  replay_exact size zero (ev ∷ history) evs pos h =
      let full : is_full size (map some evs) ≡ true = ground (arith, length-some evs) in
      simp full (ap (waiting []) (sym (append-nil evs)))
  replay_exact size (suc room) (ev ∷ history) evs pos h =
      let free : is_full size (map some evs) ≡ false = ground (arith, length-some evs) in
      let fits : length (evs ++ ev ∷ []) + room ≡ size =
        omega (arith, length-append evs (ev ∷ [])) in
      simp free (
        subst
          (λ q.
            replay size history (record { queue = q; yielded = []; ended = false })
            ≡ waiting [] (evs ++ ev ∷ take room history))
          (map-some-append evs (ev ∷ []))
          (replay_exact size room history (evs ++ ev ∷ []) pos fits
            ∙ ap (waiting []) (append_assoc evs (ev ∷ []) (take room history))))

  length-take :
      (n : ℕ) (xs : List (Event D))
      → length (take n xs) ≡ (if ltb (length xs) n then length xs else n)
  length-take zero xs = ground arith
  length-take (suc n) [] = ground arith
  length-take (suc n) (x ∷ xs) = ground (arith, length-take n xs)

  -- Someone who subscribes to a closed bus and reads on gets the events of the history that fit into
  -- a queue, and the stream then returns exactly if the history is shorter than a queue; otherwise
  -- it waits for ever, since a closed bus puts nothing into a queue.
  pub late_subscriber_exact :
      (bus : EventBus D) (n : ℕ)
      → 0 < bus.queue_size
      → bus.closed ≡ true
      → bus.queue_size < n
      → stream n (new_queue bus) ≡ record {
        queue = [];
        yielded = take bus.queue_size bus.history;
        ended = ltb (length bus.history) bus.queue_size;
      }
  unfolding new_queue
  late_subscriber_exact bus n pos over enough =
      let size = bus.queue_size in
      let evs = take size bus.history in
      let replayed : replay size bus.history no_events ≡ waiting [] evs =
        replay_exact size size bus.history [] pos (omega arith) in
      let few : length evs ≤ size = length-take-le size bus.history in
      let room : not (is_full size (map some evs)) ≡ ltb (length bus.history) size =
        ground (arith, length-take size bus.history, length-some evs) in
      simp (over, replayed)
        (drain_exact size n [] evs (omega arith)
          ∙ ap (λ b. record { queue = []; yielded = evs; ended = b }) room)
