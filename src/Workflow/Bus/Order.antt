-- ===== src/Workflow/Bus/Order.antt =====
-- What the queue of one consumer holds (app/workflow/events.py).
use ops_knowledge.Prelude.{
  ℕ, zero, suc, ◌≤◌, ◌<◌, ◌≡◌, refl, sym, ap, ◌∙◌, subst, Option, none, some, List, [], ◌∷◌, ◌++◌,
  arith, inl, inr, Bool-cases, length, length-append,
}
use mathlib.Core.List.{append_assoc, append-nil}
use ops_knowledge.Workflow.Bus.{
  Event, Subscriber, is_full, push, put_nowait, get, stream, put, taken,
}
use ops_knowledge.Workflow.Bus.Thinned.{IsThinned, IsThinned-refl, IsThinned-append, IsThinned-skip}

module _ {D : Type 0} where
  abbrev pub events : List (Option (Event D)) → List (Event D)
  events [] = []
  events (none ∷ q) = events q
  events (some ev ∷ q) = ev ∷ events q

  -- What a consumer has been given, and what still waits for it.
  abbrev pub delivered : Subscriber D → List (Event D)
  delivered s = s.yielded ++ events s.queue

  pub events-append : (p q : List (Option (Event D))) → events (p ++ q) ≡ events p ++ events q
  events-append [] q = refl
  events-append (none ∷ p) q = events-append p q
  events-append (some ev ∷ p) q = rw (events-append p q)

  pub delivered-push :
      (ev : Event D) (s : Subscriber D) → delivered (push (some ev) s) ≡ delivered s ++ ev ∷ []
  delivered-push ev s =
      rw (events-append s.queue (some ev ∷ [])) (sym (append_assoc s.yielded _ (ev ∷ [])))

  pub delivered-put_sentinel :
      (size : ℕ) (s : Subscriber D) → delivered (put_nowait size none s) ≡ delivered s
  unfolding put_nowait
  delivered-put_sentinel size s = elim (Bool-cases (is_full size s.queue)) [
    | inl full ↦ rw full refl
    | inr room ↦
        simp room (
          ap (λ q. s.yielded ++ q)
            (events-append s.queue (none ∷ []) ∙ append-nil (events s.queue)))
  ]

  delivered-taken :
      (yielded : List (Event D)) (queue : List (Option (Event D)))
      → delivered (taken yielded queue) ≡ yielded ++ events queue
  delivered-taken yielded [] = refl
  delivered-taken yielded (none ∷ queue) = refl
  delivered-taken yielded (some ev ∷ queue) = append_assoc yielded (ev ∷ []) (events queue)

  pub delivered-get : (s : Subscriber D) → delivered (get s) ≡ delivered s
  unfolding get
  delivered-get s = elim (Bool-cases s.ended) [
    | inl over ↦ simp over refl
    | inr goes_on ↦ simp goes_on (delivered-taken s.yielded s.queue)
  ]

  delivered-stream : (n : ℕ) (s : Subscriber D) → delivered (stream n s) ≡ delivered s
  unfolding stream
  delivered-stream zero s = refl
  delivered-stream (suc n) s = delivered-stream n (get s) ∙ delivered-get s

  length-taken :
      (yielded : List (Event D)) (queue : List (Option (Event D)))
      → length (taken yielded queue).queue ≤ length queue
  length-taken yielded [] = omega arith
  length-taken yielded (none ∷ queue) = omega arith
  length-taken yielded (some ev ∷ queue) = omega arith

  length-get : (s : Subscriber D) → length (get s).queue ≤ length s.queue
  unfolding get
  length-get s = elim (Bool-cases s.ended) [
    | inl over ↦ simp over (omega arith)
    | inr goes_on ↦ simp goes_on (length-taken s.yielded s.queue)
  ]

  pub length-put_nowait :
      (size : ℕ) (x : Option (Event D)) (s : Subscriber D)
      → 0 < size
      → length s.queue ≤ size
      → length (put_nowait size x s).queue ≤ size
  unfolding put_nowait
  length-put_nowait size x s pos h = ground (arith, length-append s.queue (x ∷ []))

-- What holds of a subscriber of a bus on which `es` were published.
pub record IsServed {D : Type 0} (size : ℕ) (es : List (Event D)) (s : Subscriber D) : Type 0 where
  pub in_order : IsThinned (delivered s) es
  pub bounded : length s.queue ≤ size

module _ {D : Type 0} (size : ℕ) (pos : 0 < size) where
  pub get-IsServed :
      (es : List (Event D)) (s : Subscriber D) → IsServed size es s → IsServed size es (get s)
  get-IsServed es s h = record {
    in_order = subst (λ l. IsThinned l es) (sym (delivered-get s)) h.in_order;
    bounded = omega (arith, h.bounded, length-get s);
  }

  stream-IsServed :
      (n : ℕ) (es : List (Event D)) (s : Subscriber D)
      → IsServed size es s
      → IsServed size es (stream n s)
  unfolding stream
  stream-IsServed zero es s h = h
  stream-IsServed (suc n) es s h = stream-IsServed n es (get s) (get-IsServed es s h)

  pub sentinel-IsServed :
      (es : List (Event D)) (s : Subscriber D)
      → IsServed size es s
      → IsServed size es (put_nowait size none s)
  sentinel-IsServed es s h = record {
    in_order = subst (λ l. IsThinned l es) (sym (delivered-put_sentinel size s)) h.in_order;
    bounded = length-put_nowait size none s pos h.bounded;
  }

  -- A new event is added at the end, or is dropped.
  pub put_nowait-IsServed :
      (es : List (Event D)) (ev : Event D) (s : Subscriber D)
      → IsServed size es s
      → IsServed size (es ++ ev ∷ []) (put_nowait size (some ev) s)
  unfolding put_nowait
  put_nowait-IsServed es ev s h = record {
    in_order = elim (Bool-cases (is_full size s.queue)) [
      | inl full ↦ simp full (IsThinned-skip ev h.in_order)
      | inr room ↦ simp room (
          subst (λ l. IsThinned l (es ++ ev ∷ [])) (sym (delivered-push ev s))
            (IsThinned-append h.in_order (IsThinned-refl (ev ∷ []))))
    ];
    bounded = length-put_nowait size (some ev) s pos h.bounded;
  }

  pub put-IsServed :
      (turns : ℕ) (es : List (Event D)) (ev : Event D) (s : Subscriber D)
      → IsServed size es s
      → IsServed size (es ++ ev ∷ []) (put size turns ev s)
  unfolding put
  put-IsServed turns es ev s h =
      put_nowait-IsServed es ev _ (elim (Bool-cases (is_full size s.queue)) [
        | inl full ↦ simp full (stream-IsServed turns es s h)
        | inr room ↦ simp room h
      ])
