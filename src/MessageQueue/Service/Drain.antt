-- ===== src/MessageQueue/Service/Drain.antt =====
-- The loop of `finalize`, which pops and releases what the queue still holds.
use handystats.Prelude.{
  ℕ, zero, suc, ◌<◌, ◌≡◌, ◌≢◌, refl, sym, ◌∙◌, ◌==◌, Bool, Bool-cases, Option-cases, true, false,
  ◌||◌, ==_iff, inl, inr, Option, none, some, List, [], ◌∷◌, length, ltb, All, arith, if◌then◌else◌,
}
use mathlib.Core.Path.{subst}
use handystats.Machine.{Machine}
use handystats.Chrono.TimePoint.{TimePoint}
use handystats.Events.Message.{Destination, EventMessage}
use handystats.Events.Release.{
  releases, releases_counter, releases_gauge, releases_timer, releases_attribute,
}
use handystats.MessageQueue.Chain.{NotIn}
use handystats.MessageQueue.Service.{Service, pop, empty, delete_message, drain, finalize}
use handystats.MessageQueue.Service.Intact.{
  Intact, IsPlainStats, Allocated, pop_message, reset_stats-IsPlain,
}

module _ ⦃m : Machine⦄ where
  -- Each kind of metric has this many event types, whose codes start at 0.
  abbrev pub event_types : Destination → ℕ
  event_types Destination.counter = 3
  event_types Destination.gauge = 2
  event_types Destination.timer = 6
  event_types Destination.attribute = 1

  -- The memory of a message without the message, if its code is one of its kind's.
  abbrev pub released : Option EventMessage → Option EventMessage
  released none = none
  released (some msg) =
      if ltb msg.event_type (event_types msg.destination_type) then none else some msg

  releases-event_types :
      (msg : EventMessage) → releases msg ≡ ltb msg.event_type (event_types msg.destination_type)
  unfolding releases releases_counter releases_gauge releases_timer releases_attribute
  releases-event_types msg = by_kind msg.destination_type msg refl
    where
      by_kind :
          (d : Destination) (msg : EventMessage)
          → msg.destination_type ≡ d
          → releases msg ≡ ltb msg.event_type (event_types d)
      by_kind Destination.counter msg e = rw e (ground arith)
      by_kind Destination.gauge msg e = rw e (ground arith)
      by_kind Destination.timer msg e = rw e (ground arith)
      by_kind Destination.attribute msg e = rw e (ground arith)

  -- What `delete_event_message` of the message at `n` makes of the service.
  pub record Deletes (n : ℕ) (s s' : Service) : Type 0 where
    pub queue_eq : s'.event_message_queue ≡ s.event_message_queue
    pub size_eq : s'.mq_size ≡ s.mq_size
    pub stats_eq : s'.stats ≡ s.stats
    pub messages_eq :
        (k : ℕ) → s'.messages k ≡ (if k == n then released (s.messages k) else s.messages k)

  unchanged : (n : ℕ) (s : Service) → s.messages n ≡ released (s.messages n) → Deletes n s s
  unchanged n s e = record {
    queue_eq = refl;
    size_eq = refl;
    stats_eq = refl;
    messages_eq = λ k. elim (Bool-cases (k == n)) [
      | inl same ↦ rw same (rw ((==_iff k n).0 same) e)
      | inr other ↦ rw other refl
    ];
  }

  pub delete-Deletes : (n : ℕ) (s : Service) → Deletes n s (delete_message (some n) s)
  unfolding delete_message
  delete-Deletes n s = elim (Option-cases (s.messages n)) [
    | inl e ↦ rw (e, delete_message) (unchanged n s (rw e refl))
    | inr (msg, e) ↦ elim (Bool-cases (releases msg)) [
      | inl r ↦
          rw (e, delete_message, r)
            (record {
              queue_eq = refl;
              size_eq = refl;
              stats_eq = refl;
              messages_eq = λ k. elim (Bool-cases (k == n)) [
                | inl same ↦ rw same (
                    rw ((==_iff k n).0 same)
                      (rw (e, released, sym (releases-event_types msg) ∙ r) refl))
                | inr other ↦ rw other refl
              ];
            })
      | inr r ↦
          rw (e, delete_message, r)
            (unchanged n s (rw (e, released, sym (releases-event_types msg) ∙ r) refl))
    ]
  ]

  pub ne-== : (x n : ℕ) → x ≢ n → (x == n) ≡ false
  ne-== x n h = ground arith

  pub Deletes-other :
      (n : ℕ) (s s' : Service) (x : ℕ) → Deletes n s s' → x ≢ n → s'.messages x ≡ s.messages x
  Deletes-other n s s' x d ne = d.messages_eq x ∙ rw (ne-== x n ne) refl

  All-Allocated :
      (n : ℕ) (s s' : Service) (xs : List ℕ)
      → Deletes n s s'
      → NotIn n xs
      → All (Allocated s.messages) xs
      → All (Allocated s'.messages) xs
  All-Allocated n s s' [] d out a = tt
  All-Allocated n s s' (x ∷ xs) d (ne, out) ((msg, e), a) =
      ((msg, Deletes-other n s s' x d ne ∙ e), All-Allocated n s s' xs d out a)

  pub delete-Intact :
      (n : ℕ) (s s' : Service) (xs : List ℕ)
      → Deletes n s s'
      → NotIn n xs
      → Intact s xs
      → Intact s' xs
  delete-Intact n s s' xs d out h = record {
    queue = h.queue;
    queue_eq = d.queue_eq ∙ h.queue_eq;
    holds = h.holds;
    size_eq = d.size_eq ∙ h.size_eq;
    bounded = h.bounded;
    distinct = h.distinct;
    allocated = All-Allocated n s s' xs d out h.allocated;
    plain = rw d.stats_eq h.plain;
  }

  abbrev pub holds : ℕ → List ℕ → Bool
  holds k [] = false
  holds k (x ∷ xs) = k == x || holds k xs

  -- The messages `xs` are released, and the others are as they were.
  abbrev pub ReleasedIn : List ℕ → (ℕ → Option EventMessage) → (ℕ → Option EventMessage) → Type 0
  ReleasedIn xs f g = (k : ℕ) → g k ≡ (if holds k xs then released (f k) else f k)

  abbrev pub Released : List ℕ → Service → Service → Type 0
  Released xs s s' = ReleasedIn xs s.messages s'.messages

  NotIn-holds : (k : ℕ) (xs : List ℕ) → NotIn k xs → holds k xs ≡ false
  NotIn-holds k [] out = refl
  NotIn-holds k (x ∷ xs) (ne, out) = rw (ne-== k x (λ e. ne (sym e))) (NotIn-holds k xs out)

  pub empty-zero : (s : Service) → s.mq_size ≡ 0 → empty s ≡ true
  unfolding empty
  empty-zero s e = ground arith

  pub empty-suc : (size : ℕ) (s : Service) → s.mq_size ≡ suc size → empty s ≡ false
  unfolding empty
  empty-suc size s e = ground arith

  drain-stop :
      (fuel : ℕ) (clock : ℕ → TimePoint) (s : Service)
      → empty s ≡ true
      → drain (suc fuel) clock s ≡ some s
  unfolding drain
  drain-stop fuel clock s e = rw (e, drain) refl

  drain-turn :
      (fuel n : ℕ) (clock : ℕ → TimePoint) (s s' : Service)
      → empty s ≡ false
      → pop (clock fuel) s ≡ some (s', some n)
      → drain (suc fuel) clock s ≡ drain fuel clock (delete_message (some n) s')
  unfolding drain
  drain-turn fuel n clock s s' e f = rw (e, drain) (rw f refl)

  pub Released-turn :
      (n : ℕ) (xs : List ℕ) (f g h : ℕ → Option EventMessage)
      → NotIn n xs
      → ((k : ℕ) → g k ≡ (if k == n then released (f k) else f k))
      → ReleasedIn xs g h
      → ReleasedIn (n ∷ xs) f h
  Released-turn n xs f g h out d r k = elim (Bool-cases (k == n)) [
    | inl same ↦
        (let gone : holds k xs ≡ false = rw ((==_iff k n).0 same) (NotIn-holds n xs out) in
          rw same (r k ∙ rw gone (d k ∙ rw same refl)))
    | inr other ↦ (let kept : g k ≡ f k = d k ∙ rw other refl in rw other (rw⁻¹ kept (r k)))
  ]

  -- On a service that holds `xs`, the loop ends within one turn more than there are messages: then
  -- the service holds none, the messages `xs` are released, and the other messages are as they were.
  pub drain-Intact :
      (fuel : ℕ) (clock : ℕ → TimePoint) (s : Service) (xs : List ℕ)
      → Intact s xs
      → length xs < fuel
      → (s' : Service) × (drain fuel clock s ≡ some s') × Intact s' [] × Released xs s s'
  drain-Intact zero clock s xs h enough = let no : ⊥ = omega (arith, enough) in elim no [ ]
  drain-Intact (suc fuel) clock s [] h enough =
      (s, drain-stop fuel clock s (empty-zero s h.size_eq), h, λ _. refl)
  drain-Intact (suc fuel) clock s (x ∷ xs) h enough =
      let (s1, e1, h1, same) = pop_message (clock fuel) s x xs h in
      let out = h.distinct.0 in
      let d = delete-Deletes x s1 in
      let h2 = delete-Intact x s1 (delete_message (some x) s1) xs d out h1 in
      let (s3, e3, h3, r) =
        drain-Intact fuel clock (delete_message (some x) s1) xs h2 (omega (arith, enough)) in
      (
        s3,
        drain-turn fuel x clock s s1 (empty-suc (length xs) s h.size_eq) e1 ∙ e3,
        h3,
        subst (λ f. ReleasedIn (x ∷ xs) f s3.messages) same
            (Released-turn x xs s1.messages (delete_message (some x) s1).messages s3.messages out
              d.messages_eq r),
      )

  -- On an intact service that holds the messages `xs`, each once and at its own address, `finalize`
  -- returns when its loop has one turn more than there are messages: the queue is gone,
  -- its size is 0, those of the messages that it held whose type is an event of their kind of metric
  -- are released, and the other messages are as they were.
  pub finalize-Released :
      (fuel : ℕ) (clock : ℕ → TimePoint) (now : TimePoint) (s : Service) (xs : List ℕ)
      → Intact s xs
      → length xs < fuel
      → (s' : Service) × (finalize fuel clock now s ≡ some s')
        × (s'.event_message_queue ≡ none)
        × (s'.mq_size ≡ 0)
        × IsPlainStats s'.stats
        × Released xs s s'
  unfolding finalize
  finalize-Released fuel clock now s xs h enough =
      let (s1, e, h1, r) = drain-Intact fuel clock s xs h enough in
      let (st, f, plain) = reset_stats-IsPlain now in
      (
        record s1 { event_message_queue = none; mq_size = 0; stats = st },
        rw (e, f) refl,
        refl,
        refl,
        plain,
        r,
      )
