-- ===== src/MeasuringPoints/Sent.antt =====
-- What a measuring point does to the state of the library.
use Prim.Native.String.{String}
use handystats.Prelude.{
  ℕ, suc, ◌<◌, ◌≡◌, ◌≢◌, ap, ◌∙◌, Option, some, List, [], ◌∷◌, ◌++◌, All, All-append, length,
  u64_mod, arith,
}
use handystats.Machine.{Machine}
use handystats.Events.Message.{Destination, EventMessage}
use handystats.MessageQueue.Nodes.{stub}
use handystats.MessageQueue.Chain.{NotIn}
use handystats.MessageQueue.Service.{Service, store}
use handystats.MessageQueue.Service.Intact.{Intact, Allocated, push-Intact}
use handystats.Core.{Core, is_enabled}
use handystats.Core.Steady.{Steady, IsTyped, TypedAt}
use handystats.MeasuringPoints.{send}

module _ ⦃m : Machine⦄ where
  store_other :
      (f : ℕ → Option EventMessage) (n x : ℕ) (v : Option EventMessage)
      → x ≢ n
      → store f n v x ≡ f x
  store_other f n x v h = ground arith

  store_self : (f : ℕ → Option EventMessage) (n : ℕ) (v : Option EventMessage) → store f n v n ≡ v
  store_self f n v = ground arith

  Typed-store :
      (kind : String → Destination) (f : ℕ → Option EventMessage) (n : ℕ) (v : Option EventMessage)
      (xs : List ℕ)
      → NotIn n xs
      → All (TypedAt kind f) xs
      → All (TypedAt kind (store f n v)) xs
  Typed-store kind f n v [] out a = tt
  Typed-store kind f n v (x ∷ xs) (ne, out) ((msg, e, t), a) =
      ((msg, store_other f n x v ne ∙ e, t), Typed-store kind f n v xs out a)

  Typed-Allocated :
      (kind : String → Destination) (f : ℕ → Option EventMessage) (xs : List ℕ)
      → All (TypedAt kind f) xs
      → All (Allocated f) xs
  Typed-Allocated kind f [] a = tt
  Typed-Allocated kind f (x ∷ xs) ((msg, e, t), a) = ((msg, e), Typed-Allocated kind f xs a)

  stored-Intact :
      (kind : String → Destination) (s : Service) (n : ℕ) (v : Option EventMessage) (xs : List ℕ)
      → Intact s xs
      → NotIn n xs
      → All (TypedAt kind s.messages) xs
      → Intact (record s { messages = store s.messages n v }) xs
  stored-Intact kind s n v xs h out typed = record {
    queue = h.queue;
    queue_eq = h.queue_eq;
    holds = h.holds;
    size_eq = h.size_eq;
    bounded = h.bounded;
    distinct = h.distinct;
    allocated =
        Typed-Allocated kind (store s.messages n v) xs
          (Typed-store kind s.messages n v xs out typed);
    plain = h.plain;
  }

  -- In a steady state, a measuring point puts its message, at an address that no message of the
  -- queue has, behind the messages of the queue, and the state is steady again, as long as the
  -- message is of the kind of its name and the queue's size stays below 2 ^ 64.
  pub send-Steady :
      (kind : String → Destination) (n : ℕ) (msg : EventMessage) (xs : List ℕ) (c : Core)
      → Steady kind c xs
      → n ≢ stub
      → NotIn n xs
      → IsTyped kind msg
      → suc (length xs) < u64_mod
      → Steady kind (send n msg c) (xs ++ n ∷ []) × ((send n msg c).queue.messages n ≡ some msg)
  unfolding send is_enabled
  send-Steady kind n msg xs c h new out typed room =
      let f = store c.queue.messages n (some msg) in
      let here = store_self c.queue.messages n (some msg) in
      let kept = Typed-store kind c.queue.messages n (some msg) xs out h.typed in
      let s : Service = record c.queue { messages = f } in
      let (intact, same, stats) =
        push-Intact n s xs (stored-Intact kind c.queue n (some msg) xs h.intact out h.typed) new out
          (msg, here) room in
      rw h.enabled (
        record {
          enabled = h.enabled;
          intact = intact;
          typed = rw same (All-append (TypedAt kind f) xs (n ∷ []) kept ((msg, here, typed), tt));
          kinds = h.kinds;
          ready = record {
            distinct = h.ready.distinct;
            plain_metrics = h.ready.plain_metrics;
            plain_stats = rw stats h.ready.plain_stats;
            plain_time = h.ready.plain_time;
          };
          quiet = h.quiet;
          quiet_names = h.quiet_names;
          writable = h.writable;
        },
        ap (λ (g : ℕ → Option EventMessage). g n) same ∙ here,
      )
