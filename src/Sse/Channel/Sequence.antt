-- ===== src/Sse/Channel/Sequence.antt =====
-- The numbers of the events that a channel keeps for replay.
use sarra.Common.{
  ℕ, zero, suc, ◌+◌, ◌-◌, ◌≤◌, ◌<◌, String, ◌≡◌, refl, Bool, true, Option, none, some, List, [],
  ◌∷◌, ◌++◌, arith, length, drop, newest, length-newest, All, All-append, Bool-cases, inl, inr,
  if◌then◌else◌,
}
use sarra.Sse.Frame.{Data, event_name, payload_of}
use sarra.Sse.Batcher.{Event, Batcher}
use sarra.Sse.Channel.{
  RingItem, Channel, Live, ring_append, is_transient, next_number, ring_item, broadcast_event, emit,
  with_batcher, push_hot_delta, is_hot, broadcast,
}

abbrev pub IsIncreasing : List RingItem → Type 0
IsIncreasing [] = Unit
IsIncreasing (r ∷ ring) = All (λ (q : RingItem). r.seq < q.seq) ring × IsIncreasing ring

-- The numbers grow along the ring, none is above the counter, and the ring is within its size.
pub record IsOrdered (ch : Channel) : Type 0 where
  pub increasing : IsIncreasing ch.ring
  pub issued : All (λ (r : RingItem). r.seq ≤ ch.next_seq) ch.ring
  pub small : length ch.ring ≤ ch.history_size

pub All-drop {ℓ} :
    {A : Type ℓ} (P : A → Type 0) (k : ℕ) (xs : List A) → All P xs → All P (drop k xs)
All-drop P zero xs a = a
All-drop P (suc k) [] a = tt
All-drop P (suc k) (x ∷ xs) (p, a) = All-drop P k xs a

IsIncreasing-drop : (k : ℕ) (ring : List RingItem) → IsIncreasing ring → IsIncreasing (drop k ring)
IsIncreasing-drop zero ring h = h
IsIncreasing-drop (suc k) [] h = tt
IsIncreasing-drop (suc k) (r ∷ ring) (a, h) = IsIncreasing-drop k ring h

IsIncreasing-concat :
    (ring : List RingItem) (r : RingItem)
    → IsIncreasing ring
    → All (λ (q : RingItem). q.seq < r.seq) ring
    → IsIncreasing (ring ++ r ∷ [])
IsIncreasing-concat [] r h a = (tt, tt)
IsIncreasing-concat (q ∷ ring) r (b, h) (p, a) = (
  All-append (λ (x : RingItem). q.seq < x.seq) ring (r ∷ []) b (p, tt),
  IsIncreasing-concat ring r h a,
)

All-weaken :
    {P Q : RingItem → Type 0} (ring : List RingItem)
    → ((r : RingItem) → P r → Q r)
    → All P ring
    → All Q ring
All-weaken [] f a = tt
All-weaken (r ∷ ring) f (p, a) = (f r p, All-weaken ring f a)

module _ (now : String) (wanted : ℕ → Bool) (payload : Event) (live : Live) where
  -- An event with no forced number takes the next one.
  pub broadcast_event-next_seq :
      (broadcast_event now none wanted payload live).channel.next_seq ≡ live.channel.next_seq + 1
  unfolding broadcast_event next_number
  broadcast_event-next_seq = refl

  pub broadcast_event-history_size :
      (broadcast_event now none wanted payload live).channel.history_size
      ≡ live.channel.history_size
  unfolding broadcast_event
  broadcast_event-history_size = refl

  pub broadcast_event-ring : (broadcast_event now none wanted payload live).channel.ring ≡ (
      if is_transient (event_name payload)
      then live.channel.ring
      else newest live.channel.history_size
          (live.channel.ring ++ ring_item now (live.channel.next_seq + 1) payload ∷ []))
  unfolding broadcast_event next_number ring_append
  broadcast_event-ring = refl

-- A forced number is fresh if it is above the counter; the next number always is.
abbrev pub IsFresh : Option ℕ → ℕ → Type 0
IsFresh none next_seq = Unit
IsFresh (some id) next_seq = next_seq < id

next_number_fresh :
    (id : Option ℕ) (n : ℕ)
    → IsFresh id n
    → (n < (next_number id n).0) × ((next_number id n).1 ≡ (next_number id n).0)
unfolding next_number
next_number_fresh none n h = (omega arith, refl)
next_number_fresh (some id) n h = (h, omega arith)

module _ (ch : Channel) (h : IsOrdered ch) (seq : ℕ) (above : ch.next_seq < seq) where
  skip-IsOrdered : IsOrdered (record ch { next_seq = seq })
  skip-IsOrdered = record {
    increasing = h.increasing;
    issued = All-weaken ch.ring (λ r p. omega arith) h.issued;
    small = h.small;
  }

  append-IsOrdered :
      (r : RingItem)
      → r.seq ≡ seq
      → IsOrdered (record ch { next_seq = seq; ring = ring_append ch.history_size r ch.ring })
  unfolding ring_append
  append-IsOrdered r e = record {
    increasing =
        IsIncreasing-drop (length (ch.ring ++ r ∷ []) - ch.history_size) (ch.ring ++ r ∷ []) (
          IsIncreasing-concat ch.ring r h.increasing
            (All-weaken ch.ring (λ q p. omega arith) h.issued));
    issued =
        All-drop (λ (q : RingItem). q.seq ≤ seq) (length (ch.ring ++ r ∷ []) - ch.history_size)
          (ch.ring ++ r ∷ [])
          (All-append (λ (q : RingItem). q.seq ≤ seq) ch.ring (r ∷ [])
            (All-weaken ch.ring (λ q p. omega arith) h.issued) (omega arith, tt));
    small = omega (arith, length-newest ch.history_size (ch.ring ++ r ∷ []));
  }

-- An event with a fresh number, forced or not, keeps the ring ordered.
pub broadcast_event-IsOrdered :
    (now : String) (id : Option ℕ) (wanted : ℕ → Bool) (payload : Event) (live : Live)
    → IsFresh id live.channel.next_seq
    → IsOrdered live.channel
    → IsOrdered (broadcast_event now id wanted payload live).channel
unfolding broadcast_event ring_item
broadcast_event-IsOrdered now id wanted payload live fresh h =
    let n = next_number id live.channel.next_seq in
    let (above, same) = next_number_fresh id live.channel.next_seq fresh in
    elim (Bool-cases (is_transient (event_name payload))) [
      | inl skip ↦ rw (skip, same) (skip-IsOrdered live.channel h n.0 above)
      | inr keep ↦
          rw (keep, same)
            (append-IsOrdered live.channel h n.0 above (ring_item now n.0 payload) refl)
    ]

emit-IsOrdered :
    (now : String) (out : List Event) (live : Live)
    → IsOrdered live.channel
    → IsOrdered (emit now out live).channel
unfolding emit
emit-IsOrdered now [] live h = h
emit-IsOrdered now (event ∷ out) live h =
    emit-IsOrdered now out (broadcast_event now none (λ _. true) event live)
      (broadcast_event-IsOrdered now none (λ _. true) event live tt h)

with_batcher-IsOrdered :
    (b : Batcher) (out : List Event) (now : String) (live : Live)
    → IsOrdered live.channel
    → IsOrdered (with_batcher (b, out) now live).channel
unfolding with_batcher
with_batcher-IsOrdered b out now live h =
    emit-IsOrdered now out (record live { channel = record (live.channel) { batcher = b } })
      (record { increasing = h.increasing; issued = h.issued; small = h.small })

-- `broadcast`, with no forced number: hot or not, with whatever the batcher has to send first, the
-- ring stays ordered, its numbers stay issued ones, and it stays within its size.
pub broadcast-IsOrdered :
    (loop_running : Bool) (now : String) (data_ : Data) (name : String) (wanted : ℕ → Bool)
    (live : Live)
    → IsOrdered live.channel
    → IsOrdered (broadcast loop_running now data_ name none wanted live).channel
unfolding broadcast push_hot_delta
broadcast-IsOrdered loop_running now data_ name wanted live h =
    elim (Bool-cases (is_hot (payload_of data_ name))) [
      | inl hot ↦ rw hot (with_batcher-IsOrdered _ _ now live h)
      | inr cold ↦ rw cold (
          broadcast_event-IsOrdered now none wanted (payload_of data_ name) _ tt
            (with_batcher-IsOrdered _ _ now live h))
    ]
