-- ===== src/Sse/Channel/Replay.antt =====
-- A client that comes back with the last number it has seen.
use mathlib.Core.List.{append_assoc, append-nil}
use sarra.Common.{
  ℕ, zero, suc, ◌+◌, ◌-◌, ◌≤◌, ◌<◌, String, ◌≡◌, refl, ap, sym, ◌∙◌, true, false, Option, ◌&&◌,
  none, some, List, [], ◌∷◌, ◌++◌, map, arith, length, length-append, length-newest, length-drop,
  drop, filter-append, newest, newest-newest, newest_all, drop-append, newest-append, ltb, All,
}
use sarra.Sse.Frame.{event_name, stream_gap_frame}
use sarra.Sse.Batcher.{Event}
use sarra.Sse.Channel.{
  RingItem, Channel, Live, is_after, gap, later, effective_since, replay_for, is_transient,
  ring_item, broadcast_event, emit,
}
use sarra.Sse.Channel.Sequence.{
  broadcast_event-next_seq, broadcast_event-history_size, broadcast_event-ring, IsOrdered, All-drop,
}

-- Events that are kept for replay, and the ring items that they become after number `n`.
abbrev pub Kept : List Event → Type 0
Kept = All (λ (e : Event). is_transient (event_name e) ≡ false)

abbrev pub log : String → ℕ → List Event → List RingItem
log now n [] = []
log now n (e ∷ events) = ring_item now (n + 1) e ∷ log now (n + 1) events

length-log :
    (now : String) (n : ℕ) (events : List Event) → length (log now n events) ≡ length events
length-log now n [] = refl
length-log now n (e ∷ events) = ap suc (length-log now (n + 1) events)

drop-log :
    (now : String) (n k : ℕ) (events : List Event)
    → drop k (log now n events) ≡ log now (n + k) (drop k events)
drop-log now n zero events = ap (λ m. log now m events) (omega arith)
drop-log now n (suc k) [] = refl
drop-log now n (suc k) (e ∷ events) =
    drop-log now (n + 1) k events ∙ ap (λ m. log now m (drop k events)) (omega arith)

-- The ring after some kept events is the newest part of the old ring and the log of the events.
pub emit-ring :
    (now : String) (events : List Event) (live : Live)
    → Kept events
    → length live.channel.ring ≤ live.channel.history_size
    → (emit now events live).channel.ring
      ≡ newest live.channel.history_size (live.channel.ring ++ log now live.channel.next_seq events)
unfolding emit
emit-ring now [] live k small =
    rw append-nil (sym (newest_all live.channel.history_size live.channel.ring small))
emit-ring now (e ∷ events) live (kept, k) small =
    let live' = broadcast_event now none (λ _. true) e live in
    let size = live.channel.history_size in
    let r = ring_item now (live.channel.next_seq + 1) e in
    let ring' : live'.channel.ring ≡ newest size (live.channel.ring ++ r ∷ []) =
      rw (broadcast_event-ring now (λ _. true) e live, kept) refl in
    let small' : length live'.channel.ring ≤ live'.channel.history_size =
      rw (ring', broadcast_event-history_size now (λ _. true) e live)
        (omega (arith, length-newest size (live.channel.ring ++ r ∷ []))) in
    emit-ring now events live' k small'
    ∙ rw
        (
          broadcast_event-history_size now (λ _. true) e live,
          broadcast_event-next_seq now (λ _. true) e live,
          ring',
        )
        (newest-newest size (live.channel.ring ++ r ∷ [])
            (log now (live.channel.next_seq + 1) events)
          ∙ ap (newest size) (
              append_assoc live.channel.ring (r ∷ []) (log now (live.channel.next_seq + 1) events)))

-- All that is logged after `n` is above it, and nothing of an old ring is.
later-log :
    (now : String) (n s : ℕ) (events : List Event)
    → s ≤ n
    → later (some s) (log now n events) ≡ log now n events
unfolding later ring_item
later-log now n s [] h = refl
later-log now n s (e ∷ events) h = ground (arith, later-log now (n + 1) s events (omega arith))

later-old :
    (s : ℕ) (ring : List RingItem)
    → All (λ (r : RingItem). r.seq ≤ s) ring
    → later (some s) ring ≡ []
unfolding later
later-old s [] a = refl
later-old s (r ∷ ring) (p, a) = ground (arith, later-old s ring a)

later-append :
    (since : Option ℕ) (xs ys : List RingItem)
    → later since (xs ++ ys) ≡ later since xs ++ later since ys
unfolding later
later-append since xs ys = filter-append (λ (r : RingItem). is_after since r.seq) xs ys

gap-old :
    (now : String) (s : ℕ) (ring : List RingItem) (events : List Event)
    → All (λ (r : RingItem). r.seq ≤ s) ring
    → gap (some s) (ring ++ log now s events) ≡ []
unfolding gap ring_item
gap-old now s [] [] a = refl
gap-old now s [] (e ∷ events) a = ground arith
gap-old now s (r ∷ ring) events (p, a) = ground arith

gap-new :
    (now : String) (s k : ℕ) (events : List Event)
    → 0 < s
    → 0 < k
    → 0 < length events
    → gap (some s) (log now (s + k) events)
      ≡ stream_gap_frame k (s + k) "replay_window_expired" ∷ []
unfolding gap ring_item
gap-new now s k [] ps pk h = absurd (omega arith)
gap-new now s k (e ∷ events) ps pk h =
    let passed : (ltb 0 s && ltb (s + 1) (s + k + 1)) ≡ true = ground arith in
    let missed : s + k + 1 - s - 1 ≡ k = omega arith in
    let last : s + k + 1 - 1 ≡ s + k = omega arith in rw (passed, missed, last) refl

module _ (now : String) (events : List Event) (live : Live) (ordered : IsOrdered live.channel)
    (kept : Kept events) (known : 0 < live.channel.next_seq) where
  abbrev since : ℕ
  since = live.channel.next_seq

  replay_for-since :
      (ch : Channel)
      → replay_for since false ch
        ≡ gap (some since) ch.ring ++ map (λ (r : RingItem). r.frame) (later (some since) ch.ring)
  unfolding replay_for effective_since
  replay_for-since ch = refl

  -- A client that has seen every number up to now comes back after some kept events, no more than
  -- the ring holds: it is sent exactly their frames, in order, with no gap frame.
  pub replay_for_complete :
      length events ≤ live.channel.history_size
      → replay_for since false (emit now events live).channel
        ≡ map (λ (r : RingItem). r.frame) (log now since events)
  replay_for_complete few =
      let size = live.channel.history_size in
      let k = length (live.channel.ring ++ log now since events) - size in
      let rest = drop k live.channel.ring in
      let ring : (emit now events live).channel.ring ≡ rest ++ log now since events =
        emit-ring now events live kept ordered.small
        ∙ drop-append k live.channel.ring (log now since events) (
            omega (
              arith,
              length-append {0} live.channel.ring (log now since events),
              length-log now since events,
            )) in
      let old = All-drop (λ (r : RingItem). r.seq ≤ since) k live.channel.ring ordered.issued in
      replay_for-since (emit now events live).channel
      ∙ rw
          (
            ring,
            gap-old now since rest events old,
            later-append (some since) rest (log now since events),
            later-old since rest old,
            later-log now since since events (omega arith),
          )
          refl

  -- A client that has seen every number up to now, which is not 0, comes back after some kept events,
  -- more than the ring holds, where the ring holds at least one: it is sent a gap frame that counts
  -- the events that are lost and names the last of them, and then the frames of the newest events, as
  -- many as the ring holds. Kept events are those that are no status and no delta but are numbered
  -- and kept for replay; the channel was in order before, and the clock stood still between them.
  pub replay_for_truncated :
      0 < live.channel.history_size
      → live.channel.history_size < length events
      → replay_for since false (emit now events live).channel
        ≡ stream_gap_frame
            (length events - live.channel.history_size)
            (since + (length events - live.channel.history_size))
            "replay_window_expired"
          ∷ map
              (λ (r : RingItem). r.frame)
              (log now
                (since + (length events - live.channel.history_size))
                (newest live.channel.history_size events))
  replay_for_truncated pos many =
      let size = live.channel.history_size in
      let lost = length events - size in
      let ring : (emit now events live).channel.ring ≡ log now (since + lost) (drop lost events) =
        emit-ring now events live kept ordered.small
        ∙ newest-append size live.channel.ring (log now since events)
            (omega (arith, length-log now since events))
        ∙ drop-log now since (length (log now since events) - size) events
        ∙ ap (λ n. log now (since + (n - size)) (drop (n - size) events))
            (length-log now since events) in
      replay_for-since (emit now events live).channel
      ∙ rw
          (
            ring,
            gap-new now since lost (drop lost events) known (omega arith)
                (omega (arith, length-drop {0} lost events)),
            later-log now (since + lost) since (drop lost events) (omega arith),
          )
          refl
