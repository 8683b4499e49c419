-- ===== src/Sse/Tests.antt =====
-- The streaming core on concrete events.
use Prim.Native.String
use sarra.Common.{
  ℕ, ◌+◌, ◌-◌, ◌≤◌, String, ◌≡◌, ◌≢◌, refl, true, false, none, some, List, [], ◌∷◌, ◌++◌, map,
  arith, eq_iff, length, newest, ◌&&◌, ◌==◌, if◌then◌else◌,
}
use sarra.Common.Dict
use sarra.Common.Strings
use sarra.Value.{str, to_text, truthy}
use sarra.Sse.Frame.{heartbeat, dict, stream_gap_frame, event_name, get_or_else}
use sarra.Sse.Batcher.{Event, Batcher, push}
use sarra.Sse.Batcher.Laws.{pending, sent, IsKeyed}
use sarra.Sse.Batcher.Bounds.{IsBounded, push-IsBounded}
use sarra.Sse.Batcher.Runs.{Op, push_event, timer_fired, run, brought, run-conserves}
use sarra.Sse.Session.{Item, new_session, subscriber_queue_size, enqueue, item_ready, timed_out}
use sarra.Sse.Session.Queue.{enqueue_all, enqueue_all-newest}
use sarra.Sse.Session.Accounting.{give, wake_up, Tally, acts, IsBalanced, acts-IsBalanced}
use sarra.Sse.Channel.{
  RingItem, Live, ring_item, emit, broadcast, replay_for, broadcast_event, next_number,
  is_transient,
}
use sarra.Sse.Channel.Sequence.{IsOrdered, broadcast-IsOrdered}
use sarra.Sse.Channel.Replay.{log, replay_for_complete, replay_for_truncated}
use sarra.Sse.Channel.Delivery.{member, broadcast_event-at}
use sarra.Sse.Hub.{
  Hub, new_channel, close, broadcast_to_project, broadcast_to_subtab, subtab_name, aggregate_name,
}
use sarra.Sse.Hub.Registry.{registered, IsLinked, close_unregisters}
use sarra.Sse.Hub.Isolation.{broadcast_to_subtab-other}

abbrev token : String → Event
token text = ("event", str "token_delta") ∷ ("delta", str text) ∷ []

abbrev empty_batcher : Batcher
empty_batcher = record { max_chars = 500; max_count = 32; buf = [] }

empty-IsKeyed : IsKeyed empty_batcher
unfolding Dict.get
empty-IsKeyed = record { at = λ k e h. cc }

empty-IsBounded : IsBounded empty_batcher
unfolding Dict.get
empty-IsBounded = record { at = λ k e h. cc }

abbrev ops : List Op
ops = push_event true (token "Hel") ∷ push_event true (token "lo") ∷ timer_fired "token_delta" ∷ []

run-conserves_example :
    String.◌++◌
      (sent "token_delta" (run ops empty_batcher).1)
      (pending "token_delta" (run ops empty_batcher).0)
    ≡ String.◌++◌ (pending "token_delta" empty_batcher) (brought "token_delta" ops)
run-conserves_example = run-conserves ops empty_batcher empty-IsKeyed "token_delta"

push-IsBounded_example : IsBounded (push true (token "Hel") empty_batcher).0
push-IsBounded_example = push-IsBounded empty_batcher empty-IsBounded true (token "Hel")

abbrev one_waits : Batcher
one_waits = (push true (token "Hel") empty_batcher).0

abbrev two_frames : List Item
two_frames = (heartbeat, none) ∷ (heartbeat, none) ∷ []

enqueue_all-newest_example :
    ((enqueue_all two_frames (new_session 0)).queue
      ≡ newest subscriber_queue_size ([] ++ two_frames))
    × ((enqueue_all two_frames (new_session 0)).dropped ≡ 0 + (2 - subscriber_queue_size))
enqueue_all-newest_example = enqueue_all-newest two_frames (new_session 0) (omega arith)

abbrev nothing_yet : Tally
nothing_yet = record { session = new_session 0; given = 0; delivered = 0; reported = 0 }

acts-IsBalanced_example :
    IsBalanced
      (acts (give (heartbeat, none) ∷ wake_up item_ready ∷ wake_up timed_out ∷ []) nothing_yet)
    × (length
          (acts
            (give (heartbeat, none) ∷ wake_up item_ready ∷ wake_up timed_out ∷ [])
            nothing_yet).session.queue
        ≤ subscriber_queue_size)
acts-IsBalanced_example =
    acts-IsBalanced (give (heartbeat, none) ∷ wake_up item_ready ∷ wake_up timed_out ∷ [])
      nothing_yet (omega arith) (omega arith)

-- A channel with two items of history that has given out the number 3.
abbrev live : Live
live = record {
  channel = record {
    name = "c";
    history_size = 2;
    sessions = 7 ∷ [];
    next_seq = 3;
    ring = [];
    batcher = empty_batcher;
  };
  store = λ _. new_session 0;
}

live-IsOrdered : IsOrdered live.channel
live-IsOrdered = record { increasing = tt; issued = tt; small = omega arith }

abbrev note : Event
note = ("event", str "note") ∷ []

note_kept : is_transient (event_name note) ≡ false
unfolding is_transient event_name get_or_else Dict.get truthy to_text
note_kept = refl

replay_for_complete_example :
    replay_for 3 false (emit "now" (note ∷ note ∷ []) live).channel
    ≡ map (λ (r : RingItem). r.frame) (log "now" 3 (note ∷ note ∷ []))
replay_for_complete_example =
    replay_for_complete "now" (note ∷ note ∷ []) live live-IsOrdered (note_kept, (note_kept, tt))
      (omega arith) (omega arith)

replay_for_truncated_example :
    replay_for 3 false (emit "now" (note ∷ note ∷ note ∷ []) live).channel
    ≡ stream_gap_frame 1 4 "replay_window_expired"
      ∷ map (λ (r : RingItem). r.frame) (log "now" 4 (note ∷ note ∷ []))
replay_for_truncated_example =
    replay_for_truncated "now" (note ∷ note ∷ note ∷ []) live live-IsOrdered
      (note_kept, (note_kept, (note_kept, tt))) (omega arith) (omega arith) (omega arith)

broadcast-IsOrdered_example :
    IsOrdered (broadcast true "now" (dict note) "note" none (λ _. true) live).channel
broadcast-IsOrdered_example =
    broadcast-IsOrdered true "now" (dict note) "note" (λ _. true) live live-IsOrdered

broadcast_event-at_example : (broadcast_event "now" none (λ _. true) note live).store 7 ≡ (
    let r = ring_item "now" (next_number none 3).0 note in
    if member 7 (7 ∷ []) && true
    then enqueue (r.frame, some r.event) (new_session 0)
    else new_session 0)
broadcast_event-at_example = broadcast_event-at "now" none (λ _. true) note live 7 (refl, tt)

-- A hub with one channel, which the session 7 has joined.
abbrev hub : Hub
hub = record {
  channels = ("c", record (new_channel "c") { sessions = 7 ∷ [] }) ∷ [];
  store = λ sid. if sid == 7 then record (new_session 0) { channels = "c" ∷ [] } else new_session 0;
}

hub-IsLinked : IsLinked hub
unfolding Dict.get new_channel
hub-IsLinked = record {
  named = λ name ch e. ground (arith, eq_iff "c" name);
  mutual_ = λ sid name. ground (arith, eq_iff "c" name, eq_iff name "c");
}

close_unregisters_example :
    (((close 7 hub).store 7).is_connected ≡ false)
    × ((n : String) → registered 7 n (close 7 hub) ≡ false)
    × ((j : ℕ) (n : String) → 7 ≢ j → registered j n (close 7 hub) ≡ registered j n hub)
    × IsLinked (close 7 hub)
close_unregisters_example = close_unregisters 7 hub hub-IsLinked refl

subtab_is_not_c : subtab_name "p" " Logs " ≢ "c"
unfolding subtab_name Strings.strip Strings.lower
subtab_is_not_c = ground (arith, eq_iff "project:p:subtab:logs" "c")

broadcast_to_subtab-other_example :
    (Dict.get (broadcast_to_subtab true "now" "p" " Logs " (dict note) "note" hub).channels "c"
      ≡ Dict.get hub.channels "c")
    × (aggregate_name "p" ≢ "c"
        → Dict.get (broadcast_to_project true "now" "p" (dict note) "note" hub).channels "c"
          ≡ Dict.get hub.channels "c")
broadcast_to_subtab-other_example =
    broadcast_to_subtab-other true "now" "p" " Logs " (dict note) "note" hub "c" subtab_is_not_c
      (λ _. ground (arith, eq_iff "project:p:all" "c"))
