-- ===== src/Sse/Channel.antt =====
-- `Channel` of syte/sse_core.py. A channel refers to its sessions by their place in a store of
-- sessions, which all channels share, so an operation takes and returns the store beside the channel
-- (`Live`). The set `sessions` is a list without repetition, in some order. The clock's text and
-- whether an event loop runs are arguments.
pub mod Replay
pub mod Delivery
pub mod Sequence
use sarra.Common.{
  ℕ, suc, ◌+◌, ◌-◌, max, String, Bool, true, false, not, Option, none, some, List, [], ◌∷◌, ◌++◌,
  map, length, drop, filter, any, newest, ltb, ◌==◌, ◌&&◌, ◌||◌, str_eq, if◌then◌else◌,
}
use sarra.Common.Dict
use sarra.Common.Dict.{Dict}
use sarra.Value.{Value, null, bool, int, str, json, text_or_empty}
use sarra.Sse.Frame.{
  Frame, event_name, completed, encode_sse_frame, stream_gap_frame, Data, payload_of,
}
use sarra.Sse.Batcher
use sarra.Sse.Batcher.{Event, Batcher}
use sarra.Sse.Session.{Item, Session, enqueue}

pub record RingItem : Type 0 where
  pub seq : ℕ
  pub frame : Frame
  pub event : Event

pub record Channel : Type 0 where
  pub name : String
  pub history_size : ℕ
  pub sessions : List ℕ
  pub next_seq : ℕ
  pub ring : List RingItem
  pub batcher : Batcher

abbrev pub Store : Type 0
Store = ℕ → Session

pub record Live : Type 0 where
  pub channel : Channel
  pub store : Store

abbrev pub set_session : Store → ℕ → Session → Store
set_session store sid s j = if sid == j then s else store j

-- `set.add` and `set.discard`
unfoldable pub add : ℕ → List ℕ → List ℕ
add sid sids = if any (λ j. sid == j) sids then sids else sids ++ sid ∷ []

unfoldable pub add_name : String → List String → List String
add_name name names = if any (λ j. str_eq name j) names then names else names ++ name ∷ []

-- `effective_since`: -1 is `none`, and every sequence number is above it
unfoldable pub effective_since : ℕ → Bool → Option ℕ
effective_since since_id replay = if replay && since_id == 0 then none else some since_id

abbrev pub is_after : Option ℕ → ℕ → Bool
is_after none seq = true
is_after (some since) seq = ltb since seq

-- The gap frame that comes first when the ring no longer reaches back to `since`.
unfoldable pub gap : Option ℕ → List RingItem → List Frame
gap none ring = []
gap (some since) [] = []
gap (some since) (first ∷ ring) =
    if ltb 0 since && ltb (since + 1) first.seq
    then stream_gap_frame (first.seq - since - 1) (first.seq - 1) "replay_window_expired" ∷ []
    else []

unfoldable pub later : Option ℕ → List RingItem → List RingItem
later since = filter (λ (r : RingItem). is_after since r.seq)

-- `replay_for`: the frames that a client which knows all up to `since_id` is sent
unfoldable pub replay_for : ℕ → Bool → Channel → List Frame
replay_for since_id replay ch =
    let since = effective_since since_id replay in
    gap since ch.ring ++ map (λ (r : RingItem). r.frame) (later since ch.ring)

-- The items that `register` puts into the queue of a new session.
unfoldable pub backlog : Option ℕ → List RingItem → List Item
backlog since ring =
    map (λ (f : Frame). (f, none)) (gap since ring)
    ++ map (λ (r : RingItem). (r.frame, some r.event)) (later since ring)

unfoldable pub enqueue_all : List Item → Session → Session
enqueue_all [] s = s
enqueue_all (item ∷ items) s = enqueue_all items (enqueue item s)

unfoldable pub register : ℕ → ℕ → Bool → Live → Live
register sid since_id replay live =
    let ch = live.channel in
    let s = record (live.store sid) { channels = add_name ch.name (live.store sid).channels } in
    let s' =
      if replay || ltb 0 since_id
      then enqueue_all (backlog (effective_since since_id replay) ch.ring) s
      else s in
    record {
      channel = record ch { sessions = add sid ch.sessions };
      store = set_session live.store sid s';
    }

unfoldable pub deregister : ℕ → Live → Live
deregister sid live = record {
  channel = record (live.channel) {
    sessions = filter (λ j. not (sid == j)) (live.channel).sessions;
  };
  store = set_session live.store sid (record (live.store sid) {
    channels = filter (λ n. not (str_eq (live.channel).name n)) (live.store sid).channels;
  });
}

-- `deque.append` with a maximal length
unfoldable pub ring_append : ℕ → RingItem → List RingItem → List RingItem
ring_append size r ring = newest size (ring ++ r ∷ [])

-- Events of these types are not kept for replay.
unfoldable pub is_transient : String → Bool
is_transient t =
    str_eq t "token_delta"
    || str_eq t "thought_delta"
    || str_eq t "thinking_delta"
    || str_eq t "status"

-- `for session in list(self.sessions): if filter_fn is None or filter_fn(session): …`
unfoldable pub distribute : (ℕ → Bool) → Item → List ℕ → Store → Store
distribute wanted item [] store = store
distribute wanted item (sid ∷ sids) store =
    distribute wanted item sids
      (if wanted sid then set_session store sid (enqueue item (store sid)) else store)

-- The number that `_broadcast_event` gives to an event, and the counter after it.
unfoldable pub next_number : Option ℕ → ℕ → ℕ × ℕ
next_number none next_seq = (next_seq + 1, next_seq + 1)
next_number (some id) next_seq = (id, max next_seq id)

-- The payload as `_broadcast_event` completes it.
unfoldable pub stamped : String → ℕ → Event → Event
stamped now seq payload = Dict.put (Dict.set_default payload "timestamp" (str now)) "id" (int seq)

unfoldable pub ring_item : String → ℕ → Event → RingItem
ring_item now seq payload = record {
  seq = seq;
  frame = encode_sse_frame (stamped now seq payload) (some seq);
  event = completed (stamped now seq payload);
}

unfoldable pub broadcast_event : String → Option ℕ → (ℕ → Bool) → Event → Live → Live
broadcast_event now forced_id wanted payload live =
    let ch = live.channel in
    let (seq, next_seq) = next_number forced_id ch.next_seq in
    let r = ring_item now seq payload in
    record {
      channel = record ch {
        next_seq = next_seq;
        ring =
            if is_transient (event_name payload)
            then ch.ring
            else ring_append ch.history_size r ch.ring;
      };
      store = distribute wanted (r.frame, some r.event) ch.sessions live.store;
    }

-- The calls of `_broadcast_event` that the batcher makes.
unfoldable pub emit : String → List Event → Live → Live
emit now [] live = live
emit now (event ∷ out) live = emit now out (broadcast_event now none (λ _. true) event live)

unfoldable pub with_batcher : Batcher × List Event → String → Live → Live
with_batcher (b, out) now live =
    emit now out (record live { channel = record (live.channel) { batcher = b } })

unfoldable pub push_hot_delta : Bool → String → Event → Live → Live
push_hot_delta loop_running now event live =
    with_batcher (Batcher.push loop_running event (live.channel).batcher) now live

unfoldable pub timer_fired : String → String → Live → Live
timer_fired key now live = with_batcher (Batcher.on_timer key (live.channel).batcher) now live

abbrev pub is_text : Option Value → Bool
is_text none = false
is_text (some v) = elim v [ str s ↦ true | _ ↦ false ]

-- Does `broadcast` hand the payload to the batcher?
unfoldable pub is_hot : Event → Bool
is_hot payload =
    let name = text_or_empty payload "event" in
    (str_eq name "token_delta" || str_eq name "thought_delta" || str_eq name "thinking_delta")
    && is_text (Dict.get payload "delta")

unfoldable pub broadcast : Bool → String → Data → String → Option ℕ → (ℕ → Bool) → Live → Live
broadcast loop_running now data_ name event_id wanted live =
    let payload = payload_of data_ name in
    if is_hot payload
    then push_hot_delta loop_running now payload live
    else broadcast_event now event_id wanted payload
        (with_batcher (Batcher.flush_all (live.channel).batcher) now live)

unfoldable pub get_history : ℕ → ℕ → Channel → List Event
get_history since_id limit ch =
    let events = map (λ (r : RingItem). r.event) (later (some since_id) ch.ring) in
    if ltb 0 limit then newest limit events else events

unfoldable pub clear : Channel → Channel
clear ch = record ch { batcher = Batcher.clear ch.batcher; ring = [] }
