-- ===== src/Sse/Session.antt =====
-- `Session` of syte/sse_core.py: a client connection with a bounded queue. `session_id`,
-- `created_at`, `state` and the disconnect callbacks play no part in what a client receives and are
-- left out; `channels` names the channels that hold the session. One round of the generator
-- `iterate` is `round`; what its awaits return is an argument. `close` is in Sse/Hub.antt.
pub mod Queue
pub mod Accounting
use sarra.Common.{
  ℕ, ◌+◌, max, String, Bool, true, false, not, Option, none, some, List, [], ◌∷◌, ◌++◌, length,
  drop, ltb, if◌then◌else◌,
}
use sarra.Common.Dict
use sarra.Common.Dict.{Dict}
use sarra.Value.{Value, null, bool, int, str, json}
use sarra.Sse.Frame.{
  Frame, retry, heartbeat, event, end_of_stream, encode_sse_frame, completed, stream_gap_frame,
  Data, payload_of,
}

abbrev pub subscriber_queue_size : ℕ
subscriber_queue_size = 256

abbrev pub Item : Type 0
Item = Frame × Option (Dict Value)

pub record Session : Type 0 where
  pub last_event_id : ℕ
  pub is_connected : Bool
  pub queue : List Item
  pub dropped : ℕ
  pub channels : List String

abbrev pub new_session : ℕ → Session
new_session last_event_id = record {
  last_event_id = last_event_id;
  is_connected = true;
  queue = [];
  dropped = 0;
  channels = [];
}

-- `_enqueue`: a full queue loses its oldest item, and the loss is counted.
unfoldable pub enqueue : Item → Session → Session
enqueue item s =
    if ltb (length s.queue) subscriber_queue_size
    then record s { queue = s.queue ++ item ∷ [] }
    else record s { queue = drop 1 s.queue ++ item ∷ []; dropped = s.dropped + 1 }

unfoldable pub push : Data → String → Option ℕ → Session → Session
push data_ name none s =
    let payload = payload_of data_ name in
    if s.is_connected
    then enqueue (encode_sse_frame payload none, some (completed payload)) s
    else s
push data_ name (some id) s =
    let payload = Dict.put (payload_of data_ name) "id" (int id) in
    if s.is_connected
    then enqueue (encode_sse_frame payload (some id), some (completed payload))
        (record s { last_event_id = max s.last_event_id id })
    else s

unfoldable pub ping : Session → Session
ping s = if s.is_connected then enqueue (heartbeat, none) s else s

-- What ends the wait of one round: the client has gone, the heartbeat interval has passed, or the
-- queue has an item.
pub data Wake : Type 0 where
  client_gone timed_out item_ready : Wake

pub record Round : Type 0 where
  pub session : Session
  pub yielded : List Frame
  pub goes_on : Bool

-- `isinstance(v, int)`; a `bool` is an `int`
unfoldable pub int_of : Value → Option ℕ
int_of (int n) = some n
int_of (bool true) = some 1
int_of (bool false) = some 0
int_of _ = none

unfoldable pub event_id : Option (Dict Value) → Option ℕ
event_id none = none
event_id (some e) = elim (Dict.get e "id") [ none ↦ none | some v ↦ int_of v ]

unfoldable pub seen : Option ℕ → ℕ → ℕ
seen none last = last
seen (some id) last = max last id

-- A frame taken from the queue goes out behind a gap frame, if frames were dropped since the last.
unfoldable pub deliver : Item → Session → Round
deliver (end_of_stream, e) s = record { session = s; yielded = []; goes_on = true }
deliver (frame, e) s = record {
  session = record s { dropped = 0; last_event_id = seen (event_id e) s.last_event_id };
  yielded =
      if ltb 0 s.dropped
      then stream_gap_frame s.dropped s.last_event_id "backpressure" ∷ frame ∷ []
      else frame ∷ [];
  goes_on = true;
}

unfoldable pub take_item : List Item → Session → Round
take_item [] s = record { session = s; yielded = []; goes_on = true }
take_item (item ∷ rest) s = deliver item (record s { queue = rest })

unfoldable pub round : Wake → Session → Round
round wake s = elim s.is_connected [
  | false ↦ record { session = s; yielded = []; goes_on = false }
  | true ↦ elim wake [
    | client_gone ↦ record { session = s; yielded = []; goes_on = false }
    | timed_out ↦ record { session = s; yielded = heartbeat ∷ []; goes_on = true }
    | item_ready ↦ take_item s.queue s
  ]
]
