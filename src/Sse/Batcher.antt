-- ===== src/Sse/Batcher.antt =====
-- `DeltaBatcher` of syte/sse_core.py. The callback `_emit` is not called here: an operation returns
-- the merged events in the order of the calls. Whether an event loop runs is an argument of `push`,
-- and a timer is a flag: `call_later` is what the environment does between two operations.
pub mod Laws
pub mod Bounds
pub mod Runs
use Prim.Native.String
use sarra.Common.{
  ℕ, suc, ◌+◌, String, Bool, true, false, Option, none, some, List, [], ◌∷◌, ◌++◌, map, ltb, leb,
  ◌||◌, if◌then◌else◌,
}
use sarra.Common.Dict
use sarra.Common.Dict.{Dict}
use sarra.Value.{Value, int, str, text_at, text_or_empty}

abbrev pub Event : Type 0
Event = Dict Value

-- One entry of `_buf`.
pub record Entry : Type 0 where
  pub template : Event
  pub parts : List String
  pub chars : ℕ
  pub count : ℕ
  pub timer : Bool

pub record Batcher : Type 0 where
  pub max_chars : ℕ
  pub max_count : ℕ
  pub buf : Dict Entry

-- "".join(parts)
unfoldable pub join : List String → String
join [] = ""
join (s ∷ parts) = String.◌++◌ s (join parts)

unfoldable pub event_key : Event → String
event_key event = text_at event "event"

unfoldable pub delta_of : Event → String
delta_of event = text_or_empty event "delta"

-- The event that `flush` hands to `_emit`.
unfoldable pub merged : Entry → Event
merged e =
    let whole = Dict.put e.template "delta" (str (join e.parts)) in
    if ltb 1 e.count then Dict.put whole "batch_count" (int e.count) else whole

unfoldable pub flush : String → Batcher → Batcher × List Event
flush key b = elim (Dict.get b.buf key) [
  | none ↦ (b, [])
  | some e ↦ (record b { buf = Dict.remove b.buf key }, merged e ∷ [])
]

-- The entry of the event's key after the event has joined it.
unfoldable pub joined : Option Entry → Event → Entry
joined none event = record {
  template = Dict.remove event "delta";
  parts = delta_of event ∷ [];
  chars = String.count (delta_of event);
  count = 1;
  timer = false;
}
joined (some e) event = record e {
  parts = e.parts ++ delta_of event ∷ [];
  chars = e.chars + String.count (delta_of event);
  count = e.count + 1;
}

unfoldable pub store : String → Entry → Batcher → Batcher
store key e b = record b { buf = Dict.put b.buf key e }

unfoldable pub push : Bool → Event → Batcher → Batcher × List Event
push loop_running event b =
    let key = event_key event in
    let e = joined (Dict.get b.buf key) event in
    if leb b.max_chars e.chars || leb b.max_count e.count
    then flush key (store key e b)
    else if e.timer
    then (store key e b, [])
    else if loop_running
    then (store key (record e { timer = true }) b, [])
    else flush key (store key e b)

unfoldable pub on_timer : String → Batcher → Batcher × List Event
on_timer key b = elim (Dict.get b.buf key) [
  | none ↦ (b, [])
  | some e ↦ flush key (store key (record e { timer = false }) b)
]

unfoldable pub flush_keys : List String → Batcher → Batcher × List Event
flush_keys [] b = (b, [])
flush_keys (key ∷ keys) b =
    let (b', out) = flush key b in let (b'', rest) = flush_keys keys b' in (b'', out ++ rest)

unfoldable pub flush_all : Batcher → Batcher × List Event
flush_all b = flush_keys (map (λ (p : String × Entry). p.0) b.buf) b

unfoldable pub clear : Batcher → Batcher
clear b = record b { buf = [] }
