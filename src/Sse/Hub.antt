-- ===== src/Sse/Hub.antt =====
-- `ChannelHub` of syte/sse_core.py and `Session.close`, over the hub's channels and all sessions.
-- A channel is found by its name, so two `Channel` objects of one name, one of them outside the hub,
-- are not modelled. The disconnect callbacks of `close` are left out.
pub mod Registry
pub mod Isolation
use Prim.Native.String
use sarra.Common.{
  ℕ, String, Bool, true, false, not, Option, none, some, List, [], ◌∷◌, ◌++◌, map, length, ltb,
  str_eq, if◌then◌else◌,
}
use sarra.Common.Dict
use sarra.Common.Dict.{Dict}
use sarra.Common.Strings.{strip, lower}
use sarra.Value.{Value, str}
use sarra.Sse.Frame.{end_of_stream, Data, dict, other}
use sarra.Sse.Session.{Session, subscriber_queue_size}
use sarra.Sse.Channel
use sarra.Sse.Channel.{Channel, Store, Live, set_session}

pub record Hub : Type 0 where
  pub channels : Dict Channel
  pub store : Store

-- `Channel(name)` with its default arguments
unfoldable pub new_channel : String → Channel
new_channel name = record {
  name = name;
  history_size = 300;
  sessions = [];
  next_seq = 0;
  ring = [];
  batcher = record { max_chars = 500; max_count = 32; buf = [] };
}

unfoldable pub get_channel : String → Bool → Hub → Hub × Option Channel
get_channel name create hub = elim (Dict.get hub.channels name) [
  | some ch ↦ (hub, some ch)
  | none ↦
      if create
      then (
        record hub { channels = Dict.put hub.channels name (new_channel name) },
        some (new_channel name),
      )
      else (hub, none)
]

-- The hub after an operation on one of its channels.
unfoldable pub put_live : String → Live → Hub → Hub
put_live name live hub = record {
  channels = Dict.put hub.channels name live.channel;
  store = live.store;
}

unfoldable pub on_channel : String → (Live → Live) → Hub → Hub
on_channel name f hub =
    let (hub', found) = get_channel name true hub in
    elim found [
      | none ↦ hub'
      | some ch ↦ put_live name (f (record { channel = ch; store = hub'.store })) hub'
    ]

abbrev pub aggregate_name : String → String
aggregate_name project_id = String.◌++◌ "project:" (String.◌++◌ project_id ":all")

unfoldable pub subtab_name : String → String → String
subtab_name project_id subtab =
    String.◌++◌ "project:" (String.◌++◌ project_id (String.◌++◌ ":subtab:" (lower (strip subtab))))

unfoldable pub get_subtab_channel : String → String → Hub → Hub × Option Channel
get_subtab_channel project_id subtab = get_channel (subtab_name project_id subtab) true

abbrev every : ℕ → Bool
every sid = true

unfoldable pub enriched : String → Data → Data
enriched subtab (dict d) = dict (Dict.put d "_subtab" (str subtab))
enriched subtab (other v) = dict (("_subtab", str subtab) ∷ ("data", v) ∷ [])

module _ (loop_running : Bool) (now : String) where
  unfoldable pub broadcast_on : String → Data → String → Hub → Hub
  broadcast_on name data_ event =
      on_channel name (Channel.broadcast loop_running now data_ event none every)

  -- The aggregate channel is created if need be, and gets the event if it has sessions.
  unfoldable pub mirror : String → String → Data → String → Hub → Hub
  mirror project_id subtab data_ event hub =
      let (hub', found) = get_channel (aggregate_name project_id) true hub in
      elim found [
        | none ↦ hub'
        | some ch ↦
            if ltb 0 (length ch.sessions)
            then broadcast_on (aggregate_name project_id) (enriched subtab data_) event hub'
            else hub'
      ]

  unfoldable pub broadcast_to_subtab : String → String → Data → String → Hub → Hub
  broadcast_to_subtab project_id subtab data_ event hub =
      let hub' = broadcast_on (subtab_name project_id subtab) data_ event hub in
      if str_eq subtab "all" then hub' else mirror project_id subtab data_ event hub'

  unfoldable pub broadcast_to_project : String → Data → String → Hub → Hub
  broadcast_to_project project_id data_ event = broadcast_on (aggregate_name project_id) data_ event

unfoldable pub register : ℕ → ℕ → Bool → String → Hub → Hub
register sid since_id replay name = on_channel name (Channel.register sid since_id replay)

-- `channel.deregister(self)` on a channel that the hub has
unfoldable pub deregister : ℕ → String → Hub → Hub
deregister sid name hub = elim (Dict.get hub.channels name) [
  | none ↦ hub
  | some ch ↦
      put_live name (Channel.deregister sid (record { channel = ch; store = hub.store })) hub
]

unfoldable pub deregister_all : ℕ → List String → Hub → Hub
deregister_all sid [] hub = hub
deregister_all sid (name ∷ names) hub = deregister_all sid names (deregister sid name hub)

abbrev pub set_store : ℕ → Session → Hub → Hub
set_store sid s hub = record hub { store = set_session hub.store sid s }

-- The empty frame that wakes the generator, where the queue has room for it.
unfoldable pub put_end : Session → Session
put_end s =
    if ltb (length s.queue) subscriber_queue_size
    then record s { queue = s.queue ++ (end_of_stream, none) ∷ [] }
    else s

-- `Session.close`
unfoldable pub close : ℕ → Hub → Hub
close sid hub =
    let s = hub.store sid in
    let hub' =
      deregister_all sid s.channels (set_store sid (record s { is_connected = false }) hub) in
    if s.is_connected then set_store sid (put_end (hub'.store sid)) hub' else hub
