-- ===== src/Sse/Frame.antt =====
-- The frames of syte/sse_core.py. JSON text and UTF-8 are left out: a frame keeps the fields that
-- `encode_sse_frame` writes, `id:`, `event:` and the payload of `data:`.
use sarra.Common.{ℕ, String, Option, none, some, [], ◌∷◌, if◌then◌else◌}
use sarra.Common.Dict
use sarra.Common.Dict.{Dict}
use sarra.Value.{Value, int, str, truthy, to_text}

pub data Frame : Type 0 where
  retry heartbeat : Frame
  event : (id : Option ℕ) → (name : String) → (payload : Dict Value) → Frame
  -- b"", which only `close` puts into a queue
  end_of_stream : Frame

-- `d.get(k) or rest`, as text
unfoldable pub get_or_else : Dict Value → String → String → String
get_or_else d k rest = elim (Dict.get d k) [
  | none ↦ rest
  | some v ↦ if truthy v then to_text v else rest
]

-- `str(event.get("event") or event.get("event_type") or "message")`
unfoldable pub event_name : Dict Value → String
event_name e = get_or_else e "event" (get_or_else e "event_type" "message")

-- What `encode_sse_frame` writes into the dictionary that it is given.
unfoldable pub completed : Dict Value → Dict Value
completed e =
    Dict.set_default (Dict.set_default e "event" (str (event_name e))) "event_type"
      (str (event_name e))

unfoldable pub encode_sse_frame : Dict Value → Option ℕ → Frame
encode_sse_frame e id = event id (event_name e) (completed e)

unfoldable pub stream_gap_frame : ℕ → ℕ → String → Frame
stream_gap_frame dropped last_id reason =
    encode_sse_frame
      (("event", str "stream_gap")
        ∷ ("dropped", int dropped)
        ∷ ("last_id", int last_id)
        ∷ ("reason", str reason)
        ∷ [])
      none

-- What `Session.push` and `Channel.broadcast` accept, and the payload that they make of it.
pub data Data : Type 0 where
  dict : Dict Value → Data
  other : Value → Data

unfoldable pub payload_of : Data → String → Dict Value
payload_of (dict d) name =
    Dict.set_default (Dict.set_default d "event" (str name)) "event_type" (str name)
payload_of (other v) name = ("event", str name) ∷ ("event_type", str name) ∷ ("data", v) ∷ []
