-- ===== src/Sse/Session/Accounting.antt =====
-- The frames that a session takes, yields, holds and drops.
use sarra.Common.{
  ℕ, ◌+◌, ◌≤◌, ◌≡◌, ◌≢◌, refl, ap, String, true, false, none, some, List, [], ◌∷◌, ◌++◌, arith,
  length, length-append, length-newest, ltb, Bool-cases, inl, inr, if◌then◌else◌,
}
use sarra.Common.Dict
use sarra.Value.{int}
use sarra.Sse.Frame.{
  Frame, event, end_of_stream, encode_sse_frame, completed, event_name, get_or_else,
  stream_gap_frame,
}
use sarra.Sse.Session.{
  Item, Session, Wake, client_gone, timed_out, item_ready, subscriber_queue_size, enqueue, deliver,
  take_item, round,
}
use sarra.Sse.Session.Queue.{queue-enqueue, enqueue-Fits}

-- The number in the "dropped" field of a frame, and what a round tells its client: the number in a
-- gap frame ahead of a frame of the queue.
unfoldable pub dropped_in : Frame → ℕ
dropped_in (event id name payload) = elim (Dict.get payload "dropped") [
  | none ↦ 0
  | some v ↦ elim v [ int n ↦ n | _ ↦ 0 ]
]
dropped_in _ = 0

abbrev pub told : List Frame → ℕ
told (gap ∷ frame ∷ []) = dropped_in gap
told _ = 0

dropped_in-stream_gap_frame : (n l : ℕ) (r : String) → dropped_in (stream_gap_frame n l r) ≡ n
unfolding dropped_in stream_gap_frame encode_sse_frame completed event_name get_or_else Dict.get
    Dict.put Dict.set_default
dropped_in-stream_gap_frame n l r = refl

-- How many items a round takes from the queue.
abbrev taken_from : List Item → ℕ
taken_from [] = 0
taken_from (item ∷ rest) = 1

abbrev pub taken : Wake → Session → ℕ
taken item_ready s = if s.is_connected then taken_from s.queue else 0
taken _ s = 0

told_of_gap :
    (n l : ℕ) (r : String) (frame : Frame)
    → told (if ltb 0 n then stream_gap_frame n l r ∷ frame ∷ [] else frame ∷ []) ≡ n
told_of_gap n l r frame = ground (arith, dropped_in-stream_gap_frame n l r)

deliver_accounts :
    (item : Item) (s : Session)
    → length (deliver item s).session.queue
        + (deliver item s).session.dropped
        + told (deliver item s).yielded
      ≡ length s.queue + s.dropped
unfolding deliver
deliver_accounts (end_of_stream, e) s = omega arith
deliver_accounts (frame, e) s =
    omega (arith, told_of_gap s.dropped s.last_event_id "backpressure" frame)

take_item_accounts :
    (queue : List Item) (s : Session)
    → s.queue ≡ queue
    → length (take_item queue s).session.queue
        + (take_item queue s).session.dropped
        + told (take_item queue s).yielded
        + taken_from queue
      ≡ length queue + s.dropped
unfolding take_item
take_item_accounts [] s e = omega (arith, ap (length {A = Item}) e)
take_item_accounts (item ∷ rest) s e =
    omega (arith, deliver_accounts item (record s { queue = rest }))

deliver-queue : (item : Item) (s : Session) → (deliver item s).session.queue ≡ s.queue
unfolding deliver
deliver-queue (end_of_stream, e) s = refl
deliver-queue (frame, e) s = refl

take_item-queue-le :
    (queue : List Item) (s : Session)
    → s.queue ≡ queue
    → length (take_item queue s).session.queue ≤ length queue
unfolding take_item
take_item-queue-le [] s e = omega (arith, ap (length {A = Item}) e)
take_item-queue-le (item ∷ rest) s e =
    omega (arith, ap (length {A = Item}) (deliver-queue item (record s { queue = rest })))

module _ (s : Session) where
  round_shut :
      (wake : Wake)
      → s.is_connected ≡ false
      → round wake s ≡ record { session = s; yielded = []; goes_on = false }
  unfolding round
  round_shut wake off = ground arith

  round_open : s.is_connected ≡ true → round item_ready s ≡ take_item s.queue s
  unfolding round
  round_open on = ground arith

  round_idle :
      (wake : Wake)
      → wake ≢ item_ready
      → ((round wake s).session ≡ s) × (told (round wake s).yielded ≡ 0)
  unfolding round
  round_idle wake h = ground arith

  round_accounts :
      (wake : Wake)
      → length (round wake s).session.queue
          + (round wake s).session.dropped
          + told (round wake s).yielded
          + taken wake s
        ≡ length s.queue + s.dropped
  round_accounts item_ready = elim (Bool-cases s.is_connected) [
    | inl on ↦
        let taken_here : taken item_ready s ≡ taken_from s.queue = ground arith in
        rw (round_open on, taken_here) (take_item_accounts s.queue s refl)
    | inr off ↦
        let none_here : taken item_ready s ≡ 0 = ground arith in
        rw (round_shut item_ready off, none_here) (omega arith)
  ]
  round_accounts client_gone =
      let (same, zero_told) = round_idle client_gone (cc) in rw (same, zero_told) (omega arith)
  round_accounts timed_out =
      let (same, zero_told) = round_idle timed_out (cc) in rw (same, zero_told) (omega arith)

  round-queue-le : (wake : Wake) → length (round wake s).session.queue ≤ length s.queue
  round-queue-le item_ready = elim (Bool-cases s.is_connected) [
    | inl on ↦ rw (round_open on) (take_item-queue-le s.queue s refl)
    | inr off ↦ rw (round_shut item_ready off) (omega arith)
  ]
  round-queue-le client_gone = rw (round_idle client_gone (cc)).0 (omega arith)
  round-queue-le timed_out = rw (round_idle timed_out (cc)).0 (omega arith)

-- What a session goes through: a frame is given to it, or its generator makes a round.
pub data Act : Type 0 where
  give : Item → Act
  wake_up : Wake → Act

pub record Tally : Type 0 where
  pub session : Session
  pub given : ℕ
  pub delivered : ℕ
  pub reported : ℕ

pub act : Act → Tally → Tally
act (give item) t = record t { session = enqueue item t.session; given = t.given + 1 }
act (wake_up wake) t = record t {
  session = (round wake t.session).session;
  delivered = t.delivered + taken wake t.session;
  reported = t.reported + told (round wake t.session).yielded;
}

pub acts : List Act → Tally → Tally
acts [] t = t
acts (a ∷ as_) t = acts as_ (act a t)

abbrev pub IsBalanced : Tally → Type 0
IsBalanced t = length t.session.queue + t.session.dropped + t.delivered + t.reported ≡ t.given

module _ (t : Tally) (fits : length t.session.queue ≤ subscriber_queue_size) where
  act_balance : (a : Act) → IsBalanced t → IsBalanced (act a t)
  unfolding act
  act_balance (give item) h =
      let (q, d) = queue-enqueue item t.session fits in
      omega (
        arith,
        d,
        ap (length {A = Item}) q,
        length-newest subscriber_queue_size (t.session.queue ++ item ∷ []),
        length-append {0} t.session.queue (item ∷ []),
      )
  act_balance (wake_up wake) h = omega (arith, round_accounts t.session wake)

  act-Fits : (a : Act) → length (act a t).session.queue ≤ subscriber_queue_size
  unfolding act
  act-Fits (give item) = enqueue-Fits item t.session fits
  act-Fits (wake_up wake) = omega (arith, round-queue-le t.session wake)

-- Whatever frames a session is given and whatever its generator waits for, in any order: each frame
-- given was taken out by the generator, is still in the queue, was told to the client as dropped, or
-- is counted in `dropped`, to be told ahead of the next frame. The queue stays within its bound.
pub acts-IsBalanced :
    (as_ : List Act) (t : Tally)
    → length t.session.queue ≤ subscriber_queue_size
    → IsBalanced t
    → IsBalanced (acts as_ t) × (length (acts as_ t).session.queue ≤ subscriber_queue_size)
unfolding acts
acts-IsBalanced [] t fits h = (h, fits)
acts-IsBalanced (a ∷ as_) t fits h =
    acts-IsBalanced as_ (act a t) (act-Fits t fits a) (act_balance t fits a h)
