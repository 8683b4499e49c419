-- ===== src/Sse/Session/Queue.antt =====
-- What the queue of a session holds after any number of frames.
use sarra.Common.{
  suc, ◌+◌, ◌-◌, ◌≤◌, ◌<◌, ◌≡◌, refl, ap, sym, ◌∙◌, true, false, List, [], ◌∷◌, ◌++◌, arith, length,
  length-append, drop, newest, newest_all, newest-newest, length-newest, drop-append, ltb,
}
use native.Mathlib.Decide.{dec_lt}
use mathlib.Core.List.{append_assoc, append-nil}
use sarra.Sse.Session.{Item, Session, subscriber_queue_size, enqueue}

abbrev pub enqueue_all : List Item → Session → Session
enqueue_all [] s = s
enqueue_all (item ∷ items) s = enqueue_all items (enqueue item s)

abbrev pub Fits : Session → Type 0
Fits s = length s.queue ≤ subscriber_queue_size

module _ (item : Item) (s : Session) where
  enqueue_room :
      length s.queue < subscriber_queue_size
      → enqueue item s ≡ record s { queue = s.queue ++ item ∷ [] }
  unfolding enqueue
  enqueue_room h =
      let e : ltb (length s.queue) subscriber_queue_size ≡ true = ground arith in rw e refl

  enqueue_full :
      subscriber_queue_size ≤ length s.queue
      → enqueue item s ≡ record s { queue = drop 1 s.queue ++ item ∷ []; dropped = s.dropped + 1 }
  unfolding enqueue
  enqueue_full h =
      let e : ltb (length s.queue) subscriber_queue_size ≡ false = ground arith in rw e refl

  -- One frame: the queue keeps the newest, and `dropped` counts the one that gave way, if any.
  pub queue-enqueue :
      Fits s
      → ((enqueue item s).queue ≡ newest subscriber_queue_size (s.queue ++ item ∷ []))
        × ((enqueue item s).dropped ≡ s.dropped + (suc (length s.queue) - subscriber_queue_size))
  queue-enqueue fits = elim (dec_lt (length s.queue) subscriber_queue_size) [
    | yes room ↦ rw (enqueue_room room) (
      sym (
          newest_all subscriber_queue_size (s.queue ++ item ∷ [])
            (omega (arith, length-append {0} s.queue (item ∷ [])))),
      omega arith,
    )
    | no full ↦
        let one : length (s.queue ++ item ∷ []) - subscriber_queue_size ≡ 1 =
          omega (arith, length-append {0} s.queue (item ∷ [])) in
        rw (enqueue_full (omega arith)) (
          sym (
              ap (λ k. drop k (s.queue ++ item ∷ [])) one
              ∙ drop-append 1 s.queue (item ∷ []) (omega arith)),
          omega arith,
        )
  ]

  pub enqueue-Fits : Fits s → Fits (enqueue item s)
  enqueue-Fits fits =
      rw (queue-enqueue fits).0
        (omega (arith, length-newest subscriber_queue_size (s.queue ++ item ∷ [])))

  -- The rest of a session is as it was.
  pub enqueue_frame :
      ((enqueue item s).is_connected ≡ s.is_connected)
      × ((enqueue item s).last_event_id ≡ s.last_event_id)
      × ((enqueue item s).channels ≡ s.channels)
  unfolding enqueue
  enqueue_frame = ground arith

-- Any number of frames given to a session whose queue is within its bound: the queue then holds the
-- newest of all, in order, as many as the bound allows, and `dropped` has grown by the number of
-- those that are missing.
pub enqueue_all-newest :
    (items : List Item) (s : Session)
    → length s.queue ≤ subscriber_queue_size
    → ((enqueue_all items s).queue ≡ newest subscriber_queue_size (s.queue ++ items))
      × ((enqueue_all items s).dropped
          ≡ s.dropped + (length (s.queue ++ items) - subscriber_queue_size))
enqueue_all-newest [] s fits = (
  rw append-nil (sym (newest_all subscriber_queue_size s.queue fits)),
  rw append-nil (omega arith),
)
enqueue_all-newest (item ∷ items) s fits =
    let (q, d) = enqueue_all-newest items (enqueue item s) (enqueue-Fits item s fits) in
    let (q', d') = queue-enqueue item s fits in
    (
      q
          ∙ ap (λ (xs : List Item). newest subscriber_queue_size (xs ++ items)) q'
          ∙ newest-newest subscriber_queue_size (s.queue ++ item ∷ []) items
          ∙ ap (newest subscriber_queue_size) (append_assoc s.queue (item ∷ []) items),
      omega (
        arith,
        d,
        d',
        ap (length {A = Item}) q',
        length-newest subscriber_queue_size (s.queue ++ item ∷ []),
        length-append {0} s.queue (item ∷ []),
        length-append {0} s.queue (item ∷ items),
        length-append {0} (enqueue item s).queue items,
      ),
    )
