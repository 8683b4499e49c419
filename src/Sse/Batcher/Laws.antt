-- ===== src/Sse/Batcher/Laws.antt =====
-- The text in the batcher and in what it emits.
use Prim.Native.String
use text.Mathlib.TextLemmas.{nil-append, append-nil, append_assoc}
use sarra.Common.{
  ◌<◌, String, ◌≡◌, refl, ap, sym, ◌∙◌, Bool, true, false, Option, none, some, List, [], ◌∷◌, ◌++◌,
  arith, str_eq, eq_iff, ltb, leb, ◌||◌, if◌then◌else◌, Option-cases, Bool-cases, inl, inr, ◌⊎◌,
}
use sarra.Common.Dict
use sarra.Common.Dict.{Dict}
use sarra.Value.{truthy, to_text, text_at-put, text_at-remove, text_or_empty-put}
use sarra.Sse.Batcher.{
  Event, Entry, Batcher, join, event_key, delta_of, merged, flush, joined, store, push,
}

-- The text that waits under a key, and the text of a key in a list of events.
abbrev pub waiting : Option Entry → String
waiting none = ""
waiting (some e) = join e.parts

abbrev pub pending : String → Batcher → String
pending k b = waiting (Dict.get b.buf k)

abbrev pub text_of : String → Event → String
text_of k event = if str_eq (event_key event) k then delta_of event else ""

abbrev pub sent : String → List Event → String
sent k [] = ""
sent k (event ∷ out) = String.◌++◌ (text_of k event) (sent k out)

pub sent-append :
    (k : String) (xs ys : List Event) → sent k (xs ++ ys) ≡ String.◌++◌ (sent k xs) (sent k ys)
sent-append k [] ys = sym (nil-append (sent k ys))
sent-append k (x ∷ xs) ys =
    rw (sent-append k xs ys) (sym (append_assoc (text_of k x) (sent k xs) (sent k ys)))

pub join-concat :
    (parts : List String) (s : String) → join (parts ++ s ∷ []) ≡ String.◌++◌ (join parts) s
unfolding join
join-concat [] s = append-nil s ∙ sym (nil-append s)
join-concat (p ∷ parts) s = rw (join-concat parts s) (sym (append_assoc p (join parts) s))

event_key-merged : (e : Entry) → event_key (merged e) ≡ event_key e.template
unfolding event_key merged
event_key-merged e = elim (Bool-cases (ltb 1 e.count)) [
  | inl many ↦ rw many (simp text_at-put)
  | inr one ↦ rw one (simp text_at-put)
]

delta_of-merged : (e : Entry) → delta_of (merged e) ≡ join e.parts
unfolding delta_of merged truthy to_text
delta_of-merged e = elim (Bool-cases (ltb 1 e.count)) [
  | inl many ↦ rw many (simp text_or_empty-put (ground (arith, eq_iff (join e.parts) "")))
  | inr one ↦ rw one (simp text_or_empty-put (ground (arith, eq_iff (join e.parts) "")))
]

-- Every entry is stored under the key of its events.
pub record IsKeyed (b : Batcher) : Type 0 where
  pub at : (k : String) (e : Entry) → Dict.get b.buf k ≡ some e → event_key e.template ≡ k

module _ (j : String) (b : Batcher) where
  pub flush_missing : Dict.get b.buf j ≡ none → flush j b ≡ (b, [])
  unfolding flush
  flush_missing h = rw (h, flush)

  pub flush_found :
      (e : Entry)
      → Dict.get b.buf j ≡ some e
      → flush j b ≡ (record b { buf = Dict.remove b.buf j }, merged e ∷ [])
  unfolding flush
  flush_found e h = rw (h, flush)

  -- After a flush of a key nothing waits under it, and the other keys are as they were.
  pub get-flush :
      (k : String) → Dict.get (flush j b).0.buf k ≡ (if str_eq j k then none else Dict.get b.buf k)
  get-flush k = elim (Option-cases (Dict.get b.buf j)) [
    | inl h ↦ rw (flush_missing h) (ground (arith, eq_iff j k))
    | inr (e, h) ↦ rw (flush_found e h) (Dict.get-remove b.buf j k)
  ]

  pub flush-IsKeyed : IsKeyed b → IsKeyed (flush j b).0
  flush-IsKeyed keyed = record { at = λ k y h. ground (arith, get-flush k, keyed.at k y) }

  text_of-merged :
      (e : Entry) (k : String)
      → event_key e.template ≡ j
      → text_of k (merged e) ≡ (if str_eq j k then join e.parts else "")
  text_of-merged e k h = ground (arith, event_key-merged e, delta_of-merged e)

  -- Flushing one key moves its text from the buffer to the output, and that of no other key.
  pub flush-conserves :
      IsKeyed b
      → (k : String) → String.◌++◌ (sent k (flush j b).1) (pending k (flush j b).0) ≡ pending k b
  flush-conserves keyed k = elim (Option-cases (Dict.get b.buf j)) [
    | inl h ↦ rw (flush_missing h) (nil-append (pending k b))
    | inr (e, h) ↦
        rw (flush_found e h, text_of-merged e k (keyed.at j e h), Dict.get-remove b.buf j k)
          (elim (Bool-cases (str_eq j k)) [
            | inl same ↦
                let jk = (eq_iff j k).0 same in
                rw same (rw (append-nil, append-nil) (rw (← jk) (rw h refl)))
            | inr other ↦ rw other (simp nil-append)
          ])
  ]

-- An event joins the entry of its key.
waiting-joined :
    (o : Option Entry) (event : Event)
    → waiting (some (joined o event)) ≡ String.◌++◌ (waiting o) (delta_of event)
unfolding joined join
waiting-joined none event = append-nil (delta_of event) ∙ sym (nil-append (delta_of event))
waiting-joined (some e) event = join-concat e.parts (delta_of event)

event_key-joined :
    (b : Batcher) (event : Event)
    → IsKeyed b
    → event_key (joined (Dict.get b.buf (event_key event)) event).template ≡ event_key event
unfolding joined event_key
event_key-joined b event keyed = elim (Option-cases (Dict.get b.buf (event_key event))) [
  | inl h ↦ rw (h, joined) (simp text_at-remove)
  | inr (e, h) ↦ rw (h, joined) (keyed.at (event_key event) e h)
]

module _ (key : String) (e : Entry) (b : Batcher) where
  pub get-store :
      (k : String)
      → Dict.get (store key e b).buf k ≡ (if str_eq key k then some e else Dict.get b.buf k)
  unfolding store
  get-store k = Dict.get-put b.buf key e k

  pub store-IsKeyed : event_key e.template ≡ key → IsKeyed b → IsKeyed (store key e b)
  store-IsKeyed h keyed = record {
    at = λ k y p. ground (arith, get-store k, eq_iff key k, keyed.at k y);
  }

  pub pending-store :
      (k : String)
      → pending k (store key e b) ≡ (if str_eq key k then join e.parts else pending k b)
  pending-store k = ground (arith, get-store k)

module _ (event : Event) (b : Batcher) where
  abbrev pub entry : Entry
  entry = joined (Dict.get b.buf (event_key event)) event

  -- `push` stores the entry and then flushes its key or not.
  pub push_cases :
      (loop_running : Bool)
      → (t : Bool) × ((push loop_running event b
            ≡ flush (event_key event) (store (event_key event) (record entry { timer = t }) b))
          ⊎ ((push loop_running event b
                ≡ (store (event_key event) (record entry { timer = t }) b, []))
              × (t ≡ true)
              × (entry.chars < b.max_chars)
              × (entry.count < b.max_count)))
  unfolding push
  push_cases loop_running =
      elim (Bool-cases (leb b.max_chars entry.chars || leb b.max_count entry.count)) [
        | inl full ↦ (entry.timer, inl (rw (full, push) refl))
        | inr room ↦ elim (Bool-cases entry.timer) [
          | inl on ↦ (
            entry.timer,
            inr (rw (room, push) (rw (on, push) refl), on, ground arith, ground arith),
          )
          | inr off ↦ go loop_running off room
        ]
      ]
    where
      go :
          (r : Bool)
          → entry.timer ≡ false
          → (leb b.max_chars entry.chars || leb b.max_count entry.count) ≡ false
          → (t : Bool) × ((push r event b
                ≡ flush (event_key event) (store (event_key event) (record entry { timer = t }) b))
              ⊎ ((push r event b ≡ (store (event_key event) (record entry { timer = t }) b, []))
                  × (t ≡ true)
                  × (entry.chars < b.max_chars)
                  × (entry.count < b.max_count)))
      go true off room = (true, inr (rw room (rw off refl), refl, ground arith, ground arith))
      go false off room = (entry.timer, inl (rw room (rw off refl)))

module _ (event : Event) (b : Batcher) (keyed : IsKeyed b) where
  -- Storing the entry, with or without a timer, adds the event's text to what waits.
  pending-joined :
      (t : Bool) (k : String)
      → pending k (store (event_key event) (record (entry event b) { timer = t }) b)
        ≡ String.◌++◌ (pending k b) (text_of k event)
  pending-joined t k =
      rw (pending-store (event_key event) (record (entry event b) { timer = t }) b k)
        (elim (Bool-cases (str_eq (event_key event) k)) [
          | inl same ↦ rw same (
              waiting-joined (Dict.get b.buf (event_key event)) event
              ∙ ap (λ j. String.◌++◌ (pending j b) (delta_of event)) ((eq_iff _ _).0 same))
          | inr other ↦ rw other (sym (append-nil (pending k b)))
        ])

  stored-IsKeyed :
      (t : Bool) → IsKeyed (store (event_key event) (record (entry event b) { timer = t }) b)
  stored-IsKeyed t =
      store-IsKeyed (event_key event) (record (entry event b) { timer = t }) b
        (event_key-joined b event keyed) keyed

  -- One event: the text of its key that waited, followed by its own, is sent or waits.
  pub push-conserves :
      (loop_running : Bool) (k : String)
      → String.◌++◌ (sent k (push loop_running event b).1) (pending k (push loop_running event b).0)
        ≡ String.◌++◌ (pending k b) (text_of k event)
  push-conserves loop_running k =
      let (t, c) = push_cases event b loop_running in
      elim c [
        | inl e ↦ rw e (flush-conserves _ _ (stored-IsKeyed t) k ∙ pending-joined t k)
        | inr (e, _, _, _) ↦ rw e (nil-append _ ∙ pending-joined t k)
      ]

  pub push-IsKeyed : (loop_running : Bool) → IsKeyed (push loop_running event b).0
  push-IsKeyed loop_running =
      let (t, c) = push_cases event b loop_running in
      elim c [
        | inl e ↦ rw e (flush-IsKeyed _ _ (stored-IsKeyed t))
        | inr (e, _, _, _) ↦ rw e (stored-IsKeyed t)
      ]
