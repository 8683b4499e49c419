-- ===== src/Sse/Batcher/Bounds.antt =====
-- How much can wait in the batcher, and that what waits has a timer.
use Prim.Native.String
use text.Mathlib.TextLemmas.{length-append, append-nil}
use sarra.Common.{
  ℕ, ◌+◌, ◌<◌, String, ◌≡◌, refl, ap, Bool, true, none, some, [], ◌∷◌, arith, eq_refl, str_eq,
  Bool-cases, length, length-append as list_length-append, Option-cases, inl, inr,
}
use sarra.Common.Dict
use sarra.Sse.Batcher.{Event, Entry, Batcher, join, event_key, delta_of, flush, joined, store, push}
use sarra.Sse.Batcher.Laws.{flush_missing, flush_found, entry, push_cases, join-concat}

-- An entry counts what it holds.
pub record IsCounted (e : Entry) : Type 0 where
  pub chars : e.chars ≡ String.count (join e.parts)
  pub parts : e.count ≡ length e.parts

-- An entry that waits counts what it holds, is under both caps and has a timer that will flush it.
pub record MayWait (max_chars max_count : ℕ) (e : Entry) : Type 0 where
  pub counted : IsCounted e
  pub few_chars : e.chars < max_chars
  pub few_parts : e.count < max_count
  pub armed : e.timer ≡ true

pub record IsBounded (b : Batcher) : Type 0 where
  pub at : (k : String) (e : Entry) → Dict.get b.buf k ≡ some e → MayWait b.max_chars b.max_count e

joined-IsCounted : (e : Entry) (event : Event) → IsCounted e → IsCounted (joined (some e) event)
unfolding joined
joined-IsCounted e event h = record {
  chars =
      rw (join-concat e.parts (delta_of event), length-append (join e.parts) (delta_of event))
        (ap (λ n. n + String.count (delta_of event)) h.chars);
  parts = omega (arith, h.parts, list_length-append {0} e.parts (delta_of event ∷ []));
}

first-IsCounted : (event : Event) → IsCounted (joined none event)
unfolding joined join
first-IsCounted event = record { chars = rw (append-nil (delta_of event)); parts = refl }

module _ (b : Batcher) (h : IsBounded b) where
  pub flush-IsBounded : (j : String) → IsBounded (flush j b).0
  flush-IsBounded j = elim (Option-cases (Dict.get b.buf j)) [
    | inl p ↦ rw (flush_missing j b p) h
    | inr (e, p) ↦
        rw (flush_found j b e p)
          (record { at = λ k y q. h.at k y (ground (arith, Dict.get-remove b.buf j k)) })
  ]

  entry-IsCounted : (event : Event) → IsCounted (entry event b)
  entry-IsCounted event = elim (Option-cases (Dict.get b.buf (event_key event))) [
    | inl p ↦ rw p (first-IsCounted event)
    | inr (e, p) ↦ rw p (joined-IsCounted e event (h.at (event_key event) e p).counted)
  ]

  store-IsBounded :
      (key : String) (e : Entry) → MayWait b.max_chars b.max_count e → IsBounded (store key e b)
  unfolding store
  store-IsBounded key e m = record {
    at = λ k y p. elim (Bool-cases (str_eq key k)) [
      | inl same ↦ let here : y ≡ e = cc (Dict.get-put b.buf key e k, p, same) in rw here m
      | inr other ↦ h.at k y (ground (arith, Dict.get-put b.buf key e k))
    ];
  }

  -- A flush right after the entry was stored leaves the other entries, which were in bounds.
  flush-store-IsBounded : (key : String) (e : Entry) → IsBounded (flush key (store key e b)).0
  unfolding store
  flush-store-IsBounded key e =
      rw (flush_found key (store key e b) e (rw (Dict.get-put b.buf key e key, eq_refl key) refl))
        (record {
          at = λ k y p. h.at k y (
              ground
                (arith, Dict.get-remove (Dict.put b.buf key e) key k, Dict.get-put b.buf key e k));
        })

  -- Whatever the event, and whether or not an event loop runs: what waits after `push` counts what it
  -- holds, is under both caps and has a timer, if that held of what waited before.
  pub push-IsBounded :
      (loop_running : Bool) (event : Event) → IsBounded (push loop_running event b).0
  push-IsBounded loop_running event =
      let (t, c) = push_cases event b loop_running in
      elim c [
        | inl e ↦
            rw e (flush-store-IsBounded (event_key event) (record (entry event b) { timer = t }))
        | inr (e, on, chars, parts) ↦ rw e (
            store-IsBounded (event_key event) (record (entry event b) { timer = t })
              (record {
                counted = record {
                  chars = (entry-IsCounted event).chars;
                  parts = (entry-IsCounted event).parts;
                };
                few_chars = chars;
                few_parts = parts;
                armed = on;
              }))
      ]
