-- ===== src/Sse/Batcher/Runs.antt =====
-- Any sequence of events, timers and flushes.
use Prim.Native.String
use text.Mathlib.TextLemmas.{nil-append, append-nil, append_assoc}
use sarra.Common.{
  String, ◌≡◌, refl, ap, sym, ◌∙◌, Bool, false, List, [], ◌∷◌, ◌++◌, map, arith, eq_iff,
  Option-cases, inl, inr,
}
use sarra.Common.Dict
use sarra.Common.Dict.{Dict}
use sarra.Sse.Batcher.{Event, Entry, Batcher, flush, store, push, on_timer, flush_keys, flush_all}
use sarra.Sse.Batcher.Laws.{
  pending, text_of, sent, sent-append, IsKeyed, flush-IsKeyed, flush-conserves, push-conserves,
  push-IsKeyed, store-IsKeyed, pending-store,
}

-- What one operation sends and leaves, beside what waited: the text of each key is kept.
abbrev pub Conserves : Batcher → Batcher × List Event → (String → String) → Type 0
Conserves b (b', out) added =
    (k : String) → String.◌++◌ (sent k out) (pending k b') ≡ String.◌++◌ (pending k b) (added k)

abbrev pub nothing : String → String
nothing k = ""

on_timer-eq-flush :
    (key : String) (b : Batcher) (k : String)
    → IsKeyed b
    → (String.◌++◌ (sent k (on_timer key b).1) (pending k (on_timer key b).0) ≡ pending k b)
      × IsKeyed (on_timer key b).0
unfolding on_timer
on_timer-eq-flush key b k keyed = elim (Option-cases (Dict.get b.buf key)) [
  | inl p ↦ rw (p, on_timer) (nil-append (pending k b), keyed)
  | inr (e, p) ↦
      let stored = store-IsKeyed key (record e { timer = false }) b (keyed.at key e p) keyed in
      rw (p, on_timer)
        (
          flush-conserves key (store key (record e { timer = false }) b) stored k
              ∙ ground (arith, pending-store key (record e { timer = false }) b k, eq_iff key k),
          flush-IsKeyed key (store key (record e { timer = false }) b) stored,
        )
]

flush_keys-conserves :
    (keys : List String) (b : Batcher)
    → IsKeyed b
    → ((k : String)
        → String.◌++◌ (sent k (flush_keys keys b).1) (pending k (flush_keys keys b).0)
          ≡ pending k b)
      × IsKeyed (flush_keys keys b).0
unfolding flush_keys
flush_keys-conserves [] b keyed = (λ k. nil-append (pending k b), keyed)
flush_keys-conserves (key ∷ keys) b keyed =
    let b' = (flush key b).0 in
    let (later, keyed') = flush_keys-conserves keys b' (flush-IsKeyed key b keyed) in
    (
      λ k.
          ap (λ t. String.◌++◌ t (pending k (flush_keys keys b').0))
            (sent-append k (flush key b).1 (flush_keys keys b').1)
          ∙ append_assoc (sent k (flush key b).1) (sent k (flush_keys keys b').1)
              (pending k (flush_keys keys b').0)
          ∙ ap (λ t. String.◌++◌ (sent k (flush key b).1) t) (later k)
          ∙ flush-conserves key b keyed k,
      keyed',
    )

-- What an operation is called with.
pub data Op : Type 0 where
  push_event : (loop_running : Bool) → Event → Op
  timer_fired flush_key : String → Op
  flush_everything : Op

pub step : Op → Batcher → Batcher × List Event
step (push_event loop_running event) b = push loop_running event b
step (timer_fired key) b = on_timer key b
step (flush_key key) b = flush key b
step flush_everything b = flush_all b

pub run : List Op → Batcher → Batcher × List Event
run [] b = (b, [])
run (op ∷ ops) b = let (b', out) = step op b in let (b'', rest) = run ops b' in (b'', out ++ rest)

-- The text that the operations bring for a key, in order.
abbrev pub brought : String → List Op → String
brought k [] = ""
brought k (push_event loop_running event ∷ ops) = String.◌++◌ (text_of k event) (brought k ops)
brought k (_ ∷ ops) = brought k ops

abbrev added : String → Op → String
added k (push_event loop_running event) = text_of k event
added k _ = ""

brought-cons :
    (k : String) (op : Op) (ops : List Op)
    → brought k (op ∷ ops) ≡ String.◌++◌ (added k op) (brought k ops)
brought-cons k (push_event l event) ops = refl
brought-cons k (timer_fired key) ops = sym (nil-append (brought k ops))
brought-cons k (flush_key key) ops = sym (nil-append (brought k ops))
brought-cons k flush_everything ops = sym (nil-append (brought k ops))

step-conserves :
    (op : Op) (b : Batcher)
    → IsKeyed b
    → ((k : String)
        → String.◌++◌ (sent k (step op b).1) (pending k (step op b).0)
          ≡ String.◌++◌ (pending k b) (added k op))
      × IsKeyed (step op b).0
unfolding step flush_all
step-conserves (push_event l event) b keyed =
    (λ k. push-conserves event b keyed l k, push-IsKeyed event b keyed l)
step-conserves (timer_fired key) b keyed = (
  λ k. (on_timer-eq-flush key b k keyed).0 ∙ sym (append-nil (pending k b)),
  (on_timer-eq-flush key b "" keyed).1,
)
step-conserves (flush_key key) b keyed =
    (λ k. flush-conserves key b keyed k ∙ sym (append-nil (pending k b)), flush-IsKeyed key b keyed)
step-conserves flush_everything b keyed =
    let (all, keyed') = flush_keys-conserves (map (λ (p : String × Entry). p.0) b.buf) b keyed in
    (λ k. all k ∙ sym (append-nil (pending k b)), keyed')

-- Any run of the batcher: for every key, the text sent, followed by the text still waiting, is the
-- text that waited at first, followed by all that the run brought for the key, in order.
pub run-conserves :
    (ops : List Op) (b : Batcher)
    → IsKeyed b
    → (k : String)
    → String.◌++◌ (sent k (run ops b).1) (pending k (run ops b).0)
      ≡ String.◌++◌ (pending k b) (brought k ops)
unfolding run
run-conserves [] b keyed k = nil-append (pending k b) ∙ sym (append-nil (pending k b))
run-conserves (op ∷ ops) b keyed k =
    let b' = (step op b).0 in
    let (here, keyed') = step-conserves op b keyed in
    ap (λ t. String.◌++◌ t (pending k (run ops b').0)) (sent-append k (step op b).1 (run ops b').1)
    ∙ append_assoc (sent k (step op b).1) (sent k (run ops b').1) (pending k (run ops b').0)
    ∙ ap (λ t. String.◌++◌ (sent k (step op b).1) t) (run-conserves ops b' keyed' k)
    ∙ sym (append_assoc (sent k (step op b).1) (pending k b') (brought k ops))
    ∙ ap (λ t. String.◌++◌ t (brought k ops)) (here k)
    ∙ append_assoc (pending k b) (added k op) (brought k ops)
    ∙ ap (λ t. String.◌++◌ (pending k b) t) (sym (brought-cons k op ops))
