-- ===== src/Sse/Channel/Delivery.antt =====
-- Who receives a broadcast event.
use sarra.Common.{
  ℕ, String, ◌≡◌, refl, ◌∙◌, Bool, false, Option, some, List, [], ◌∷◌, ◌++◌, arith, any, ◌==◌, ◌&&◌,
  ◌||◌, if◌then◌else◌, Bool-cases, inl, inr,
}
use sarra.Sse.Batcher.{Event}
use sarra.Sse.Session.{Item, Session, enqueue}
use sarra.Sse.Channel.{
  Store, Live, set_session, add, distribute, next_number, ring_item, broadcast_event,
}

abbrev pub member : ℕ → List ℕ → Bool
member sid = any (λ j. sid == j)

-- `sessions` is a set.
abbrev pub IsDistinct : List ℕ → Type 0
IsDistinct [] = Unit
IsDistinct (x ∷ xs) = (member x xs ≡ false) × IsDistinct xs

member-append :
    (sid : ℕ) (xs ys : List ℕ) → member sid (xs ++ ys) ≡ (member sid xs || member sid ys)
member-append sid [] ys = refl
member-append sid (x ∷ xs) ys = ground (arith, member-append sid xs ys)

IsDistinct-concat :
    (xs : List ℕ) (sid : ℕ) → IsDistinct xs → member sid xs ≡ false → IsDistinct (xs ++ sid ∷ [])
IsDistinct-concat [] sid d h = (refl, tt)
IsDistinct-concat (x ∷ xs) sid (p, d) h =
    (ground (arith, member-append x xs (sid ∷ [])), IsDistinct-concat xs sid d (ground arith))

-- `add` keeps the list a set and gives it one member more, if it was none before.
pub add-IsDistinct : (sid : ℕ) (xs : List ℕ) → IsDistinct xs → IsDistinct (add sid xs)
unfolding add
add-IsDistinct sid xs d = elim (Bool-cases (member sid xs)) [
  | inl old ↦ rw old d
  | inr new ↦ rw new (IsDistinct-concat xs sid d new)
]

pub member-add : (sid j : ℕ) (xs : List ℕ) → member j (add sid xs) ≡ (j == sid || member j xs)
unfolding add
member-add sid j xs = elim (Bool-cases (member sid xs)) [
  | inl old ↦ rw old (elim (Bool-cases (j == sid)) [
    | inl same ↦ let e : j ≡ sid = ground arith in rw e (rw old (ground arith))
    | inr other ↦ rw other refl
  ])
  | inr new ↦ rw new (rw (member-append j xs (sid ∷ [])) (ground arith))
]

-- One round of the loop, as another session sees it and as its own session does.
round_other :
    (wanted : ℕ → Bool) (s : Session) (sid j : ℕ) (store : Store)
    → (j == sid) ≡ false
    → (if wanted sid then set_session store sid s else store) j ≡ store j
round_other wanted s sid j store h = ground arith

round_own :
    (wanted : ℕ → Bool) (s : Session) (sid : ℕ) (store : Store)
    → (if wanted sid then set_session store sid s else store) sid
      ≡ (if wanted sid then s else store sid)
round_own wanted s sid store = ground arith

-- A broadcast reaches each session of the set that is wanted, once, and no other session.
pub distribute-at :
    (wanted : ℕ → Bool) (item : Item) (sids : List ℕ) (store : Store) (j : ℕ)
    → IsDistinct sids
    → distribute wanted item sids store j
      ≡ (if member j sids && wanted j then enqueue item (store j) else store j)
unfolding distribute
distribute-at wanted item [] store j d = refl
distribute-at wanted item (sid ∷ sids) store j (p, d) =
    let store' = if wanted sid then set_session store sid (enqueue item (store sid)) else store in
    distribute-at wanted item sids store' j d ∙ elim (Bool-cases (j == sid)) [
      | inl same ↦
          let e : j ≡ sid = ground arith in
          rw e (rw (p, round_own wanted (enqueue item (store sid)) sid store) (ground arith))
      | inr other ↦ rw (round_other wanted (enqueue item (store sid)) sid j store other, other) refl
    ]

-- An event that is broadcast is put, under its number, into the queue of each session of the channel
-- that the filter lets through, once; every other session is as it was.
pub broadcast_event-at :
    (now : String) (id : Option ℕ) (wanted : ℕ → Bool) (payload : Event) (live : Live) (j : ℕ)
    → IsDistinct live.channel.sessions
    → (broadcast_event now id wanted payload live).store j ≡ (
        let r = ring_item now (next_number id live.channel.next_seq).0 payload in
        if member j live.channel.sessions && wanted j
        then enqueue (r.frame, some r.event) (live.store j)
        else live.store j)
unfolding broadcast_event
broadcast_event-at now id wanted payload live j d =
    let r = ring_item now (next_number id live.channel.next_seq).0 payload in
    distribute-at wanted (r.frame, some r.event) live.channel.sessions live.store j d
