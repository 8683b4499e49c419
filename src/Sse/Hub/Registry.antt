-- ===== src/Sse/Hub/Registry.antt =====
-- The two sides of a registration.
use sarra.Common.{
  ℕ, String, ◌≡◌, ◌≢◌, refl, ◌∙◌, ap, sym, Bool, true, false, not, Option, none, some, List, [],
  ◌∷◌, arith, any, filter, ◌==◌, ◌&&◌, str_eq, eq_iff, Bool-cases, Option-cases, inl, inr,
}
use sarra.Common.Dict
use sarra.Sse.Session.{Session}
use sarra.Sse.Channel
use sarra.Sse.Channel.{Channel, Live, set_session}
use sarra.Sse.Channel.Delivery.{member}
use sarra.Sse.Hub.{Hub, put_live, deregister, deregister_all, set_store, put_end, close}

abbrev pub has_name : String → List String → Bool
has_name name = any (λ j. str_eq name j)

-- Is the session among those of the channel with this name?
abbrev members : ℕ → Option Channel → Bool
members sid none = false
members sid (some ch) = member sid ch.sessions

abbrev pub registered : ℕ → String → Hub → Bool
registered sid name hub = members sid (Dict.get hub.channels name)

-- Each channel stands under its own name, and holds exactly the sessions that name it.
pub record IsLinked (hub : Hub) : Type 0 where
  pub named : (name : String) (ch : Channel) → Dict.get hub.channels name ≡ some ch → ch.name ≡ name
  pub mutual_ :
      (sid : ℕ) (name : String) → registered sid name hub ≡ has_name name (hub.store sid).channels

member-filter :
    (sid j : ℕ) (xs : List ℕ)
    → member j (filter (λ x. not (sid == x)) xs) ≡ (member j xs && not (sid == j))
member-filter sid j [] = refl
member-filter sid j (x ∷ xs) = ground (arith, member-filter sid j xs)

has_name-filter :
    (name n : String) (xs : List String)
    → has_name n (filter (λ x. not (str_eq name x)) xs) ≡ (has_name n xs && not (str_eq name n))
has_name-filter name n [] = refl
has_name-filter name n (x ∷ xs) =
    ground (arith, has_name-filter name n xs, eq_iff n x, eq_iff name x, eq_iff name n)

module _ (sid : ℕ) (name : String) (hub : Hub) where
  deregister_missing : Dict.get hub.channels name ≡ none → deregister sid name hub ≡ hub
  unfolding deregister
  deregister_missing e = rw (e, deregister) refl

  deregister_found :
      (ch : Channel)
      → Dict.get hub.channels name ≡ some ch
      → deregister sid name hub
        ≡ put_live name (Channel.deregister sid (record { channel = ch; store = hub.store })) hub
  unfolding deregister
  deregister_found ch e = rw (e, deregister) refl

  -- The channel's side of a deregistration.
  registered-deregister :
      (j : ℕ) (n : String)
      → registered j n (deregister sid name hub)
        ≡ (registered j n hub && not (sid == j && str_eq name n))
  registered-deregister j n = elim (Option-cases (Dict.get hub.channels name)) [
    | inl e ↦ rw (deregister_missing e) (ground (arith, e, eq_iff name n))
    | inr (ch, e) ↦ rw (deregister_found ch e) (
        unfold put_live Channel.deregister in
        ground (
          arith,
          e,
          eq_iff name n,
          member-filter sid j ch.sessions,
          Dict.get-put hub.channels name
              (Channel.deregister sid (record { channel = ch; store = hub.store })).channel n,
        ))
  ]

  -- The session's side, where the two agree before.
  names-deregister :
      IsLinked hub
      → (j : ℕ) (n : String)
      → has_name n ((deregister sid name hub).store j).channels
        ≡ (has_name n (hub.store j).channels && not (sid == j && str_eq name n))
  names-deregister h j n = elim (Option-cases (Dict.get hub.channels name)) [
    | inl e ↦ rw (deregister_missing e) (ground (arith, e, eq_iff name n, h.mutual_ sid name))
    | inr (ch, e) ↦ rw (deregister_found ch e) (
        unfold put_live Channel.deregister in
        ground
          (arith, h.named name ch e, eq_iff name n, has_name-filter name n (hub.store j).channels))
  ]

  named-deregister :
      IsLinked hub
      → (n : String) (c : Channel) → Dict.get (deregister sid name hub).channels n ≡ some c
      → c.name ≡ n
  named-deregister h n c = elim (Option-cases (Dict.get hub.channels name)) [
    | inl e ↦ rw (deregister_missing e) (h.named n c)
    | inr (ch, e) ↦ rw (deregister_found ch e) (
        unfold put_live Channel.deregister in
        λ p. ground (
          arith,
          h.named name ch e,
          h.named n c,
          eq_iff name n,
          Dict.get-put hub.channels name
              (Channel.deregister sid (record { channel = ch; store = hub.store })).channel n,
        ))
  ]

  pub deregister-IsLinked : IsLinked hub → IsLinked (deregister sid name hub)
  deregister-IsLinked h = record {
    named = named-deregister h;
    mutual_ = λ j n.
        registered-deregister j n
        ∙ ap (λ b. b && not (sid == j && str_eq name n)) (h.mutual_ j n)
        ∙ sym (names-deregister h j n);
  }

deregister_all-IsLinked :
    (sid : ℕ) (names : List String) (hub : Hub)
    → IsLinked hub
    → IsLinked (deregister_all sid names hub)
unfolding deregister_all
deregister_all-IsLinked sid [] hub h = h
deregister_all-IsLinked sid (name ∷ names) hub h =
    deregister_all-IsLinked sid names (deregister sid name hub) (deregister-IsLinked sid name hub h)

registered-deregister_all :
    (sid : ℕ) (names : List String) (hub : Hub) (j : ℕ) (n : String)
    → registered j n (deregister_all sid names hub)
      ≡ (registered j n hub && not (sid == j && has_name n names))
unfolding deregister_all
registered-deregister_all sid [] hub j n = ground arith
registered-deregister_all sid (name ∷ names) hub j n = ground (
  arith,
  registered-deregister_all sid names (deregister sid name hub) j n,
  registered-deregister sid name hub j n,
  eq_iff name n,
  eq_iff n name,
)

-- A session that is replaced by one with the same channels.
set_store-IsLinked :
    (sid : ℕ) (s : Session) (hub : Hub)
    → s.channels ≡ (hub.store sid).channels
    → IsLinked hub
    → IsLinked (set_store sid s hub)
set_store-IsLinked sid s hub e h = record {
  named = h.named;
  mutual_ = λ j n. elim (Bool-cases (sid == j)) [
    | inl same ↦
        let own : sid ≡ j = ground arith in
        rw same (rw (← own) (h.mutual_ sid n ∙ ap (has_name n) (sym e)))
    | inr different ↦ rw different (h.mutual_ j n)
  ];
}

deregister-is_connected :
    (sid : ℕ) (name : String) (hub : Hub) (j : ℕ)
    → ((deregister sid name hub).store j).is_connected ≡ (hub.store j).is_connected
deregister-is_connected sid name hub j = elim (Option-cases (Dict.get hub.channels name)) [
  | inl e ↦ rw (deregister_missing sid name hub e) refl
  | inr (ch, e) ↦
      rw (deregister_found sid name hub ch e) (unfold put_live Channel.deregister in ground arith)
]

deregister_all-is_connected :
    (sid : ℕ) (names : List String) (hub : Hub) (j : ℕ)
    → ((deregister_all sid names hub).store j).is_connected ≡ (hub.store j).is_connected
unfolding deregister_all
deregister_all-is_connected sid [] hub j = refl
deregister_all-is_connected sid (name ∷ names) hub j =
    deregister_all-is_connected sid names (deregister sid name hub) j
    ∙ deregister-is_connected sid name hub j

put_end_frame :
    (s : Session)
    → ((put_end s).channels ≡ s.channels) × ((put_end s).is_connected ≡ s.is_connected)
unfolding put_end
put_end_frame s = ground arith

module _ (sid : ℕ) (hub : Hub) (h : IsLinked hub) where
  abbrev marked : Hub
  marked = set_store sid (record (hub.store sid) { is_connected = false }) hub

  abbrev unregistered : Hub
  unregistered = deregister_all sid (hub.store sid).channels marked

  marked-IsLinked : IsLinked marked
  marked-IsLinked =
      set_store-IsLinked sid (record (hub.store sid) { is_connected = false }) hub refl h

  close_open :
      (hub.store sid).is_connected ≡ true
      → close sid hub ≡ set_store sid (put_end (unregistered.store sid)) unregistered
  unfolding close
  close_open e = rw e refl

  close_again : (hub.store sid).is_connected ≡ false → close sid hub ≡ hub
  unfolding close
  close_again e = rw e refl

  pub close-IsLinked : IsLinked (close sid hub)
  close-IsLinked = elim (Bool-cases (hub.store sid).is_connected) [
    | inl on ↦ rw (close_open on) (
        set_store-IsLinked sid (put_end (unregistered.store sid)) unregistered
          (put_end_frame (unregistered.store sid)).0
          (deregister_all-IsLinked sid (hub.store sid).channels marked marked-IsLinked))
    | inr off ↦ rw (close_again off) h
  ]

  -- Closing a connected session of a hub in which registrations agree: afterwards it is not connected
  -- and no channel holds it, every other session is registered where it was, and registrations agree.
  pub close_unregisters :
      (hub.store sid).is_connected ≡ true
      → (((close sid hub).store sid).is_connected ≡ false)
        × ((n : String) → registered sid n (close sid hub) ≡ false)
        × ((j : ℕ) (n : String) → sid ≢ j → registered j n (close sid hub) ≡ registered j n hub)
        × IsLinked (close sid hub)
  close_unregisters on = (
    rw (close_open on) (
        ground (
          arith,
          (put_end_frame (unregistered.store sid)).1,
          deregister_all-is_connected sid (hub.store sid).channels marked sid,
        )),
    λ n. rw (close_open on) (
        ground (
          arith,
          registered-deregister_all sid (hub.store sid).channels marked sid n,
          h.mutual_ sid n,
        )),
    λ j n ne.
        rw (close_open on)
          (ground (arith, registered-deregister_all sid (hub.store sid).channels marked j n)),
    close-IsLinked,
  )
