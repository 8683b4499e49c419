-- ===== src/Sse/Hub/Isolation.antt =====
-- Which channels a broadcast of the hub touches.
use sarra.Common.{
  String, ◌≡◌, ◌≢◌, refl, ◌∙◌, Bool, true, false, none, some, arith, str_eq, eq_iff, length, ltb,
  Option-cases, Bool-cases, inl, inr,
}
use sarra.Common.Dict
use sarra.Sse.Frame.{Data}
use sarra.Sse.Channel.{Channel, Live}
use sarra.Sse.Hub.{
  Hub, get_channel, new_channel, put_live, on_channel, aggregate_name, subtab_name, broadcast_on,
  mirror, broadcast_to_subtab, broadcast_to_project,
}

module _ (name : String) (hub : Hub) where
  get_channel_found :
      (create : Bool) (ch : Channel)
      → Dict.get hub.channels name ≡ some ch
      → get_channel name create hub ≡ (hub, some ch)
  unfolding get_channel
  get_channel_found create ch e = rw (e, get_channel) refl

  get_channel_new :
      Dict.get hub.channels name ≡ none
      → get_channel name true hub ≡ (
        record hub { channels = Dict.put hub.channels name (new_channel name) },
        some (new_channel name),
      )
  unfolding get_channel
  get_channel_new e = rw (e, get_channel) refl

  -- A channel operation leaves every channel of another name as it was.
  pub on_channel-other :
      (f : Live → Live) (n : String)
      → name ≢ n
      → Dict.get (on_channel name f hub).channels n ≡ Dict.get hub.channels n
  unfolding on_channel put_live
  on_channel-other f n ne = elim (Option-cases (Dict.get hub.channels name)) [
    | inl e ↦
        let hub' = record hub { channels = Dict.put hub.channels name (new_channel name) } in
        rw (get_channel_new e, on_channel)
          (rw (get_channel_new e) (
            ground (
              arith,
              eq_iff name n,
              Dict.get-put hub.channels name (new_channel name) n,
              Dict.get-put hub'.channels name
                  (f (record { channel = new_channel name; store = hub.store })).channel n,
            )))
    | inr (ch, e) ↦
        rw (get_channel_found true ch e, on_channel)
          (rw (get_channel_found true ch e) (
            ground (
              arith,
              eq_iff name n,
              Dict.get-put hub.channels name
                  (f (record { channel = ch; store = hub.store })).channel n,
            )))
  ]

  get_channel-other :
      (n : String)
      → name ≢ n
      → Dict.get (get_channel name true hub).0.channels n ≡ Dict.get hub.channels n
  get_channel-other n ne = elim (Option-cases (Dict.get hub.channels name)) [
    | inl e ↦
        rw (get_channel_new e)
          (ground (arith, eq_iff name n, Dict.get-put hub.channels name (new_channel name) n))
    | inr (ch, e) ↦ rw (get_channel_found true ch e) refl
  ]

module _ (loop_running : Bool) (now project_id : String) (data_ : Data) (event : String) (hub : Hub)
    (n : String) where
  -- `broadcast_to_project` leaves every channel but the project's aggregate channel as it was; the
  -- channels of the project's subtabs get nothing.
  broadcast_to_project-other :
      aggregate_name project_id ≢ n
      → Dict.get (broadcast_to_project loop_running now project_id data_ event hub).channels n
        ≡ Dict.get hub.channels n
  unfolding broadcast_to_project broadcast_on
  broadcast_to_project-other ne = on_channel-other (aggregate_name project_id) hub _ n ne

  mirror-other :
      (subtab : String)
      → aggregate_name project_id ≢ n
      → Dict.get (mirror loop_running now project_id subtab data_ event hub).channels n
        ≡ Dict.get hub.channels n
  unfolding mirror broadcast_on
  mirror-other subtab ne =
      elim (Option-cases (get_channel (aggregate_name project_id) true hub).1) [
        | inl e ↦ rw (e, mirror) (get_channel-other (aggregate_name project_id) hub n ne)
        | inr (ch, e) ↦
            rw (e, mirror)
              (elim (Bool-cases (ltb 0 (length ch.sessions))) [
                | inl heard ↦ rw heard (
                    on_channel-other (aggregate_name project_id)
                      (get_channel (aggregate_name project_id) true hub).0 _ n ne
                    ∙ get_channel-other (aggregate_name project_id) hub n ne)
                | inr silent ↦ rw silent (get_channel-other (aggregate_name project_id) hub n ne)
              ])
      ]

-- `broadcast_to_subtab` leaves every channel but that of the subtab and the project's aggregate
-- channel as it was, and for the subtab "all" also the aggregate channel. `broadcast_to_project`
-- leaves every channel but the aggregate channel as it was, those of the project's subtabs too.
pub broadcast_to_subtab-other :
    (loop_running : Bool) (now project_id subtab : String) (data_ : Data) (event : String)
    (hub : Hub) (n : String)
    → subtab_name project_id subtab ≢ n
    → (str_eq subtab "all" ≡ false → aggregate_name project_id ≢ n)
    → (Dict.get (broadcast_to_subtab loop_running now project_id subtab data_ event hub).channels n
        ≡ Dict.get hub.channels n)
      × (aggregate_name project_id ≢ n
          → Dict.get (broadcast_to_project loop_running now project_id data_ event hub).channels n
            ≡ Dict.get hub.channels n)
unfolding broadcast_to_subtab broadcast_on
broadcast_to_subtab-other loop_running now project_id subtab data_ event hub n ne agg =
    let hub' = broadcast_on loop_running now (subtab_name project_id subtab) data_ event hub in
    (
      elim (Bool-cases (str_eq subtab "all")) [
        | inl all_ ↦ rw all_ (on_channel-other (subtab_name project_id subtab) hub _ n ne)
        | inr one ↦ rw one (
            mirror-other loop_running now project_id data_ event hub' n subtab (agg one)
            ∙ on_channel-other (subtab_name project_id subtab) hub _ n ne)
      ],
      broadcast_to_project-other loop_running now project_id data_ event hub n,
    )
