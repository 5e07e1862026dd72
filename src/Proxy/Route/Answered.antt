-- ===== src/Proxy/Route/Answered.antt =====
-- src/proxy.rs, src/usage.rs, src/pool.rs: every request gets an answer, whatever endpoint it asks
-- for.
use ollamux.Base.{
  ℕ, ◌+◌, ◌≤◌, ◌≡◌, refl, Option, some, ◌>>=◌, List, [], ◌∷◌, All, length, if-elim, option-elim,
  if◌then◌else◌, Text, codes, text_eq, starts_with, strip_start, split_once,
}
use ollamux.Snapshot.{Floats, UsageSnapshot}
use ollamux.Affinity.Identity.{Value}
use ollamux.Pool.Admit.Conservation.{Steady}
use ollamux.Pool.Admit.Held.{Fits, SameSlots}
use ollamux.Pool.Admit.Returns.{Returns}
use ollamux.Pool.Admit.Slots.{Ends}
use ollamux.Pool.Info.{info, info_with_usage}
use ollamux.Usage.Tracker.{
  Fetched, Clock, Tracker, round_rows, do_fetch_inner, wait_or_peek, refresh, fresh_snapshot,
  attempt_cooldown_left,
}
use ollamux.Usage.Tracker
use ollamux.Proxy.{Body, proxy, Turn, wait_timeout}
use ollamux.Proxy.Answered.{PinsInRange, proxy-Returns}
use ollamux.Proxy.Returns.{Ending, bind-Returns}
use ollamux.Proxy.Slots.{SteadyTurn}
use ollamux.Proxy.Route.{
  Reply, Events, path_and_query, keys_reply, usage_reply, proxied_reply, dispatch, route, handle,
  forces,
}
use ollamux.Proxy.Route.Laws.{handle-SameSlots}
use ollamux.Proxy.Route.Rounds.{Named, KeepsNames, info-Returns, refresh-Returns, get-Returns}
use ollamux.Proxy.Route.Slots.{SteadyFetch}

turns-Steady : (turns : List Turn) → All Ending turns → All SteadyTurn turns
turns-Steady [] ending = tt
turns-Steady (t ∷ turns) ((steady, ends), ending) = (steady, turns-Steady turns ending)

module _ {F : Type 0} (fl : Floats F) where
  keys_reply-Returns : (t : Tracker F) (now : ℕ) → Named t.pool → Returns (keys_reply fl t now)
  unfolding keys_reply info_with_usage
  keys_reply-Returns t now named =
      option-elim (Returns {A = Tracker F × Reply F}) t.snapshot _ _
        (λ n. bind-Returns (info t.pool now) _ (info-Returns t.pool now named) (λ r e. (_, refl)))
        (λ snap s.
          bind-Returns (info t.pool now >>= _) _
            (bind-Returns (info t.pool now) _ (info-Returns t.pool now named) (λ r e. (_, refl)))
            (λ r e. (_, refl)))

  usage_reply-Returns :
      (t : Tracker F) (query : Option Text) (e : Events F)
      → Named t.pool
      → KeepsNames e.others
      → Returns (usage_reply fl t query e)
  unfolding usage_reply
  usage_reply-Returns t query e named kept =
      bind-Returns
        (if forces query
          then refresh fl t e.fetch e.clock
          else Tracker.get fl t e.contended e.others e.fetch e.clock)
        _
        (if-elim (Returns {A = Tracker F × UsageSnapshot F}) (forces query) _ _
          (λ f. refresh-Returns fl t e.fetch e.clock named)
          (λ f. get-Returns fl t e.contended e.others e.fetch e.clock named kept))
        (λ r made. (_, refl))

  -- The requests of the others leave the slots and the keys, and those of this one come to an end:
  -- three turns are granted, and in each wait a reading of the clock is at or past the deadline.
  pub record Granted (e : Events F) : Type 0 where
    pub others_steady : SteadyFetch fl e.others
    pub others_named : KeepsNames e.others
    pub rounds_steady : All Steady e.rounds
    pub rounds_end : Ends (Clock.started e.clock + wait_timeout) e.rounds
    pub turns_end : All Ending e.turns
    pub enough : 3 ≤ length e.turns

  module _ (from_slice : List ℕ → Option Value) (to_writer : Value → Option (List ℕ)) where
    proxied_reply-Returns :
        (t : Tracker F) (body : Body) (sub_path : Text) (e : Events F)
        → Fits t.pool
        → PinsInRange t.pool
        → Granted e
        → Returns (proxied_reply fl from_slice to_writer t body sub_path e)
    unfolding proxied_reply
    proxied_reply-Returns t body sub_path e fits pins g =
        bind-Returns
          (proxy from_slice to_writer t.pool body sub_path (Clock.started e.clock) e.rounds e.turns)
          _
          (proxy-Returns from_slice to_writer t.pool body sub_path (Clock.started e.clock) e.rounds
            e.turns fits pins g.rounds_steady g.rounds_end g.turns_end g.enough)
          (λ r made. (_, refl))

    dispatch-Returns :
        (t : Tracker F) (body : Body) (path : Text) (query : Option Text) (e : Events F)
        → Fits t.pool
        → PinsInRange t.pool
        → Named t.pool
        → Granted e
        → Returns (dispatch fl from_slice to_writer t body path query e)
    unfolding dispatch
    dispatch-Returns t body path query e fits pins named g =
        let proxying = proxied_reply-Returns t body path e fits pins g in
        if-elim (Returns {A = Tracker F × Reply F}) (text_eq path (codes "_keys")) _ _
          (λ a. keys_reply-Returns t (Clock.started e.clock) named)
          λ a.
            if-elim (Returns {A = Tracker F × Reply F}) (text_eq path (codes "_usage")) _ _
              (λ b. usage_reply-Returns t query e named g.others_named)
              λ b.
                if-elim (Returns {A = Tracker F × Reply F}) (text_eq path (codes "_health")) _ _
                  (λ c. (_, refl))
                  λ c.
                    if-elim (Returns {A = Tracker F × Reply F}) (starts_with path (codes "api/")) _
                      _ (λ d. proxying)
                      λ d.
                        if-elim (Returns {A = Tracker F × Reply F}) (starts_with path (codes "v1/"))
                          _ _ (λ d. proxying) λ d. (_, refl)

    handle-Returns :
        (t : Tracker F) (body : Body) (url : Text) (e : Events F)
        → Fits t.pool
        → PinsInRange t.pool
        → Named t.pool
        → Granted e
        → Returns (handle fl from_slice to_writer t body url e)
    unfolding handle route
    handle-Returns t body url e fits pins named g =
        let (path, query) = path_and_query fl from_slice to_writer url (split_once b'?' url) in
        dispatch-Returns t body (strip_start b'/' path) query e fits pins named g

    -- Every request gets an answer, and leaves each key as many slots in use as before, whatever its
    -- URL and body are, an endpoint of the proxy's own, a proxied path with or without a key, or
    -- neither, and whatever the upstream answers, the fetches of the quota come to and the waits for
    -- a slot end in. The pool is taken to have a key for each state, fewer than 2^32 slots a key, and
    -- pins to its keys only; the other threads to leave the slots as they are meanwhile, and each
    -- state its key; three turns to be granted; and in each wait a reading of the clock to be at or past
    -- the deadline.
    pub handle-Answered :
        (t : Tracker F) (body : Body) (url : Text) (e : Events F)
        → Fits t.pool
        → PinsInRange t.pool
        → Named t.pool
        → Granted e
        → (u : Tracker F) × (r : Reply F) × (handle fl from_slice to_writer t body url e
            ≡ some (u, r))
          × SameSlots t.pool u.pool
    handle-Answered t body url e fits pins named g =
        let ((u, r), made) = handle-Returns t body url e fits pins named g in
        (
          u,
          r,
          made,
          handle-SameSlots fl from_slice to_writer t u body url e r fits g.rounds_steady
              (turns-Steady e.turns g.turns_end) g.others_steady made,
        )
