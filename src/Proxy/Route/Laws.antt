-- ===== src/Proxy/Route/Laws.antt =====
-- src/proxy.rs: what a request leaves of the server's state, over all endpoints.
use ollamux.Base.{
  ℕ, ◌≡◌, refl, subst, Option, some, List, All, if◌then◌else◌, bind-some, if-elim, option-elim,
  Text, codes, text_eq, starts_with, strip_start, split_once, arith,
}
use ollamux.Snapshot.{Floats}
use ollamux.Affinity.Identity.{Value}
use ollamux.Pool.Admit.Held.{Fits, SameSlots}
use ollamux.Pool.Admit.Conservation.{Steady}
use ollamux.Pool.Info.{info, info_with_usage}
use ollamux.Usage.Tracker.{
  Fetched, Clock, Tracker, RoundResult, conclude, do_fetch_inner, round_rows, wait_or_peek, refresh,
  fresh_snapshot, attempt_cooldown_left,
}
use ollamux.Usage.Tracker
use ollamux.Proxy.{Body, proxy}
use ollamux.Proxy.Slots.{SteadyTurn}
use ollamux.Proxy.Balance.{proxy-SameSlots}
use ollamux.Proxy.Route.{
  Reply, Events, path_and_query, with_pool, keys_reply, usage_reply, health_reply, proxied_reply,
  dispatch, route, handle, forces, not_found,
}
use ollamux.Proxy.Route.Slots.{
  info-SameSlots, healthy_any-SameSlots, KeepsSlots, done-KeepsSlots, refresh-KeepsSlots,
  get-KeepsSlots, SteadyFetch,
}

module _ {F : Type 0} (fl : Floats F) where
  usage_reply-KeepsSlots :
      (t : Tracker F) (query : Option Text) (e : Events F)
      → SteadyFetch fl e.others
      → KeepsSlots fl t (usage_reply fl t query e)
  unfolding usage_reply
  usage_reply-KeepsSlots t query e steady u r made =
      let ((v, snap), fetched, made') =
        bind-some
          (if forces query
            then refresh fl t e.fetch e.clock
            else Tracker.get fl t e.contended e.others e.fetch e.clock)
          _ _ made in
      subst (λ w. SameSlots t.pool (Tracker.pool w)) {x = v} {y = u} (ground arith)
        (if-elim (KeepsSlots fl t) (forces query) _ _ (λ f. refresh-KeepsSlots fl t e.fetch e.clock)
          (λ f. get-KeepsSlots fl t e.contended e.others e.fetch e.clock steady) v snap fetched)

  keys_reply-KeepsSlots : (t : Tracker F) (now : ℕ) → KeepsSlots fl t (keys_reply fl t now)
  unfolding keys_reply info_with_usage
  keys_reply-KeepsSlots t now =
      option-elim (KeepsSlots fl t) t.snapshot _ _
        (λ n u r made.
          let ((p, rows), read, made') = bind-some (info t.pool now) _ _ made in
          subst (λ w. SameSlots t.pool (Tracker.pool w)) {x = with_pool fl t p} {y = u}
            (ground arith) (info-SameSlots t.pool p now rows read))
        (λ snap s u r made.
          let ((p, rows), joined, made') =
            bind-some (info_with_usage fl t.pool snap now) _ _ made in
          let ((q, infos), read, made'') = bind-some (info t.pool now) _ _ joined in
          subst (λ w. SameSlots t.pool (Tracker.pool w)) {x = with_pool fl t q} {y = u}
            (ground arith) (info-SameSlots t.pool q now infos read))

  module _ (from_slice : List ℕ → Option Value) (to_writer : Value → Option (List ℕ)) where
    proxied_reply-KeepsSlots :
        (t : Tracker F) (body : Body) (sub_path : Text) (e : Events F)
        → Fits t.pool
        → All Steady e.rounds
        → All SteadyTurn e.turns
        → KeepsSlots fl t (proxied_reply fl from_slice to_writer t body sub_path e)
    unfolding proxied_reply
    proxied_reply-KeepsSlots t body sub_path e fits steady turns u r made =
        let ((p, out), served, made') =
          bind-some
            (proxy from_slice to_writer t.pool body sub_path (Clock.started e.clock) e.rounds
              e.turns)
            _ _ made in
        subst (λ w. SameSlots t.pool (Tracker.pool w)) {x = with_pool fl t p} {y = u} (ground arith)
          (proxy-SameSlots from_slice to_writer t.pool p body sub_path (Clock.started e.clock)
            e.rounds e.turns out fits steady turns served)

    dispatch-KeepsSlots :
        (t : Tracker F) (body : Body) (path : Text) (query : Option Text) (e : Events F)
        → Fits t.pool
        → All Steady e.rounds
        → All SteadyTurn e.turns
        → SteadyFetch fl e.others
        → KeepsSlots fl t (dispatch fl from_slice to_writer t body path query e)
    unfolding dispatch health_reply
    dispatch-KeepsSlots t body path query e fits steady turns others =
        let proxying = proxied_reply-KeepsSlots t body path e fits steady turns in
        if-elim (KeepsSlots fl t) (text_eq path (codes "_keys")) _ _
          (λ a. keys_reply-KeepsSlots t (Clock.started e.clock))
          λ a.
            if-elim (KeepsSlots fl t) (text_eq path (codes "_usage")) _ _
              (λ b. usage_reply-KeepsSlots t query e others)
              λ b.
                if-elim (KeepsSlots fl t) (text_eq path (codes "_health")) _ _
                  (λ c.
                    done-KeepsSlots fl t _ _ (healthy_any-SameSlots t.pool (Clock.started e.clock)))
                  λ c.
                    if-elim (KeepsSlots fl t) (starts_with path (codes "api/")) _ _ (λ d. proxying)
                      λ d.
                        if-elim (KeepsSlots fl t) (starts_with path (codes "v1/")) _ _
                          (λ d. proxying) λ d. done-KeepsSlots fl t t not_found (λ i. refl)

    -- Whatever a request asks for, an endpoint of the proxy's own, a proxied path or neither, each
    -- key holds as many slots after it as before it. The other threads are taken to leave the slots
    -- as they are meanwhile, and a key to have fewer than 2^32.
    pub handle-SameSlots :
        (t u : Tracker F) (body : Body) (url : Text) (e : Events F) (r : Reply F)
        → Fits t.pool
        → All Steady e.rounds
        → All SteadyTurn e.turns
        → SteadyFetch fl e.others
        → handle fl from_slice to_writer t body url e ≡ some (u, r)
        → SameSlots t.pool u.pool
    unfolding handle route
    handle-SameSlots t u body url e r fits steady turns others made =
        let (path, query) = path_and_query fl from_slice to_writer url (split_once b'?' url) in
        dispatch-KeepsSlots t body (strip_start b'/' path) query e fits steady turns others u r made
