-- ===== src/Proxy/Route/Fetches.antt =====
-- src/proxy.rs: which requests may fetch usage from the upstream.
use ollamux.Base.{
  ℕ, ◌≡◌, refl, sym, ◌∙◌, subst, true, false, Option, some, List, if◌then◌else◌, bind-some, if-elim,
  option-elim, inl, inr, ◌⊎◌, Text, codes, text_eq, starts_with, strip_start, arith,
}
use ollamux.Snapshot.{Floats, UsageSnapshot}
use ollamux.Affinity.Identity.{Value}
use ollamux.Pool.{Pool}
use ollamux.Pool.Select.{healthy_any}
use ollamux.Pool.Info.{info, info_with_usage}
use ollamux.Usage.Tracker.{Clock, Tracker, fresh_snapshot, refresh}
use ollamux.Usage.Tracker
use ollamux.Proxy.{Body, proxy}
use ollamux.Proxy.Route.{
  Reply, Events, with_pool, keys_reply, usage_reply, health_reply, proxied_reply, dispatch, route,
  forces,
}

module _ {F : Type 0} (fl : Floats F) where
  -- Of the tracker's state only the pool may have changed.
  abbrev pub NoFetch : Tracker F → Tracker F → Type 0
  NoFetch t u = u ≡ record t { pool = u.pool }

  abbrev NeverFetches : {A : Type 0} → Tracker F → Option (Tracker F × A) → Type 0
  NeverFetches {A} t o = (u : Tracker F) (a : A) → o ≡ some (u, a) → NoFetch t u

  only_pool : (t u : Tracker F) (p : Pool) → with_pool fl t p ≡ u → NoFetch t u
  only_pool t u p e = subst (NoFetch t) e refl

  keys_reply-NeverFetches : (t : Tracker F) (now : ℕ) → NeverFetches t (keys_reply fl t now)
  unfolding keys_reply
  keys_reply-NeverFetches t now =
      option-elim (NeverFetches t) t.snapshot _ _
        (λ n u r made.
          let ((p, rows), read, made') = bind-some (info t.pool now) _ _ made in
          only_pool t u p (ground arith))
        (λ snap s u r made.
          let ((p, rows), joined, made') =
            bind-some (info_with_usage fl t.pool snap now) _ _ made in
          only_pool t u p (ground arith))

  get-fresh :
      (t : Tracker F) (snap : UsageSnapshot F) (e : Events F)
      → fresh_snapshot fl t (Clock.started e.clock) ≡ some snap
      → Tracker.get fl t e.contended e.others e.fetch e.clock ≡ some (t, snap)
  unfolding Tracker.get
  get-fresh t snap e fresh = rw (fresh, Tracker.get) refl

  usage_reply-fresh :
      (t : Tracker F) (query : Option Text) (snap : UsageSnapshot F) (e : Events F)
      → forces query ≡ false
      → fresh_snapshot fl t (Clock.started e.clock) ≡ some snap
      → NeverFetches t (usage_reply fl t query e)
  unfolding usage_reply
  usage_reply-fresh t query snap e calm fresh u r made =
      let ((v, s), fetched, made') =
        bind-some
          (if forces query
            then refresh fl t e.fetch e.clock
            else Tracker.get fl t e.contended e.others e.fetch e.clock)
          _ _ made in
      let got : (if forces query
            then refresh fl t e.fetch e.clock
            else Tracker.get fl t e.contended e.others e.fetch e.clock)
          ≡ some (t, snap) =
        if-elim (λ o. o ≡ some (t, snap)) (forces query) _ _ (λ f. absurd (ground arith))
          (λ f. get-fresh t snap e fresh) in
      let same : some (v, s) ≡ some (t, snap) = sym fetched ∙ got in
      only_pool t u t.pool (ground arith)

  module _ (from_slice : List ℕ → Option Value) (to_writer : Value → Option (List ℕ)) where
    proxied_reply-NeverFetches :
        (t : Tracker F) (body : Body) (sub_path : Text) (e : Events F)
        → NeverFetches t (proxied_reply fl from_slice to_writer t body sub_path e)
    unfolding proxied_reply
    proxied_reply-NeverFetches t body sub_path e u r made =
        let ((p, out), served, made') =
          bind-some
            (proxy from_slice to_writer t.pool body sub_path (Clock.started e.clock) e.rounds
              e.turns)
            _ _ made in
        only_pool t u p (ground arith)

    -- The tracker's snapshot, the time of its last attempt and its backoffs are left as they are by
    -- every request but one for `/_usage`, and by that one too, as long as the snapshot is younger
    -- than the TTL and the query forces no refresh.
    pub route-NoFetch :
        (t u : Tracker F) (body : Body) (path : Text) (query : Option Text) (e : Events F)
        (r : Reply F)
        → (text_eq (strip_start b'/' path) (codes "_usage") ≡ false)
          ⊎ ((forces query ≡ false)
              × (snap : UsageSnapshot F) × (fresh_snapshot fl t (Clock.started e.clock)
                  ≡ some snap))
        → route fl from_slice to_writer t body path query e ≡ some (u, r)
        → NoFetch t u
    unfolding route dispatch health_reply
    route-NoFetch t u body path query e r calm made =
        if-elim (NeverFetches t) (text_eq sub (codes "_keys")) _ _
          (λ a. keys_reply-NeverFetches t (Clock.started e.clock))
          (λ a.
            if-elim (NeverFetches t) (text_eq sub (codes "_usage")) _ _ (λ b. usage_asked b calm)
              λ b.
                if-elim (NeverFetches t) (text_eq sub (codes "_health")) _ _
                  (λ c v s m.
                    only_pool t v (healthy_any t.pool (Clock.started e.clock)).0 (ground arith))
                  λ c.
                    if-elim (NeverFetches t) (starts_with sub (codes "api/")) _ _ (λ d. proxying)
                      λ d.
                        if-elim (NeverFetches t) (starts_with sub (codes "v1/")) _ _ (λ d. proxying)
                          λ d. (λ v s m. only_pool t v t.pool (ground arith)))
          u r made
      where
        sub : Text
        sub = strip_start b'/' path

        proxying : NeverFetches t (proxied_reply fl from_slice to_writer t body sub e)
        proxying = proxied_reply-NeverFetches t body sub e

        usage_asked :
            text_eq sub (codes "_usage") ≡ true
            → (text_eq sub (codes "_usage") ≡ false)
              ⊎ ((forces query ≡ false)
                  × (snap : UsageSnapshot F) × (fresh_snapshot fl t (Clock.started e.clock)
                      ≡ some snap))
            → NeverFetches t (usage_reply fl t query e)
        usage_asked b (inl other) = absurd (ground arith)
        usage_asked b (inr (calm, snap, fresh)) = usage_reply-fresh t query snap e calm fresh
