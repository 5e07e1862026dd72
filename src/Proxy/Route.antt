-- ===== src/Proxy/Route.antt =====
-- src/proxy.rs: `handle` and `route`, and what the endpoints of the proxy itself answer. The server's
-- state is the usage tracker, which has the pool; JSON is a tree of records here, its text is
-- left out. The log line of `handle` is left out, too.
pub mod Slots
pub mod Laws
pub mod Rounds
pub mod Answered
pub mod Fetches
pub mod Tests
use ollamux.Base.{
  ℕ, suc, ◌-◌, Bool, true, false, not, ◌&&◌, Option, none, some, ◌>>=◌, List, [], ◌∷◌, ◌++◌, map,
  any, length, get_elem?, range_from, leb, if◌then◌else◌, Text, String, codes, text_eq, starts_with,
  split, split_once, strip_start,
}
use ollamux.Snapshot.{Floats, KeyUsage, UsageSnapshot}
use ollamux.Tiers.{Tier, tier_for}
use ollamux.Affinity.Identity.{Value}
use ollamux.Pool.{Pool, as_secs, total_slots, concurrencies}
use ollamux.Pool.Quota.{UsageBrief}
use ollamux.Pool.Select.{healthy_any}
use ollamux.Pool.Admit.{Round}
use ollamux.Pool.Info.{KeyInfo, info, info_with_usage}
use ollamux.Usage.{usage_ttl}
use ollamux.Usage.Aggregate.{UsageAggregate, aggregate, get_or_one}
use ollamux.Usage.Tracker.{Fetched, Clock, Tracker, updated_unix, refresh}
use ollamux.Usage.Tracker
use ollamux.Proxy.{Body, Turn, Outcome, plain, proxy}

-- A part of a query without `=` has an empty value.
abbrev pub key_value : Text → Option (Text × Text) → Text × Text
key_value kv none = (kv, [])
key_value kv (some (k, v)) = (k, v)

abbrev pub asks_refresh : Text × Text → Bool
asks_refresh (k, v) =
    text_eq k (codes "refresh") && not (text_eq v (codes "0")) && not (text_eq v (codes "false"))

-- Whether the query of `/_usage` forces a refresh.
unfoldable pub forces : Option Text → Bool
unfolding split split_once text_eq
forces none = false
forces (some q) = any (λ kv. asks_refresh (key_value kv (split_once b'=' kv))) (split b'&' q)

-- A row of `/_usage`: that of the snapshot, or of a key that the snapshot does not have.
pub data UsageRow (F : Type 0) : Type 0 where
  reported : KeyUsage F → String → UsageRow F
  missing : ℕ → String → UsageRow F

pub record UsageReport (F : Type 0) : Type 0 where
  pub updated : ℕ
  pub age_s : ℕ
  pub stale : Bool
  pub aggregate : UsageAggregate F
  pub keys : List (UsageRow F)

pub record Health : Type 0 where
  pub is_ok : Bool
  pub keys : ℕ
  pub total_slots : ℕ

-- The answer to a request.
pub data Reply (F : Type 0) : Type 0 where
  keys : List KeyInfo → Reply F
  keys_with_usage : List (KeyInfo × Option (UsageBrief F)) → Reply F
  usage : UsageReport F → Reply F
  health : Health → Reply F
  not_found : Reply F
  proxied : Outcome → Reply F

abbrev pub local_status : {F : Type 0} → Reply F → ℕ
local_status not_found = 404
local_status (proxied out) = out.status
local_status (keys rows) = 200
local_status (keys_with_usage rows) = 200
local_status (usage report) = 200
local_status (health h) = 200

-- What happens while a request is served: the clock of a fetch, whether another thread fetches
-- already and what it makes of the tracker, the fetches, the rounds of the admission, the turns.
pub record Events (F : Type 0) : Type 0 where
  pub clock : Clock
  pub contended : Bool
  pub others : Tracker F → Tracker F
  pub fetch : ℕ → Option (Fetched F)
  pub rounds : List Round
  pub turns : List Turn

module _ {F : Type 0} (fl : Floats F) where
  unfoldable pub tier_of : List ℕ → ℕ → String
  unfolding tier_for
  tier_of concurrencies i = (tier_for (get_or_one (get_elem? concurrencies i))).name

  -- `usage_json`
  unfoldable pub usage_report : UsageSnapshot F → Clock → Pool → UsageReport F
  unfolding tier_of aggregate updated_unix
  usage_report snap c p =
      let age_s = as_secs (c.ended - snap.fetched_at) in
      record {
        updated = updated_unix snap c;
        age_s = age_s;
        stale = leb (as_secs usage_ttl) age_s;
        aggregate = aggregate fl snap (concurrencies p);
        keys =
            map (λ k. reported k (tier_of (concurrencies p) (KeyUsage.index k))) snap.keys
            ++ map (λ i. missing i (tier_of (concurrencies p) i))
                (range_from (length snap.keys) (length p.states - length snap.keys));
      }

  abbrev pub with_pool : Tracker F → Pool → Tracker F
  with_pool t p = record t { pool = p }

  -- `/_keys`: usage columns only if there is a snapshot, and no fetch.
  unfoldable pub keys_reply : Tracker F → ℕ → Option (Tracker F × Reply F)
  unfolding info info_with_usage
  keys_reply t now = elim t.snapshot [
    | some snap ↦ info_with_usage fl t.pool snap now >>= λ (p, rows).
        some (with_pool t p, keys_with_usage rows)
    | none ↦ info t.pool now >>= λ (p, rows). some (with_pool t p, keys rows)
  ]

  abbrev pub report_of : Clock → Tracker F × UsageSnapshot F → Tracker F × Reply F
  report_of c (t, snap) = (t, usage (usage_report snap c t.pool))

  -- `/_usage`
  unfoldable pub usage_reply : Tracker F → Option Text → Events F → Option (Tracker F × Reply F)
  unfolding forces refresh Tracker.get usage_report
  usage_reply t query e =
      (if forces query
        then refresh fl t e.fetch e.clock
        else Tracker.get fl t e.contended e.others e.fetch e.clock)
      >>= λ r. some (report_of e.clock r)

  -- `/_health`
  unfoldable pub health_reply : Tracker F → ℕ → Tracker F × Reply F
  unfolding healthy_any total_slots
  health_reply t now =
      let r = healthy_any t.pool now in
      (
        with_pool t r.0,
        health
            (record { is_ok = r.1; keys = length r.0.keys; total_slots = total_slots r.0.states }),
      )

  -- `from_slice` and `to_writer` are those of `serde_json`.
  module _ (from_slice : List ℕ → Option Value) (to_writer : Value → Option (List ℕ)) where
    unfoldable pub proxied_reply : Tracker F → Body → Text → Events F → Option (Tracker F × Reply F)
    unfolding proxy
    proxied_reply t body sub_path e =
        proxy from_slice to_writer t.pool body sub_path (Clock.started e.clock) e.rounds e.turns
        >>= λ (p, out). some (with_pool t p, proxied out)

    -- The dispatch on the path without its leading slashes.
    unfoldable pub dispatch :
        Tracker F → Body → Text → Option Text → Events F → Option (Tracker F × Reply F)
    unfolding keys_reply usage_reply health_reply proxied_reply text_eq starts_with
    dispatch t body path query e =
        if text_eq path (codes "_keys")
        then keys_reply t (Clock.started e.clock)
        else (if text_eq path (codes "_usage")
            then usage_reply t query e
            else (if text_eq path (codes "_health")
                then some (health_reply t (Clock.started e.clock))
                else (if starts_with path (codes "api/")
                    then proxied_reply t body path e
                    else (if starts_with path (codes "v1/")
                        then proxied_reply t body path e
                        else some (t, not_found)))))

    unfoldable pub route :
        Tracker F → Body → Text → Option Text → Events F → Option (Tracker F × Reply F)
    unfolding dispatch strip_start
    route t body path query e = dispatch t body (strip_start b'/' path) query e

    abbrev pub path_and_query : Text → Option (Text × Text) → Text × Option Text
    path_and_query url none = (url, none)
    path_and_query url (some (p, q)) = (p, some q)

    -- `handle`: the URL is split at its first `?`.
    unfoldable pub handle : Tracker F → Body → Text → Events F → Option (Tracker F × Reply F)
    unfolding route split_once
    handle t body full_url e =
        let (path, query) = path_and_query full_url (split_once b'?' full_url) in
        route t body path query e
