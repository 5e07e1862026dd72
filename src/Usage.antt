-- ===== src/Usage.antt =====
-- src/usage.rs: the wire model of /api/balance and the arithmetic on it. Decoding the JSON text is
-- a parameter (`serde_json::from_str`), which yields the raw fields of `Wire`.
pub mod Aggregate
pub mod Tracker
pub mod Laws
pub mod Backoff
pub mod Resets
pub mod Carry
pub mod Fetch
mod Tests
use ollamux.Base.{
  is_some, ℕ, ◌-◌, ◌*◌, Bool, true, false, ◌||◌, Option, none, some, ◌>>=◌, min, if◌then◌else◌,
  Text, String,
}
use ollamux.Snapshot.{Floats}
use ollamux.Pool.{secs}

-- The raw fields of a limit window, of `included` and of `purchased`.
pub record WireLimit (F : Type 0) : Type 0 where
  pub remaining_percent : Option F
  pub resets_at : Option Text

pub record WireIncluded (F : Type 0) : Type 0 where
  pub session : Option (WireLimit F)
  pub weekly : Option (WireLimit F)
  pub balance_usd : Option F
  pub allowance_usd : Option F

pub record Wire (F : Type 0) : Type 0 where
  pub included : Option (WireIncluded F)
  pub purchased : Option (Option F)

pub record BalanceLimit (F : Type 0) : Type 0 where
  pub remaining_percent : Option F
  pub resets_at : Option Text

pub record IncludedBalance (F : Type 0) : Type 0 where
  pub balance_usd : Option F
  pub allowance_usd : Option F

pub record UsagePayload (F : Type 0) : Type 0 where
  pub session : Option (BalanceLimit F)
  pub weekly : Option (BalanceLimit F)
  pub included_usd : Option (IncludedBalance F)
  pub purchased_usd : Option F

abbrev pub option_map {ℓ κ} : {A : Type ℓ} {B : Type κ} → (A → B) → Option A → Option B
option_map f none = none
option_map f (some a) = some (f a)

abbrev pub option_filter {ℓ} : {A : Type ℓ} → (A → Bool) → Option A → Option A
option_filter p none = none
option_filter p (some a) = if p a then some a else none

abbrev pub is_some_and {ℓ} : {A : Type ℓ} → (A → Bool) → Option A → Bool
is_some_and p none = false
is_some_and p (some a) = p a

abbrev pub min_refresh_default : ℕ
min_refresh_default = secs 5

abbrev pub usage_ttl : ℕ
usage_ttl = secs 60

abbrev pub default_backoff_default : ℕ
default_backoff_default = secs 60

abbrev pub max_backoff : ℕ
max_backoff = secs (5 * 60)

-- `clamp_backoff`: the `Retry-After`, else the default, and at most `max_backoff`.
unfoldable pub clamp_backoff : Option ℕ → ℕ → ℕ
clamp_backoff none default = min default max_backoff
clamp_backoff (some d) default = min d max_backoff

module _ {F : Type 0} (fl : Floats F) where
  open fl use {of_nat, sub, mul, div, clamp, round, is_finite}

  unfoldable pub decode_limit : WireLimit F → BalanceLimit F
  decode_limit w = record {
    remaining_percent = option_filter is_finite w.remaining_percent;
    resets_at = w.resets_at;
  }

  abbrev pub no_included : WireIncluded F
  no_included = record { session = none; weekly = none; balance_usd = none; allowance_usd = none }

  abbrev pub included_or_default : Option (WireIncluded F) → WireIncluded F
  included_or_default none = no_included
  included_or_default (some i) = i

  unfoldable pub decode : Wire F → UsagePayload F
  unfolding decode_limit
  decode w =
      let i = included_or_default w.included in
      record {
        session = option_map decode_limit i.session;
        weekly = option_map decode_limit i.weekly;
        included_usd =
            if is_some i.balance_usd || is_some i.allowance_usd
            then some (record {
              balance_usd = option_filter is_finite i.balance_usd;
              allowance_usd = option_filter is_finite i.allowance_usd;
            })
            else none;
        purchased_usd = w.purchased >>= λ b. option_filter is_finite b;
      }

  -- Some value of `included` is there.
  unfoldable pub plausible : UsagePayload F → Bool
  plausible p =
      is_some_and (λ s. is_some (BalanceLimit.remaining_percent s)) p.session
      || is_some_and (λ s. is_some (BalanceLimit.remaining_percent s)) p.weekly
      || is_some_and
          (λ i.
            is_some (IncludedBalance.balance_usd i) || is_some (IncludedBalance.allowance_usd i))
          p.included_usd

  pub data Parsed : Type 0 where
    payload : UsagePayload F → Parsed
    drifted : String → Parsed

  -- `parse_payload`: neither message holds anything of the body.
  unfoldable pub parse_payload : (Text → Option (Wire F)) → Text → Parsed
  unfolding decode plausible
  parse_payload from_str body = elim (from_str body) [
    | none ↦ drifted "endpoint changed (unexpected payload)"
    | some w ↦
        if plausible (decode w)
        then payload (decode w)
        else drifted "endpoint changed (no usage data in payload)"
  ]

  -- `1 - remaining / 100`, clamped to [0, 1].
  unfoldable pub used_fraction : BalanceLimit F → Option F
  used_fraction b =
      option_map (λ r. clamp (div (sub (of_nat 100) r) (of_nat 100)) (of_nat 0) (of_nat 1))
        b.remaining_percent

  unfoldable pub round3 : F → F
  round3 v = div (round (mul v (of_nat 1000))) (of_nat 1000)
