-- ===== src/Pool/Quota.antt =====
-- src/pool.rs: quota-aware routing. `set_usage_threshold`, `publish_usage` (the over-quota mask),
-- `is_over_quota` and `usage_briefs`.
pub mod Laws
use Prim.Native.Nat.{bit_or}
use ollamux.Base.{
  ℕ, ◌+◌, ◌*◌, ◌/◌, ◌%◌, ◌^◌, Bool, true, false, not, ◌&&◌, Option, none, some, List, [], ◌∷◌, map,
  ltb, leb, ◌==◌, if◌then◌else◌,
}
use ollamux.Snapshot.{Floats, KeyUsage, UsageSnapshot}
use ollamux.Pool.{Pool, threshold_disabled}

unfoldable pub set_usage_threshold : Pool → ℕ → Pool
set_usage_threshold p pct = record p { usage_threshold_x10 = pct * 10 }

abbrev pub mask_bits : ℕ
mask_bits = 64

-- `(mask >> i) & 1 == 1`
unfoldable pub mask_bit : ℕ → ℕ → Bool
mask_bit mask i = mask / 2 ^ i % 2 == 1

unfoldable pub is_over_quota : Pool → ℕ → Bool
unfolding mask_bit
is_over_quota p key =
    if p.usage_threshold_x10 == threshold_disabled
    then false
    else (if leb mask_bits key then false else mask_bit p.over_quota_mask key)

pub record UsageBrief (F : Type 0) : Type 0 where
  pub session : Option F
  pub weekly : Option F
  pub session_pct : Option F
  pub weekly_pct : Option F
  pub over_quota : Bool

abbrev option_map {ℓ κ} : {A : Type ℓ} {B : Type κ} → (A → B) → Option A → Option B
option_map f none = none
option_map f (some a) = some (f a)

module _ {F : Type 0} (fl : Floats F) where
  open fl use {of_nat, mul, div, clamp, round, trunc}

  -- `(session * 1000.0).clamp(0.0, 1000.0) as usize`
  unfoldable pub tenths : F → ℕ
  tenths session = trunc (clamp (mul session (of_nat 1000)) (of_nat 0) (of_nat 1000))

  unfoldable pub over_threshold : ℕ → Option F → Bool
  unfolding tenths
  over_threshold threshold none = false
  over_threshold threshold (some session) = leb threshold (tenths session)

  -- The loop of `publish_usage`.
  unfoldable pub build_mask : ℕ → ℕ → List (KeyUsage F) → ℕ
  unfolding over_threshold
  build_mask threshold mask [] = mask
  build_mask threshold mask (k ∷ ks) =
      build_mask threshold
        (if leb mask_bits k.index
          then mask
          else (if over_threshold threshold k.session then bit_or mask (2 ^ k.index) else mask))
        ks

  unfoldable pub publish_usage : Pool → UsageSnapshot F → Pool
  unfolding build_mask
  publish_usage p snap = record p {
    over_quota_mask =
        if p.usage_threshold_x10 == threshold_disabled
        then 0
        else build_mask p.usage_threshold_x10 0 snap.keys;
  }

  -- `pct`: one decimal, clamped.
  unfoldable pub pct : F → F
  pct f = div (round (mul (clamp f (of_nat 0) (of_nat 1)) (of_nat 1000))) (of_nat 10)

  unfoldable pub brief_of : ℕ → KeyUsage F → UsageBrief F
  unfolding pct over_threshold
  brief_of threshold k = record {
    session = k.session;
    weekly = k.weekly;
    session_pct = option_map pct k.session;
    weekly_pct = option_map pct k.weekly;
    over_quota = not (threshold == threshold_disabled) && over_threshold threshold k.session;
  }

  unfoldable pub brief_row : ℕ → KeyUsage F → Option (UsageBrief F)
  unfolding brief_of
  brief_row threshold k = elim k.session [
    | some s ↦ some (brief_of threshold k)
    | none ↦ elim k.weekly [ some w ↦ some (brief_of threshold k) | none ↦ none ]
  ]

  unfoldable pub usage_briefs : Pool → UsageSnapshot F → List (Option (UsageBrief F))
  unfolding brief_row
  usage_briefs p snap = map (brief_row p.usage_threshold_x10) snap.keys
