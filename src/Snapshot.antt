-- ===== src/Snapshot.antt =====
-- src/usage.rs: the rows and snapshots that the tracker publishes and the pool reads. `F` stands
-- for `f64`; times are nanoseconds of the monotonic clock.
use ollamux.Base.{ℕ, Bool, Option, List, Text}

-- `f64`: the operations that the program applies to it. `trunc` is `as usize`, which truncates and
-- saturates; `round` is `f64::round`.
pub record Floats (F : Type 0) : Type 0 where
  pub of_nat : ℕ → F
  pub add : F → F → F
  pub sub : F → F → F
  pub mul : F → F → F
  pub div : F → F → F
  pub clamp : F → F → F → F
  pub round : F → F
  pub trunc : F → ℕ
  pub is_finite : F → Bool

pub record KeyUsage (F : Type 0) : Type 0 where
  pub index : ℕ
  pub suffix : Text
  pub is_ok : Bool
  pub status : Option ℕ
  pub session : Option F
  pub weekly : Option F
  pub session_pct : Option F
  pub weekly_pct : Option F
  pub session_resets_at : Option Text
  pub weekly_resets_at : Option Text
  pub included_usd : Option F
  pub allowance_usd : Option F
  pub purchased_usd : Option F
  pub as_of : Option ℕ
  pub error : Option Text

pub record UsageSnapshot (F : Type 0) : Type 0 where
  pub fetched_at : ℕ
  pub keys : List (KeyUsage F)
