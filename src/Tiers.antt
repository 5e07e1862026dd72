-- ===== src/Tiers.antt =====
-- src/usage.rs: the plan tier of a key, inferred from its concurrency (`tier_for`).
use ollamux.Base.{ℕ, ◌==◌, ◌&&◌, leb, if◌then◌else◌, String}

pub record Tier : Type 0 where
  pub name : String
  pub weight : ℕ

abbrev pub free_weight : ℕ
free_weight = 1

abbrev pub pro_weight : ℕ
pro_weight = 50

abbrev pub max_weight : ℕ
max_weight = 250

unfoldable pub tier_for : ℕ → Tier
tier_for conc =
    if conc == 1
    then record { name = "free"; weight = free_weight }
    else (if leb 2 conc && leb conc 3
        then record { name = "pro"; weight = pro_weight }
        else record { name = "max"; weight = max_weight })
