-- ===== src/Pool/Quota/Laws.antt =====
-- src/pool.rs: what `publish_usage` makes `is_over_quota` answer.
use Prim.Native.Nat.{bit_or}
use ollamux.Base.{
  ℕ, ◌^◌, ◌≡◌, Bool, true, false, not, ◌&&◌, ◌||◌, List, [], ◌∷◌, any, ltb, ◌==◌, arith,
}
use ollamux.Base.Bits.{bit-set}
use ollamux.Snapshot.{Floats, KeyUsage, UsageSnapshot}
use ollamux.Pool.{Pool}
use ollamux.Pool.Quota.{
  mask_bits, mask_bit, is_over_quota, over_threshold, build_mask, publish_usage,
}

module _ {F : Type 0} (fl : Floats F) where
  -- A row of the snapshot says that the key's session usage is at or over the threshold.
  abbrev pub reports : ℕ → ℕ → KeyUsage F → Bool
  reports threshold key k = k.index == key && over_threshold fl threshold k.session

  mask_bit-set : (i j m : ℕ) → mask_bit (bit_or m (2 ^ i)) j ≡ (i == j || mask_bit m j)
  unfolding mask_bit
  mask_bit-set i j m = rw (bit-set i j m) (ground arith)

  mask_bit-build_mask :
      (threshold j m : ℕ) (ks : List (KeyUsage F))
      → ltb j mask_bits ≡ true
      → mask_bit (build_mask fl threshold m ks) j ≡ (mask_bit m j || any (reports threshold j) ks)
  unfolding build_mask
  mask_bit-build_mask threshold j m [] h = ground arith
  mask_bit-build_mask threshold j m (k ∷ ks) h = ground (
    arith,
    mask_bit-build_mask threshold j m ks h,
    mask_bit-build_mask threshold j (bit_or m (2 ^ k.index)) ks h,
    mask_bit-set k.index j m,
  )

  zero-mask_bit : (j : ℕ) → mask_bit 0 j ≡ false
  unfolding mask_bit
  zero-mask_bit j = ground arith

  -- After a snapshot is published, a key is over quota exactly when routing by quota is enabled,
  -- the key's index is below 64, and some row of the snapshot with that index has a session usage
  -- at or over the threshold. In particular nothing is kept of an earlier snapshot.
  pub is_over_quota-publish_usage :
      (p : Pool) (snap : UsageSnapshot F) (key : ℕ)
      → is_over_quota (publish_usage fl p snap) key ≡ (
          not (p.usage_threshold_x10 == 0)
          && ltb key 64
          && any (reports p.usage_threshold_x10 key) snap.keys)
  unfolding is_over_quota publish_usage
  is_over_quota-publish_usage p snap key =
      ground (arith, mask_bit-build_mask p.usage_threshold_x10 key 0 snap.keys, zero-mask_bit key)
