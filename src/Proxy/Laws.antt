-- ===== src/Proxy/Laws.antt =====
-- src/proxy.rs: the loop over the attempts of a request.
use ollamux.Base.{ℕ, ◌≡◌, refl, ap, Bool, Option, List, [], ◌∷◌, take}
use std.Path.{fun_ext}
use ollamux.Pool.{Pool}
use ollamux.Proxy.{Turn, try_turn, attempts}

last_attempt :
    (identity : Option ℕ) (pinned_before : Bool) (key : ℕ) (turns : List Turn) (p : Pool)
    → attempts identity pinned_before key 2 turns p
      ≡ attempts identity pinned_before key 2 (take 1 turns) p
unfolding attempts try_turn
last_attempt identity pinned_before key [] p = refl
last_attempt identity pinned_before key (t ∷ ts) p = refl

second_attempt :
    (identity : Option ℕ) (pinned_before : Bool) (key : ℕ) (turns : List Turn) (p : Pool)
    → attempts identity pinned_before key 1 turns p
      ≡ attempts identity pinned_before key 1 (take 2 turns) p
unfolding attempts
second_attempt identity pinned_before key [] p = refl
second_attempt identity pinned_before key (t ∷ ts) p =
    ap (λ again. try_turn again identity pinned_before key 1 t p)
      (fun_ext (λ k. fun_ext (λ q. last_attempt identity pinned_before k ts q)))

-- A request makes at most three attempts: what the environment would grant from the fourth on has
-- no effect on the outcome or on the pool.
pub three_attempts :
    (identity : Option ℕ) (pinned_before : Bool) (key : ℕ) (turns : List Turn) (p : Pool)
    → attempts identity pinned_before key 0 turns p
      ≡ attempts identity pinned_before key 0 (take 3 turns) p
unfolding attempts
three_attempts identity pinned_before key [] p = refl
three_attempts identity pinned_before key (t ∷ ts) p =
    ap (λ again. try_turn again identity pinned_before key 0 t p)
      (fun_ext (λ k. fun_ext (λ q. second_attempt identity pinned_before k ts q)))
