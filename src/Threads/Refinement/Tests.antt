-- ===== src/Threads/Refinement/Tests.antt =====
-- src/proxy.rs: a request that is served on its second key, as a run of a thread.
use ollamux.Base.{◌≡◌, refl, false, none, []}
use ollamux.Samples.{three_keys}
use ollamux.Threads.{idle, admitting}
use ollamux.Threads.Refinement.{Run}
use ollamux.Threads.Refinement.Loop.{proxy_keyed-Run}
use ollamux.Proxy.Tests.{turns, served, outcome, served-run}

proxy_keyed-Run_example : Run (λ p q. q ≡ p) three_keys (admitting 0) served idle
proxy_keyed-Run_example =
    proxy_keyed-Run (λ p q. q ≡ p) three_keys served none false 0 [] turns outcome tt
      ((λ p. refl, tt), ((λ p. refl, tt), tt)) served-run
