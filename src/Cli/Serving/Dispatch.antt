-- ===== src/Cli/Serving/Dispatch.antt =====
-- src/main.rs: what the threads do with a request that they receive.
use ollamux.Base.{Option, some, ◌>>=◌, List, Text, ℕ}
use ollamux.Snapshot.{Floats}
use ollamux.Affinity.Identity.{Value}
use ollamux.Usage.Tracker.{Tracker}
use ollamux.Proxy.{Body}
use ollamux.Proxy.Route.{Events, handle}

-- A request as it is served: its body and URL, and what happens meanwhile.
pub record Served (F : Type 0) : Type 0 where
  pub body : Body
  pub url : Text
  pub events : Events F

module _ {F : Type 0} (fl : Floats F) (from_slice : List ℕ → Option Value)
    (to_writer : Value → Option (List ℕ)) where
  -- `dispatch` of main.rs: the request is handled, and its reply is sent.
  unfoldable pub dispatch : Served F → Tracker F → Option (Tracker F)
  unfolding handle
  dispatch r t = handle fl from_slice to_writer t r.body r.url r.events >>= λ (u, reply). some u
