-- ===== src/Cli/Serving/Tests.antt =====
-- src/main.rs: a short end of the program at concrete inputs, and the theorem on it.
use ollamux.Base.{
  ℕ, zero, suc, ◌+◌, ◌≤◌, ◌≡◌, refl, ap, ◌>>=◌, false, true, Option, none, some, List, [], ◌∷◌,
  ◌++◌, map, codes, arith,
}
use ollamux.Samples.{whole_floats}
use ollamux.Pool.{secs}
use ollamux.Usage.Tracker.{Tracker}
use ollamux.Proxy.{whole}
use ollamux.Proxy.Route.Tests.{tracker, chat_events, after_chat, chat-handled}
use ollamux.Cli.Serving.{
  request, nothing, Wake, Drained, drain_time, pause, serve, handle_all, accept_loop, drain_loop,
}
use ollamux.Cli.Serving
use ollamux.Cli.Serving.Drain.{requests_of, Paced, pauses, DrainOf}
use ollamux.Cli.Serving.Laws.{serve-InOrder}
use ollamux.Cli.Serving.Dispatch.{Served, dispatch}

abbrev chat : Served ℕ
chat = record { body = whole []; url = codes "/api/chat"; events = chat_events }

abbrev handled : Served ℕ → Tracker ℕ → Option (Tracker ℕ)
handled = dispatch whole_floats (λ bytes. none) (λ v. none)

-- A request, then a failure of the listener.
abbrev front : List (Wake (Served ℕ))
front =
    record { stop = false; received = request chat }
    ∷ record { stop = false; received = Serving.broken }
    ∷ []

abbrev stopped : Wake (Served ℕ)
stopped = record { stop = true; received = nothing }

abbrev idle_passes : ℕ → ℕ → List (Drained (Served ℕ))
idle_passes zero now = []
idle_passes (suc n) now = record { now = now; received = nothing } ∷ idle_passes n (now + pause)

idle_passes-Paced : (n now : ℕ) → Paced now (idle_passes n now)
idle_passes-Paced zero now = tt
idle_passes-Paced (suc n) now = (omega arith, idle_passes-Paced n (now + pause))

-- A request that was queued, then nothing.
abbrev drains : List (Drained (Served ℕ))
drains = record { now = 0; received = request chat } ∷ idle_passes 101 0

serve-InOrder_example :
    (d : DrainOf (0 + drain_time) drains) × (pauses d.early ≤ 100)
    × (serve handled (front ++ stopped ∷ []) 0 drains tracker
        ≡ handle_all handled
            (requests_of (map Wake.received front) ++ requests_of (map Drained.received d.early))
            tracker)
serve-InOrder_example =
    serve-InOrder handled front stopped [] 0 drains tracker (refl, (refl, tt)) refl
      (omega arith, idle_passes-Paced 101 0) (omega arith)

chat-dispatched : handled chat tracker ≡ some after_chat
unfolding dispatch
chat-dispatched = ap (λ o. o >>= λ (u, reply). some u) chat-handled

-- The main loop serves a chat request, and the drain ends at its deadline.
chat-served :
    serve handled
      (front ++ stopped ∷ [])
      0
      (record { now = secs 5; received = nothing } ∷ [])
      tracker
    ≡ some after_chat
unfolding serve accept_loop drain_loop
chat-served = rw chat-dispatched refl
