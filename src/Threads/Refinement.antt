-- ===== src/Threads/Refinement.antt =====
-- src/proxy.rs: a request as `Proxy` follows it is a run of one thread of `Threads`, while the other
-- threads do what is in a relation on pools.
pub mod Reading
pub mod Waiting
pub mod Admitting
pub mod Loop
mod Tests
use ollamux.Base.{ℕ, Option, none, some, List, All}
use ollamux.Pool.{Pool}
use ollamux.Pool.Admit.{Round, Admission, admitted, rejected}
use ollamux.Proxy.{Turn}
use ollamux.Threads.{Pc, idle, attempting, Move}

-- What a thread does from `p`, where it stands at `pc`, on; meanwhile the others change the pool
-- as `Others` has it.
pub data Run (Others : Pool → Pool → Type 0) (p : Pool) (pc : Pc) : Pool → Pc → Type 0 where
  stays : Run Others p pc p pc
  goes :
      {q r : Pool} {pc' pc'' : Pc}
      → Run Others p pc q pc'
      → Move q pc' r pc''
      → Run Others p pc r pc''
  yields : {q r : Pool} {pc' : Pc} → Run Others p pc q pc' → Others q r → Run Others p pc r pc'

pub Run-trans :
    {Others : Pool → Pool → Type 0} {p q : Pool} {pc pc' : Pc} {r : Pool} {pc'' : Pc}
    → Run Others p pc q pc'
    → Run Others q pc' r pc''
    → Run Others p pc r pc''
Run-trans a stays = a
Run-trans a (goes b move) = goes (Run-trans a b) move
Run-trans a (yields b other) = yields (Run-trans a b) other

-- Where a thread stands after an admission.
abbrev pub after : ℕ → Admission → Pc
after n (admitted key) = attempting n key
after n (rejected rej) = idle

-- In each round of a wait the others do what is in the relation.
abbrev pub RoundWithin : (Pool → Pool → Type 0) → Round → Type 0
RoundWithin Others r = (p : Pool) → Others p (r.others p)

abbrev pub TurnWithin : (Pool → Pool → Type 0) → Turn → Type 0
TurnWithin Others t = ((p : Pool) → Others p (t.others p)) × All (RoundWithin Others) t.rounds
