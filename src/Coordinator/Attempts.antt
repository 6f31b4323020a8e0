-- ===== src/Coordinator/Attempts.antt =====
-- `Coordinator.attempt`. It is reentrant: while `transport.send` runs, the transport may make
-- further attempts, which are the nested calls of a `Call`. The other callables do not call back.
use system_trade_with_llm_or.Prelude.{Option, some}
use system_trade_with_llm_or.Sources.Binding.{SourceBinding}
use system_trade_with_llm_or.Coordinator.Events.{CoordinatorRequest}
use system_trade_with_llm_or.Coordinator.Gates.{World, Reading}
use system_trade_with_llm_or.Coordinator.Results.{Reply, AttemptResult}
use system_trade_with_llm_or.Coordinator.Begin.{Supply, begin, start, returns, sends}
use system_trade_with_llm_or.Coordinator.Finish.{finish}

mutual
  -- The arguments of `attempt`, the attempts that the transport makes while it sends, and what it
  -- and the clocks then give.
  pub data Call : Type 0 where
    call :
        Option CoordinatorRequest → Option SourceBinding → Supply → Calls → Reply → Reading → Call

  pub data Calls : Type 0 where
    done : Calls
    then_call : Call → Calls → Calls

unfoldable mutual
  unfolding begin start finish

  pub attempt : Call → World → World × Option AttemptResult
  attempt (call request binding supply nested reply reading) w =
      elim (begin request binding supply w) [
        | returns r ↦ (w, some r)
        | sends t ↦ finish t reply reading (attempts nested (start t w))
      ]

  pub attempts : Calls → World → World
  attempts done w = w
  attempts (then_call c cs) w = attempts cs (attempt c w).0
