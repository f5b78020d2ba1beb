-- ===== src/Http/Step.antt =====
-- What the parsers of lines share: how the switch on one byte ends.
use sy_server.Types.{Request}
use sy_server.Util.{Code}

-- `next` goes on with the loop, `goto_done` leaves it by the label at its end, `returned` returns
-- from the function, and `aborted` is the failed `assert` of an unexpected state.
pub data Step : Type 0 where
  next goto_done : Request → Step
  returned : Code → Request → Step
  aborted : Step
