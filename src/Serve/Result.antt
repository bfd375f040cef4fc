-- ===== src/Serve/Result.antt =====
-- The errors of the services in serve/. The engine's answers are those that the handlers tell apart.
use masuda.Common.{Result}

pub data EngineReply : Type 0 where
  accepted not_implemented refused : EngineReply

-- The codes of the errors that the API returns.
pub data Code : Type 0 where
  invalid_argument not_found failed_precondition internal unimplemented : Code

abbrev pub Reply : Type 0 → Type 0
Reply A = Result Code A
