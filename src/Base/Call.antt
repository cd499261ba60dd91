-- ===== src/Base/Call.antt =====
-- A call of another component: its result, or the text of its error.
use kvfs.Base.Text.{Bytes}

pub data Call (A : Type 0) : Type 0 where
  ok : A → Call A
  failed : Bytes → Call A
