-- ===== src/Base/Replies.antt =====
-- How a call of the database ends, seen from its caller.
use mathlib.Core.Bool.{Bool, true, false}

-- An exception before the transaction (no connection), one after it (the reply was lost), or a result.
pub data Reply : Type 0 where
  raises_before raises_after returns : Reply

-- Whether the transaction took place.
abbrev pub commits : Reply → Bool
commits raises_before = false
commits raises_after = true
commits returns = true

-- Whether the caller has the result.
abbrev pub is_answered : Reply → Bool
is_answered raises_before = false
is_answered raises_after = false
is_answered returns = true
