-- ===== src/Outreach/Session.antt =====
-- The queue as its callers use it: calls of the service, each in a session that is rolled back when
-- the call raises.
use tiktok_b2b_bot_mirror.Prelude.{ℕ, String, Bool, Option, List, [], ◌∷◌, committed}
use tiktok_b2b_bot_mirror.Outreach.Rows.{StrategyRow, Queue}
use tiktok_b2b_bot_mirror.Outreach.Service
use tiktok_b2b_bot_mirror.Outreach.Service.{Templates}

-- One call, with the arguments of its method; the first number is the time. Between the calls, other
-- parts of the program may write the tables that the queue only reads: that is `elsewhere`, with the
-- tables as they are then.
pub data Call : Type 0 where
  prepare : ℕ → ℕ → String → Call
  authorize : ℕ → ℕ → String → String → Call
  skip : ℕ → ℕ → String → String → Call
  cancel : ℕ → ℕ → String → Call
  claim_next : ℕ → ℕ → String → Call
  finalize : ℕ → ℕ → String → ℕ → String → Option ℕ → Option String → Call
  elsewhere : Queue → Call

module _ (validated : StrategyRow → Option Templates) (is_blank : String → Bool) where
  unfoldable pub apply : Call → Queue → Queue
  apply (prepare now job platform) q =
      committed q (Service.prepare validated is_blank now job platform q)
  apply (authorize now job platform operator) q =
      committed q (Service.authorize validated is_blank now job platform operator q)
  apply (skip now job platform code) q = committed q (Service.skip now job platform code q)
  apply (cancel now job platform) q = committed q (Service.cancel now job platform q)
  apply (claim_next now job platform) q = committed q (Service.claim_next now job platform q)
  apply (finalize now job platform item outcome message code) q =
      committed q (Service.finalize now job platform item outcome message code q)
  apply (elsewhere tables) q = record tables { items = q.items; next_item_id = q.next_item_id }

  unfoldable pub run : List Call → Queue → Queue
  unfolding apply
  run [] q = q
  run (c ∷ rest) q = run rest (apply c q)
