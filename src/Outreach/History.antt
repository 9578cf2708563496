-- ===== src/Outreach/History.antt =====
-- What no sequence of calls can do to the items of the queue.
use tiktok_b2b_bot_mirror.Prelude.{
  ◌≡◌, String, Bool, Option, List, [], ◌∷◌, Memᴰ, mem-Grows, Result, ok, err, Yields, committed,
}
use tiktok_b2b_bot_mirror.Outreach.Rows.{Item, StrategyRow, Queue, QueueError}
use tiktok_b2b_bot_mirror.Outreach.Service.{Templates}
use tiktok_b2b_bot_mirror.Outreach.Session.{Call, apply, run}
use tiktok_b2b_bot_mirror.Outreach.Moves.{
  IsFinal, SamePlan, AllSound, ItemMove, Follows, Follows-refl, Follows-trans, final_absorbs,
  final-IsFrozen,
}
use tiktok_b2b_bot_mirror.Outreach.Calls.{
  prepare-Follows, authorize-Follows, skip-Follows, cancel-Follows, claim-Follows, finalize-Follows,
}

committed-Follows :
    {A : Type 0} (q : Queue) (r : Result QueueError (A × Queue))
    → Yields (Follows q) r
    → Follows q (committed q r)
committed-Follows q (ok (a, s)) h = h.holds
committed-Follows q (err e) h = Follows-refl q

module _ (validated : StrategyRow → Option Templates) (is_blank : String → Bool) where
  apply-Follows : (c : Call) (q : Queue) → Follows q (apply validated is_blank c q)
  unfolding apply
  apply-Follows (Call.prepare now job platform) q =
      committed-Follows q _ (prepare-Follows validated is_blank now job platform q)
  apply-Follows (Call.authorize now job platform operator) q =
      committed-Follows q _ (authorize-Follows validated is_blank now job platform operator q)
  apply-Follows (Call.skip now job platform code) q =
      committed-Follows q _ (skip-Follows now job platform code q)
  apply-Follows (Call.cancel now job platform) q =
      committed-Follows q _ (cancel-Follows now job platform q)
  apply-Follows (Call.claim_next now job platform) q =
      committed-Follows q _ (claim-Follows now job platform q)
  apply-Follows (Call.finalize now job platform item outcome message code) q =
      committed-Follows q _ (finalize-Follows now job platform item outcome message code q)
  apply-Follows (Call.elsewhere tables) q = record {
    items = (Follows-refl q).items;
    sound = λ h. h;
  }

  -- Whatever calls are made, and whatever is written elsewhere between them, each item keeps its
  -- place, id, job, strategy and channel, and its status moves along the life cycle; the target,
  -- the content and the review version of an item that is sending, finished or cancelled stay.
  pub run-Follows : (calls : List Call) (q : Queue) → Follows q (run validated is_blank calls q)
  unfolding run
  run-Follows [] q = Follows-refl q
  run-Follows (c ∷ rest) q =
      Follows-trans (apply-Follows c q) (run-Follows rest (apply validated is_blank c q))

  -- If every item that is ready, sending, sent, failed or uncertain has the time and the name of its
  -- authorization, and every sent one its message, then this is so after any sequence of calls too.
  pub run-AllSound :
      (calls : List Call) (q : Queue) → AllSound q → AllSound (run validated is_blank calls q)
  run-AllSound calls q = (run-Follows calls q).sound

  -- An item that is sent, failed, uncertain or cancelled keeps this status and what it was to say
  -- and to whom, whatever calls follow: it is not sent again.
  pub run_final :
      (calls : List Call) (q : Queue) (a : Item)
      → Memᴰ a q.items
      → IsFinal a.status
      → (b : Item) × Memᴰ b (run validated is_blank calls q).items
        × (b.id ≡ a.id)
        × (b.status ≡ a.status)
        × SamePlan a b
  run_final calls q a m final =
      let (b, n, move) = mem-Grows ItemMove q.items _ (run-Follows calls q).items m in
      (b, n, move.same_id, final_absorbs move.path final, move.frozen (final-IsFrozen final))
