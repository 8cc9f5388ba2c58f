-- ===== src/HoldQueue/Print.antt =====
-- Snapshot of lib/mp1/multicast/to_hold_queue_item.go: the first items of the hold queue as text.
use cs425_mps.Base.{ℕ, Bool, true, false, List, [], ◌∷◌, ◌++◌, get_elem?, take}
use cs425_mps.Base.Int.{pos}
use cs425_mps.Base.Text.{Str, codes}
use cs425_mps.Base.Run.{Run, ok, ◌>>=◌, or_panic}
use cs425_mps.Strings.{format_int}
use cs425_mps.HoldQueue.{ToHoldQueueItem, ToHoldPriorityQueue}

-- `%t`
unfoldable pub format_bool : Bool → Str
format_bool true = codes "true"
format_bool false = codes "false"

unfoldable pub format_item : ToHoldQueueItem → Str
format_item item =
    codes "["
    ++ (format_int (pos item.proposal_seq_num)
        ++ (codes ":"
            ++ (item.process_id
                ++ (codes "] "
                    ++ (format_bool item.agreed
                        ++ (codes " "
                            ++ (item.msg_id
                                ++ (codes " " ++ (format_int item.index ++ codes "\n")))))))))

unfoldable pub snapshot_loop : List ToHoldQueueItem → List ℕ → Run Str
snapshot_loop memory [] = ok []
snapshot_loop memory (p ∷ ps) = do
  item ← or_panic (get_elem? memory p)
  rest ← snapshot_loop memory ps
  ok (format_item item ++ rest)

-- The loop breaks at the index 10.
unfoldable pub snapshot : ToHoldPriorityQueue → Run Str
snapshot q = snapshot_loop q.memory (take 10 q.queue)
