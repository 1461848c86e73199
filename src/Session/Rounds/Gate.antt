-- ===== src/Session/Rounds/Gate.antt =====
-- `runAgentWithTools`: the tool calls after a file has been read for a change.
use krellin.Prelude.{
  ◌≡◌, sym, ap, ◌∙◌, true, false, not, ◌&&◌, ◌||◌, List, [], ◌∷◌, ◌++◌, append-nil, append_assoc,
  map, arith, All,
}
use krellin.Session.{ToolCall, ToolResult}
use krellin.Session.Rounds.{
  Enforce, Hands, has_write_result, has_read_result, write_due, writes_file, refused, run_calls,
}

has_write_result-snoc :
    (results : List ToolResult) (res : ToolResult)
    → has_write_result (results ++ res ∷ []) ≡ has_write_result results || writes_file res.tool
unfolding has_write_result
has_write_result-snoc [] res = ground arith
has_write_result-snoc (r ∷ results) res = ground (arith, has_write_result-snoc results res)

has_read_result-snoc :
    (results : List ToolResult) (res : ToolResult)
    → has_read_result results ≡ true
    → has_read_result (results ++ res ∷ []) ≡ true
unfolding has_read_result
has_read_result-snoc [] res h = cc
has_read_result-snoc (r ∷ results) res h = ground (arith, has_read_result-snoc results res)

write_due-refused :
    (e : Enforce) (results : List ToolResult) (call : ToolCall)
    → write_due e results ≡ true
    → writes_file call.tool ≡ false
    → write_due e (results ++ refused call ∷ []) ≡ true
write_due-refused e results call due other = ground (
  arith,
  has_write_result-snoc results (refused call),
  has_read_result-snoc results (refused call),
)

module _ {S : Type 0} (hands : Hands S) where
  -- Where a change is required, a file has been read and none is written yet, a series of calls none of which is a
  -- write or a patch runs nothing: the state is as it was, and each call has a refusal as its result.
  run_calls-refused :
      (e : Enforce) (calls : List ToolCall) (results : List ToolResult) (s : S)
      → write_due e results ≡ true
      → All (λ (call : ToolCall). writes_file call.tool ≡ false) calls
      → run_calls hands e calls results s ≡ (results ++ map refused calls, s)
  unfolding run_calls
  run_calls-refused e [] results s due others = ap (λ rs. (rs, s)) (sym (append-nil results))
  run_calls-refused e (call ∷ calls) results s due (other, others) =
      let stopped : write_due e results && not (writes_file call.tool) ≡ true = ground arith in
      rw (stopped, run_calls)
        (run_calls-refused e calls (results ++ refused call ∷ []) s
            (write_due-refused e results call due other) others
          ∙ ap (λ rs. (rs, s)) (append_assoc results (refused call ∷ []) (map refused calls)))
