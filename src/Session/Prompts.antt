-- ===== src/Session/Prompts.antt =====
-- The prompts of agent_tools.go: `buildToolPrompt`, `buildPlanPrompt`, `buildFinalPrompt` and `buildEvalPrompt`.
use krellin.Prelude.{ℕ, ◌+◌, List, [], ◌∷◌, ◌++◌, if◌then◌else◌}
use krellin.Prelude.Text.{Text, codes, is_empty, has_suffix, trim_space}
use krellin.Tools.Output.{itoa, itoa_ℤ}
use krellin.Session.{ToolCall, ToolResult}

-- Lines, each with its end.
unfoldable pub lines_text : List Text → Text
lines_text [] = []
lines_text (line ∷ lines) = line ++ 10 ∷ lines_text lines

unfoldable pub tool_rules : List Text
tool_rules =
    codes
      "You are a coding agent running inside a containerized capsule. You have tool access and must operate only inside the capsule. When you need a tool, respond with JSON only."
    ∷ []
    ∷ codes "Tool call format:"
    ∷ codes
        "{\"tool_calls\":[{\"tool\":\"shell\",\"args\":{\"command\":\"ls\",\"cwd\":\"/workspace\"}}]}"
    ∷ codes "Final response format:"
    ∷ codes "{\"final\":\"<your response>\"}"
    ∷ []
    ∷ codes "Tools:"
    ∷ codes "- shell: {command, cwd?, env?}"
    ∷ codes "- read_file: {path}"
    ∷ codes "- write_file: {path, content}"
    ∷ codes "- list_files: {path?, recursive?, max_depth?}"
    ∷ codes "- search: {pattern, path?, max_results?}"
    ∷ codes "- apply_patch: {patch}"
    ∷ []
    ∷ codes "Rules:"
    ∷ codes "- Operate only within /workspace."
    ∷ codes "- Do not use git for edits or revert."
    ∷ codes
        "- If asked to read/write/create/modify files, you MUST use tools. Never claim changes without a tool call."
    ∷ codes
        "- If the user requests changes after reading a file, you must write the updated content via write_file (do not just acknowledge)."
    ∷ codes
        "- write_file overwrites the file; when modifying, include the full updated content and preserve existing text unless the user asks for a full replacement."
    ∷ codes
        "- After a read, do not call any other tools until you write the update (only write_file or apply_patch)."
    ∷ codes
        "- If the user asks for multiple steps (e.g., \"and then\"), you must complete all steps before responding."
    ∷ codes
        "- If a task fails, try a different approach before reporting failure (e.g., alternate tool, different command, check context)."
    ∷ codes "- Only ask a next-step question after the requested task has been completed."
    ∷ codes "- Before proposing a next step, summarize what you just did in one short sentence."
    ∷ codes
        "- When a task succeeds, propose a likely next step as a short question based on the user's request. If nothing is likely, ask \"What should I do next?\"."
    ∷ codes "- Keep tool output concise."
    ∷ []
    ∷ codes "User:"
    ∷ []

unfoldable pub plan_rules : List Text
plan_rules =
    codes "You are planning a multi-step task for a tool-using coding agent."
    ∷ codes "Return JSON only."
    ∷ []
    ∷ codes "Constraints:"
    ∷ codes "- Output JSON with either {\"steps\":[...]} or {\"question\":\"...\"}."
    ∷ codes "- Each step must be a tool call with tool + args."
    ∷ codes "- Use only these tools: shell, read_file, write_file, list_files, search, apply_patch."
    ∷ codes "- Steps must be in order and cover ALL user requests."
    ∷ codes "- Do NOT include a final response."
    ∷ []
    ∷ codes "Tool call schema:"
    ∷ codes "{\"tool\":\"shell\",\"args\":{\"command\":\"ls\",\"cwd\":\"/workspace\"}}"
    ∷ codes "{\"tool\":\"read_file\",\"args\":{\"path\":\"story.md\"}}"
    ∷ []
    ∷ codes "User request:"
    ∷ []

unfoldable pub final_rules : List Text
final_rules =
    codes "You executed a planned multi-step task. Provide the final response as JSON only."
    ∷ codes "Format:"
    ∷ codes
        "{\"final\":\"<one-sentence summary of what was done. then a likely next-step question, or 'What should I do next?' if none>\"}"
    ∷ []
    ∷ codes "User request:"
    ∷ []

unfoldable pub eval_rules : List Text
eval_rules =
    codes "Evaluate whether the tool step succeeded. Respond with JSON only."
    ∷ codes "Format: {\"status\":\"ok\"|\"retry\"|\"replan\",\"reason\":\"...\"}"
    ∷ []
    ∷ codes "User request:"
    ∷ []

abbrev error_line : Text → Text
error_line error = if is_empty error then [] else codes "error: " ++ error ++ 10 ∷ []

abbrev output_lines : Text → Text
output_lines output =
    if is_empty output
    then []
    else codes "output:" ++ 10 ∷ output ++ (if has_suffix output (10 ∷ []) then [] else 10 ∷ [])

abbrev result_text : ℕ → ToolResult → Text
result_text i res =
    itoa i
    ++ codes ") tool="
    ++ res.tool
    ++ codes " args="
    ++ res.args
    ++ codes " exit_code="
    ++ itoa_ℤ res.exit_code
    ++ 10 ∷ error_line res.error
    ++ output_lines res.output

abbrev result_texts : ℕ → List ToolResult → Text
result_texts i [] = []
result_texts i (res ∷ results) = result_text i res ++ result_texts (i + 1) results

abbrev results_section : List ToolResult → Text
results_section [] = []
results_section results = 10 ∷ 10 ∷ codes "Tool results:" ++ 10 ∷ result_texts 1 results

abbrev respond_line : Text
respond_line = 10 ∷ codes "Respond with JSON only." ++ 10 ∷ []

-- `buildToolPrompt`
unfoldable pub build_tool_prompt : Text → List ToolResult → Text
build_tool_prompt content results =
    lines_text tool_rules ++ content ++ results_section results ++ respond_line

-- `buildPlanPrompt`
unfoldable pub build_plan_prompt : Text → Text
build_plan_prompt content = lines_text plan_rules ++ content ++ respond_line

-- `buildFinalPrompt`
unfoldable pub build_final_prompt : Text → List ToolResult → Text
build_final_prompt content results =
    lines_text final_rules ++ content ++ results_section results ++ respond_line

-- `buildEvalPrompt`
unfoldable pub build_eval_prompt : Text → ToolCall → ToolResult → Text
build_eval_prompt content step res =
    lines_text eval_rules
    ++ content
    ++ 10 ∷ 10 ∷ codes "Step:"
    ++ 10 ∷ codes "tool="
    ++ step.tool
    ++ codes " args="
    ++ trim_space step.args
    ++ 10 ∷ codes "Result:"
    ++ 10 ∷ codes "exit_code="
    ++ itoa_ℤ res.exit_code
    ++ 10 ∷ error_line res.error
    ++ output_lines res.output
    ++ respond_line
