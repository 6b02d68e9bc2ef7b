-- ===== src/Summary.antt =====
-- backend/internal/service/ai/ai.go: the text that stands for an analysis of a failure. `to_lower` is
-- `strings.ToLower`.
use Prim.Native.String.{String, [], ◌∷◌}
use Prim.Native.Char.{code}
use codity_assignment.Base.{Bool, if◌then◌else◌, true, ◌||◌, false, ◌==◌, ◌&&◌}

unfoldable pub has_prefix : String → String → Bool
has_prefix [] s = true
has_prefix (c ∷ p) [] = false
has_prefix (c ∷ p) (d ∷ s) = code c == code d && has_prefix p s

-- `strings.Contains(s, part)`.
unfoldable pub contains : String → String → Bool
unfolding has_prefix
contains [] part = has_prefix part []
contains (c ∷ s) part = has_prefix part (c ∷ s) || contains s part

unfoldable pub summarize_failure : (String → String) → String → String
unfolding contains
summarize_failure to_lower message =
    let lower = to_lower message in
    if contains lower "connection refused" || contains lower "timeout"
    then "AI Analysis: The job failed due to a network timeout or unreachable downstream service. Recommendation: Verify that the target service is online and accessible from the worker node."
    else if contains lower "syntax" || contains lower "parse"
    then "AI Analysis: The job encountered a data formatting or syntax error while processing the payload. Recommendation: Check the payload schema and ensure all required fields are correctly typed."
    else if contains lower "unauthorized" || contains lower "forbidden"
    then "AI Analysis: Authentication failed when the job attempted to access an external resource. Recommendation: Check the API credentials or token expiration."
    else "AI Analysis: The job failed with an unexpected error. Recommendation: Review the stack trace for application-specific logic errors and consider adding more contextual logging to the handler."
