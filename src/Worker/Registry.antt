-- ===== src/Worker/Registry.antt =====
-- backend/internal/worker/registry.go. A handler is given the timeout of its context, in
-- nanoseconds, and the job; it returns nil (`none`) or the message of an error.
use codity_assignment.Base.{
  String, [], ℤ, List, Option, map, none, some, ◌∷◌, if◌then◌else◌, str_eq,
}
use codity_assignment.Domain.Job.{Job}

abbrev pub Handler : Type 0
Handler = ℤ → Job → Option String

abbrev pub Registry : Type 0
Registry = List (String × Handler)

abbrev pub empty : Registry
empty = []

unfoldable pub get : String → Registry → Option Handler
get job_type [] = none
get job_type ((t, h) ∷ r) = if str_eq t job_type then some h else get job_type r

-- `none` is the panic on a type that is registered twice.
unfoldable pub register : String → Handler → Registry → Option Registry
unfolding get
register job_type h r = elim (get job_type r) [ none ↦ some ((job_type, h) ∷ r) | some g ↦ none ]

unfoldable pub types : Registry → List String
types = map (λ (t, h). t)
