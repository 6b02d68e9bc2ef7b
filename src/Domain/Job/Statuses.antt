-- ===== src/Domain/Job/Statuses.antt =====
-- backend/internal/domain/job/job.go: what the test of a status says.
use codity_assignment.Domain.Job.{
  Status, pending, scheduled, running, succeeded, failed, dead, cancelled, ◌is◌,
}
use codity_assignment.Base.{◌≡◌, true, refl}

pub is_running : (s : Status) → s is running ≡ true → s ≡ running
is_running running h = refl
is_running pending h = absurd (cc)
is_running scheduled h = absurd (cc)
is_running succeeded h = absurd (cc)
is_running failed h = absurd (cc)
is_running dead h = absurd (cc)
is_running cancelled h = absurd (cc)

pub is_pending : (s : Status) → s is pending ≡ true → s ≡ pending
is_pending pending h = refl
is_pending running h = absurd (cc)
is_pending scheduled h = absurd (cc)
is_pending succeeded h = absurd (cc)
is_pending failed h = absurd (cc)
is_pending dead h = absurd (cc)
is_pending cancelled h = absurd (cc)

pub is_scheduled : (s : Status) → s is scheduled ≡ true → s ≡ scheduled
is_scheduled scheduled h = refl
is_scheduled pending h = absurd (cc)
is_scheduled running h = absurd (cc)
is_scheduled succeeded h = absurd (cc)
is_scheduled failed h = absurd (cc)
is_scheduled dead h = absurd (cc)
is_scheduled cancelled h = absurd (cc)
