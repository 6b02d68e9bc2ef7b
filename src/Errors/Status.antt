-- ===== src/Errors/Status.antt =====
-- The tests on an error against the HTTP status that a client gets for it.
use codity_assignment.Errors.{
  respond_error, is_not_found, is_conflict, is_unauthorized, GoError, pg, errorf, wrapf, app,
  app_caused,
}
use codity_assignment.Base.{◌≡◌, ◌↔◌, true, ◌≤◌, arith}

-- An error is answered with 404, 409 or 401 exactly when IsNotFound, IsConflict or IsUnauthorized
-- says so, at any depth of wrapping; the status is never below 400.
pub respond_error_status :
    (e : GoError)
    → (((respond_error e).0 ≡ 404) ↔ (is_not_found e ≡ true))
      × (((respond_error e).0 ≡ 409) ↔ (is_conflict e ≡ true))
      × (((respond_error e).0 ≡ 401) ↔ (is_unauthorized e ≡ true))
      × (400 ≤ (respond_error e).0)
unfolding respond_error is_not_found is_conflict is_unauthorized
respond_error_status (pg x) = ground arith
respond_error_status (errorf m) = ground arith
respond_error_status (wrapf m e) = respond_error_status e
respond_error_status (app c m) = ground arith
respond_error_status (app_caused c m e) = ground arith
