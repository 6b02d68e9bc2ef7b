-- ===== src/ExecLog/Prefix.antt =====
-- What AddLogs leaves when one of its statements fails.
use codity_assignment.Base.{
  refl, List, ◌≡◌, ◌++◌, inl, map, ◌∷◌, ◌⊎◌, arith, [], ◌∙◌, ap, inr, sym, subst,
}
use codity_assignment.ExecLog.{insert_log, add_logs, ExecutionLog, LogDb, stored}
use codity_assignment.Exec.{◌>>=◌, sql, Result, World, ◌>>◌, ok, err}
use codity_assignment.Errors.{GoError}

append_nil : {A : Type 0} (xs : List A) → xs ++ [] ≡ xs
append_nil [] = refl
append_nil (x ∷ xs) = ap (λ l. x ∷ l) (append_nil xs)

append_assoc : {A : Type 0} (xs ys zs : List A) → (xs ++ ys) ++ zs ≡ xs ++ (ys ++ zs)
append_assoc [] ys zs = refl
append_assoc (x ∷ xs) ys zs = ap (λ l. x ∷ l) (append_assoc xs ys zs)

log_inserted :
    (l : ExecutionLog) (w : World LogDb)
    → (sql (insert_log l) w).0 ≡ ok tt
    → (sql (insert_log l) w).1.db.logs ≡ w.db.logs ++ stored l ∷ []
unfolding insert_log sql
log_inserted l w h = ground arith

log_refused :
    (l : ExecutionLog) (w : World LogDb) {e : GoError}
    → (sql (insert_log l) w).0 ≡ err e
    → (sql (insert_log l) w).1.db.logs ≡ w.db.logs
unfolding insert_log sql
log_refused l w h = ground arith

-- All the lines are added; or one of them is refused on the tables that the lines before it have
-- left, which are added and stay.
abbrev pub Added : List ExecutionLog → World LogDb → List ExecutionLog → Result (Unit {0}) → Type 0
Added ls w after r =
    ((r ≡ ok tt) × (after ≡ w.db.logs ++ map stored ls))
    ⊎ ((e : GoError) × ((first : List ExecutionLog) × ((l : ExecutionLog) × ((more : List
                ExecutionLog)
              × ((r ≡ err e)
                  × (ls ≡ first ++ l ∷ more)
                  × ((add_logs first w).0 ≡ ok tt)
                  × ((sql (insert_log l) (add_logs first w).1).0 ≡ err e)
                  × (after ≡ w.db.logs ++ map stored first))))))

-- The first line is added, and the rest goes on from what it has left.
add_logs-cons :
    (l : ExecutionLog) (ls : List ExecutionLog) (w : World LogDb)
    → (sql (insert_log l) w).0 ≡ ok tt
    → add_logs (l ∷ ls) w ≡ add_logs ls (sql (insert_log l) w).1
unfolding add_logs ◌>>=◌ ◌>>◌
add_logs-cons l ls w h = rw h refl

add_logs-refused :
    (l : ExecutionLog) (ls : List ExecutionLog) (w : World LogDb) (e : GoError)
    → (sql (insert_log l) w).0 ≡ err e
    → add_logs (l ∷ ls) w ≡ (err e, (sql (insert_log l) w).1)
unfolding add_logs ◌>>=◌ ◌>>◌
add_logs-refused l ls w e h = rw h refl

cons-Added :
    (l : ExecutionLog) (ls : List ExecutionLog) (w v : World LogDb) (after : List ExecutionLog)
    (r : Result (Unit {0}))
    → (sql (insert_log l) w).0 ≡ ok tt
    → v ≡ (sql (insert_log l) w).1
    → Added ls v after r
    → Added (l ∷ ls) w after r
cons-Added l ls w v after r h n (inl (o, a)) = inl (
  o,
  a
      ∙ ap (λ (u : World LogDb). u.db.logs ++ map stored ls) n
      ∙ ap (λ x. x ++ map stored ls) (log_inserted l w h)
      ∙ append_assoc w.db.logs (stored l ∷ []) (map stored ls),
)
cons-Added l ls w v after r h n (inr (e, (first, (k, (more, (o, split, before, failed, a)))))) =
    let step = ap (add_logs first) n ∙ sym (add_logs-cons l first w h) in
    inr (
      e,
      (
        l ∷ first,
        (
          k,
          (
            more,
            (
              o,
              ap (λ x. l ∷ x) split,
              subst (λ (y : Result (Unit {0}) × World LogDb). y.0 ≡ ok tt) step before,
              subst (λ (y : Result (Unit {0}) × World LogDb). (sql (insert_log k) y.1).0 ≡ err e)
                  step failed,
              a
                  ∙ ap (λ (u : World LogDb). u.db.logs ++ map stored first) n
                  ∙ ap (λ x. x ++ map stored first) (log_inserted l w h)
                  ∙ append_assoc w.db.logs (stored l ∷ []) (map stored first),
            ),
          ),
        ),
      ),
    )

add_logs_nil : (w : World LogDb) → (add_logs [] w).0 ≡ ok tt
unfolding add_logs
add_logs_nil w = refl

db-add_logs_nil : (w : World LogDb) → (add_logs [] w).1 ≡ w
unfolding add_logs
db-add_logs_nil w = refl

-- AddLogs adds its lines in their order. If it fails, then at one line: that line is refused on the
-- tables that the lines before it have left, those lines stay in the table, since the loop is no
-- transaction, and no line after it is added.
pub add_logs-Added :
    (ls : List ExecutionLog) (w : World LogDb)
    → Added ls w (add_logs ls w).1.db.logs (add_logs ls w).0
add_logs-Added [] w = inl (
  add_logs_nil w,
  ap (λ (u : World LogDb). u.db.logs) (db-add_logs_nil w) ∙ sym (append_nil w.db.logs),
)
add_logs-Added (l ∷ ls) w =
    by_result (add_logs-Added ls (sql (insert_log l) w).1) (sql (insert_log l) w).0 refl
  where
    by_result :
        let v = (sql (insert_log l) w).1 in
        Added ls v (add_logs ls v).1.db.logs (add_logs ls v).0
        → (r : Result (Unit {0})) → (sql (insert_log l) w).0 ≡ r
        → Added (l ∷ ls) w (add_logs (l ∷ ls) w).1.db.logs (add_logs (l ∷ ls) w).0
    by_result more (ok u) h =
        let v = (sql (insert_log l) w).1 in
        rw (add_logs-cons l ls w h)
          (cons-Added l ls w v (add_logs ls v).1.db.logs (add_logs ls v).0 h refl more)
    by_result more (err e) h = rw (add_logs-refused l ls w e h) (
        inr (
          e,
          (
            [],
            (
              l,
              (
                ls,
                (
                  refl,
                  refl,
                  add_logs_nil w,
                  ap (λ u. (sql (insert_log l) u).0) (db-add_logs_nil w) ∙ h,
                  log_refused l w h ∙ sym (append_nil w.db.logs),
                ),
              ),
            ),
          ),
        ))
