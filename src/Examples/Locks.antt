-- ===== src/Examples/Locks.antt =====
-- The theorems on locks at concrete keys.
use codity_assignment.Lock.{acquire, Lock, Redis, set_nx, not_acquired}
use codity_assignment.Exec.{World, ◌>>=◌, map_err, sql, err}
use codity_assignment.Base.{some, [], ◌∷◌, ◌≡◌, false, any_row, refl, arith}
use codity_assignment.Lock.Exclusive.{acquire_exclusive}

abbrev redis : World Redis
redis = record { db = []; calls = 0; down = λ n. false }

abbrev cron_lock : Lock
cron_lock = record { key = "lock:cron"; token = "t1"; ttl = 30 }

abbrev held : World Redis
held = record redis { db = record { key = "lock:cron"; value = "t2"; expires_at = some 90 } ∷ [] }

acquire_exclusive_example :
    let w1 = (acquire "cron" "t1" 30 100 redis).1 in
    ((acquire "cron" "t2" 30 120 w1).0 ≡ err not_acquired)
    × ((acquire "cron" "t2" 30 120 w1).1.db ≡ w1.db)
unfolding acquire ◌>>=◌ map_err sql set_nx any_row
acquire_exclusive_example =
    acquire_exclusive "cron" "t1" "t2" 30 30 100 120 redis cron_lock refl (omega arith) refl
