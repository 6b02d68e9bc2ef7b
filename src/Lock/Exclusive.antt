-- ===== src/Lock/Exclusive.antt =====
-- Who holds a lock, and who may release it.
use codity_assignment.Lock.{
  acquire, release, redis_get, Lock, Redis, Entry, is_live, not_acquired, has_key, end_of,
}
use codity_assignment.Exec.{◌>>=◌, map_err, sql, query, World, ok, err}
use codity_assignment.Base.{
  any_row, ℕ, String, ◌≡◌, first_row, ◌<◌, some, ◌+◌, str_eq, false, arith, ◌∷◌, str_append, true,
  eq_iff, ap, where_rows, not, refl, ◌∙◌,
}
use codity_assignment.Errors.{errorf}

acquire-ok :
    (name token : String) (ttl now : ℕ) (w : World Redis) (l : Lock)
    → (acquire name token ttl now w).0 ≡ ok l
    → (acquire name token ttl now w).1.db
      ≡ record { key = str_append "lock:" name; value = token; expires_at = end_of now ttl }
        ∷ where_rows (λ e. not (has_key (str_append "lock:" name) e)) w.db
unfolding acquire ◌>>=◌ map_err sql
acquire-ok name token ttl now w l h = ground arith

pub acquire_held :
    (name token : String) (ttl now : ℕ) (w : World Redis)
    → any_row (is_live (str_append "lock:" name) now) w.db ≡ true
    → w.down w.calls ≡ false
    → ((acquire name token ttl now w).0 ≡ err not_acquired)
      × ((acquire name token ttl now w).1.db ≡ w.db)
unfolding acquire ◌>>=◌ map_err sql
acquire_held name token ttl now w held up = ground arith

str_eq_refl : (k : String) → str_eq k k ≡ true
str_eq_refl k = (eq_iff k k).1 refl

still_held :
    (k token : String) (now ttl later : ℕ) (d : Redis)
    → later < now + ttl
    → any_row (is_live k later) (record { key = k; value = token; expires_at = end_of now ttl } ∷ d)
      ≡ true
unfolding any_row
still_held k token now ttl later d before = let e = str_eq_refl k in ground arith

-- An attempt on the keys that an acquisition has left, before the time of the lock has passed, is
-- told that the lock is held, and changes nothing, if it reaches Redis, whatever its token and its
-- own time. Nothing lies between the two: a release of the holder would let it through.
pub acquire_exclusive :
    (name token other : String) (ttl ttl' now later : ℕ) (w : World Redis) (l : Lock)
    → (acquire name token ttl now w).0 ≡ ok l
    → later < now + ttl
    → (acquire name token ttl now w).1.down (acquire name token ttl now w).1.calls ≡ false
    → let w1 = (acquire name token ttl now w).1 in
      ((acquire name other ttl' later w1).0 ≡ err not_acquired)
      × ((acquire name other ttl' later w1).1.db ≡ w1.db)
acquire_exclusive name token other ttl ttl' now later w l h before up =
    let w1 = (acquire name token ttl now w).1 in
    let k = str_append "lock:" name in
    let held : any_row (is_live k later) w1.db ≡ true =
      ap (λ d. any_row (is_live k later) d) (acquire-ok name token ttl now w l h)
      ∙ still_held k token now ttl later (where_rows (λ e. not (has_key k e)) w.db) before in
    acquire_held name other ttl' later w1 held up

-- A release while another token has the key is refused, and changes nothing.
pub release-other :
    (l : Lock) (now : ℕ) (w : World Redis) (e : Entry)
    → first_row (is_live l.key now) w.db ≡ some e
    → str_eq e.value "" ≡ false
    → str_eq e.value l.token ≡ false
    → w.down w.calls ≡ false
    → ((release l now w).0 ≡ err (errorf "lock token mismatch: not the owner"))
      × ((release l now w).1.db ≡ w.db)
unfolding release redis_get ◌>>=◌ map_err query sql
release-other l now w e found nonempty other up = ground arith
