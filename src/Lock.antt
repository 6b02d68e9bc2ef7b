-- ===== src/Lock.antt =====
-- backend/pkg/lock/lock.go, on the client of backend/internal/platform/cache/cache.go: the keys of
-- Redis with their values and their ends. A token is the text of `uuid.NewString()`, `now` the clock
-- of Redis; `pg unreachable` stands for any failure to reach it.
pub mod Exclusive
use codity_assignment.Base.{
  Option, List, ℕ, String, Bool, some, str_eq, ◌&&◌, str_append, if◌then◌else◌, none, ltb, any_row,
  first_row, where_rows, update_rows, false, true, ◌+◌, not, ◌∷◌, ◌==◌,
}
use codity_assignment.Errors.{GoError, errorf, wrapf}
use codity_assignment.Exec.{
  Exec, Result, sql, ◌>>=◌, query, map_err, ok, attempt, ◌>>◌, pure, lift, raise,
}

pub record Entry : Type 0 where
  pub key : String
  pub value : String
  -- `none` for a key without an end.
  pub expires_at : Option ℕ

abbrev pub Redis : Type 0
Redis = List Entry

abbrev pub has_key : String → Entry → Bool
has_key k e = str_eq e.key k

abbrev not_over : ℕ → Option ℕ → Bool
not_over now none = true
not_over now (some t) = ltb now t

abbrev pub is_live : String → ℕ → Entry → Bool
is_live k now e = has_key k e && not_over now e.expires_at

-- The client writes no end for a ttl of 0.
abbrev pub end_of : ℕ → ℕ → Option ℕ
end_of now ttl = if ttl == 0 then none else some (now + ttl)

-- SET key value NX PX ttl.
unfoldable pub set_nx : String → String → ℕ → ℕ → Redis → Result Bool × Redis
set_nx k v ttl now d = if any_row (is_live k now) d then (ok false, d) else (
  ok true,
  record { key = k; value = v; expires_at = end_of now ttl }
      ∷ where_rows (λ e. not (has_key k e)) d,
)

abbrev value_of : Option Entry → String
value_of none = ""
value_of (some e) = e.value

-- `Get`: a key that is not there reads as the empty text.
unfoldable pub redis_get : String → ℕ → Exec Redis String
redis_get k now = query (λ d. ok (value_of (first_row (is_live k now) d)))

unfoldable pub redis_del : String → Exec Redis (Unit {0})
redis_del k = sql (λ d. (ok tt, where_rows (λ e. not (has_key k e)) d))

unfoldable pub redis_expire : String → ℕ → ℕ → Exec Redis (Unit {0})
redis_expire k ttl now =
    sql (λ d.
      (ok tt, update_rows (is_live k now) (λ e. record e { expires_at = some (now + ttl) }) d))

pub record Lock : Type 0 where
  pub key : String
  pub token : String
  pub ttl : ℕ

abbrev pub not_acquired : GoError
not_acquired = errorf "lock not acquired: already held"

unfoldable pub acquire : String → String → ℕ → ℕ → Exec Redis Lock
unfolding set_nx
acquire name token ttl now = do
  let k = str_append "lock:" name
  acquired ←
      map_err (wrapf (str_append "redis setnx for lock " name)) (sql (set_nx k token ttl now))
  if not acquired then raise not_acquired else pure (record { key = k; token = token; ttl = ttl })

-- The value is read at one time, and the key deleted by another call.
unfoldable pub release : Lock → ℕ → Exec Redis (Unit {0})
unfolding redis_get redis_del
release l now = do
  val ← map_err (wrapf "get lock token") (redis_get l.key now)
  if str_eq val ""
      then pure tt
      else if not (str_eq val l.token)
      then raise (errorf "lock token mismatch: not the owner")
      else redis_del l.key

unfoldable pub extend : Lock → ℕ → Exec Redis (Unit {0})
unfolding redis_expire
extend l now = redis_expire l.key l.ttl now

-- A node works on Redis and on a store beside it.
module _ {T A : Type 0} where
  unfoldable pub on_redis : Exec Redis A → Exec (Redis × T) A
  on_redis m w =
      let (r, u) = m (record { db = w.db.0; calls = w.calls; down = w.down }) in
      (r, record { db = (u.db, w.db.1); calls = u.calls; down = u.down })

  unfoldable pub on_store : Exec T A → Exec (Redis × T) A
  on_store m w =
      let (r, u) = m (record { db = w.db.1; calls = w.calls; down = w.down }) in
      (r, record { db = (w.db.0, u.db); calls = u.calls; down = u.down })

-- The function runs if the lock is acquired; the error of the deferred release is dropped. `later`
-- is the clock when it has run.
module _ {T : Type 0} where
  unfoldable pub try_with_lock :
      String → String → ℕ → ℕ → ℕ → Exec (Redis × T) (Unit {0}) → Exec (Redis × T) (Unit {0})
  unfolding acquire release
  try_with_lock name token ttl now later body = do
    l ← on_redis (acquire name token ttl now)
    result ← attempt body
    attempt (on_redis (release l later))
    lift result
