-- ===== src/Examples/Accounts.antt =====
-- The theorems on users, refresh tokens and batches at concrete tables.
use codity_assignment.Domain.Batch.{Batch, BatchStatus}
use codity_assignment.BatchRepo.{increment_counters}
use codity_assignment.Domain.User.{RefreshToken}
use codity_assignment.Exec.{World, sql}
use codity_assignment.Base.{pos, false, ◌+ℤ◌, All, ◌∷◌, [], refl}
use codity_assignment.Store.{Db}
use codity_assignment.Examples.{tables}
use codity_assignment.BatchRepo.Counters.{IsBalanced, increment_counters-IsBalanced}

abbrev token : RefreshToken
token = record {
  id = 1;
  user_id = 3;
  token_hash = "h1";
  expires_at = 800;
  revoked = false;
  user_agent = "";
  ip_address = "";
  created_at = 0;
}

abbrev batch : Batch
batch = record {
  id = 4;
  queue_id = 1;
  name = "b";
  total_jobs = pos 3;
  pending_count = pos 2;
  succeeded_count = pos 1;
  failed_count = pos 0;
  status = BatchStatus.running;
  created_at = 0;
  updated_at = 0;
}

abbrev accounts : World Db
accounts = record {
  db = record tables {
    refresh_tokens = token ∷ record token { id = 2; user_id = 5; token_hash = "h2" } ∷ [];
    batches = batch ∷ [];
  };
  calls = 0;
  down = λ n. false;
}

increment_counters-IsBalanced_example :
    All IsBalanced (increment_counters 4 (pos 1) (pos 1) 500 accounts).1.db.batches
unfolding increment_counters sql ◌+ℤ◌
increment_counters-IsBalanced_example =
    increment_counters-IsBalanced 4 (pos 1) (pos 1) 500 accounts (refl, tt) refl
