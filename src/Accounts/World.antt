-- ===== src/Accounts/World.antt =====
-- What an operation on an account changes: the tables, the callbacks that wait for the commit
-- (`transaction.on_commit`), and the messages for sources that are handed to the task queue.
use cloudigrade.Prelude.{ℕ, Bool, Option, List, [], ◌∷◌, ◌++◌, map, any, ◌==◌, if◌then◌else◌}
use cloudigrade.Models.{CloudAccount, Db}

-- The callbacks, with the id of the account.
pub data CommitTask : Type 0 where
  initial_aws_describe_instances initial_azure_vm_discovery delete_cloudtrail : ℕ → CommitTask

-- `notify_application_availability_task.delay`: the error's number stands for its message.
pub record Notice : Type 0 where
  pub application_id : ℕ
  pub is_available : Bool
  pub error_code : Option ℕ

pub record World : Type 0 where
  pub db : Db
  pub on_commit : List CommitTask
  pub notices : List Notice

abbrev pub later_task : CommitTask → World → World
later_task task w = record w { on_commit = w.on_commit ++ task ∷ [] }

abbrev pub notify : Notice → World → World
notify notice w = record w { notices = w.notices ++ notice ∷ [] }

-- `transaction.set_rollback(True)`: the tables and callbacks of the transaction's start; messages
-- that were sent stay sent.
abbrev pub roll_back : World → World → World
roll_back start w = record w { db = start.db; on_commit = start.on_commit }

abbrev pub has_account_id : ℕ → CloudAccount → Bool
has_account_id i a = a.id == i

abbrev pub replace_account : CloudAccount → List CloudAccount → List CloudAccount
replace_account account rows =
    map (λ (a : CloudAccount). if a.id == account.id then account else a) rows

-- `account.save()`: an UPDATE of every column, or an INSERT where no row has the id.
unfoldable pub save_account : CloudAccount → Db → Db
save_account account db =
    if any (has_account_id account.id) db.cloud_accounts
    then record db { cloud_accounts = replace_account account db.cloud_accounts }
    else record db { cloud_accounts = db.cloud_accounts ++ account ∷ [] }
