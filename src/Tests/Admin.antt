-- ===== src/Tests/Admin.antt =====
-- The administration tools, the attached databases and the new clients at concrete inputs.
use cmail.Base.{
  true, false, not, ◌&&◌, List, [], ◌∷◌, ◌++◌, some, none, is_some, ◌≡◌, refl, arith, Bytes, codes,
  str_eq, int_eq, pos, negsuc, replicate, is_one_of, if◌then◌else◌, ◌==◌,
}
use cmail.Net.{tls_none}
use cmail.Auth.Credentials.{auth_validate, granted}
use cmail.Common.ConnPool.{ConnPool, connpool_active}
use cmail.Admin.Statement.{succeeds}
use cmail.Admin.Permissions.{Api, has_row}
use cmail.Admin.Permissions.Refine.{
  Command, grant, revoke, has, run_all, switched_all, run_all-switched,
}
use cmail.Admin.Address as Address
use cmail.Admin.Address.{Entry, SwapSql, fetched, sqlite_swap, entry_at}
use cmail.Admin.Address.Swap.{Swaps, sqlite_swap-Swaps}
use cmail.Admin.Password.{ask_password}
use cmail.Admin.User as User
use cmail.Admin.User.{Input, mode_passwd, mode_revoke}
use cmail.Admin.User.Login.{query_of, typed_password_logs_in}
use cmail.Admin.Popd as Popd
use cmail.Admin.Popd.Logins.{MeetsLock, rows_of, commands-MeetsLock}
use cmail.Popd.Types as Pop
use cmail.Smtpd.Session.{Listener}
use cmail.Smtpd.Accept.{Arrival, client_accept}
use cmail.Smtpd.Accept.Fresh.{IsAccepted, client_accept-IsAccepted}
use cmail.Smtpd.Client.{Client}
use cmail.Smtpd.Database.{UserDatabase, database_refresh, database_userdb}
use cmail.Smtpd.Database.Refresh.{all_ok, holds, database_refresh_toggles}
use cmail.Smtpd.PathPool.{PathPool}
use cmail.Tests.Data.{listener}

abbrev api : Api
api = record {
  users = codes "ann" ∷ codes "bob" ∷ [];
  access = (codes "bob", codes "mail") ∷ (codes "bob", codes "admin") ∷ [];
  address_delegates = [];
  user_delegates = [];
}

abbrev commands : List Command
commands =
    grant (codes "ann") (codes "mail")
    ∷ revoke (codes "bob") (codes "mail" ∷ [])
    ∷ revoke (codes "bob") []
    ∷ []

run_all-switched_example :
    has (run_all commands api) (codes "bob") (codes "admin")
    ≡ switched_all api.users
        (codes "bob")
        (codes "admin")
        commands
        (has api (codes "bob") (codes "admin"))
run_all-switched_example = run_all-switched commands api (codes "bob") (codes "admin")

-- "revoke bob" is to take all permissions of bob, and takes none.
still_admin : has (run_all commands api) (codes "bob") (codes "admin") ≡ true
unfolding has str_eq cmail.Admin.Permissions.mode_grant cmail.Admin.Permissions.mode_revoke
still_admin = refl

abbrev entry : Bytes → Entry
entry expression = record {
  address_expression = expression;
  address_router = codes "drop";
  address_route = none;
}

abbrev addresses : Address.Table
addresses = (pos 1, entry (codes "a%")) ∷ (pos 2, entry (codes "b%")) ∷ []

abbrev swap_sql : SwapSql
swap_sql = record {
  are_prepared = true;
  is_fetch_bound = true;
  fetch = fetched true;
  begins = true;
  deletion = succeeds;
  is_update_bound = true;
  is_update_executed = true;
  insertion = succeeds;
  commits = true;
}

sqlite_swap-Swaps_example :
    Swaps (pos 1) (pos 2) (pos 2) addresses (sqlite_swap swap_sql addresses (pos 1) (pos 2))
sqlite_swap-Swaps_example =
    sqlite_swap-Swaps swap_sql (pos 1) (pos 2) (pos 2) addresses refl refl refl

swapped_rows :
    sqlite_swap swap_sql addresses (pos 1) (pos 2)
    ≡ ((pos 2, entry (codes "a%")) ∷ (pos 1, entry (codes "b%")) ∷ [], pos 0)
unfolding sqlite_swap int_eq
swapped_rows = refl

-- A deletion that fails is taken for one that was done: the entry is there twice.
doubled :
    (sqlite_swap
      (record swap_sql { deletion = record succeeds { is_executed = false } })
      addresses
      (pos 1)
      (pos 3)).0
    ≡ (pos 3, entry (codes "a%")) ∷ addresses
unfolding sqlite_swap int_eq
doubled = refl

abbrev users : User.Table
users = User.new_user (codes "ann") none ∷ User.new_user (codes "bob") none ∷ []

abbrev input : Input
input = record {
  hash = λ salt password. replicate 64 (if str_eq password (codes "pw") then 65 else 66);
  randomness = some (replicate 10 7);
  keys = codes "pw" ++ 10 ∷ [];
}

typed_password_logs_in_example :
    auth_validate input.hash
      (query_of (codes "bob") (mode_passwd input succeeds users (codes "bob" ∷ [])).0)
      (some (codes "bob"))
      (some (codes "pw"))
    ≡ granted (some (codes "bob"))
unfolding str_eq User.user_of
typed_password_logs_in_example =
    typed_password_logs_in input users (codes "bob") (User.new_user (codes "bob") none)
      (replicate 10 7) refl refl refl b'p' (b'w' ∷ []) [] refl refl (omega arith) refl (omega arith)

-- Backspace does not take the first key back.
first_key_stays :
    (ask_password (b'a' ∷ 8 ∷ b'b' ∷ 10 ∷ []) (replicate 5 0) 5).1 ≡ b'a' ∷ b'b' ∷ 0 ∷ 0 ∷ 0 ∷ []
unfolding ask_password
first_key_stays = refl

abbrev locks : Popd.Table
locks = record {
  users = codes "ann" ∷ codes "bob" ∷ [];
  locks = record { pop_user = codes "bob"; pop_lock = true } ∷ [];
}

abbrev pop_database : Pop.Database
pop_database = record {
  locks = [];
  master = record { mailbox = []; deletions = [] };
  user_table = record { mailbox = []; deletions = [] };
}

commands-MeetsLock_example :
    MeetsLock pop_database (codes "bob") (pos 0) (Popd.mode_add succeeds locks (codes "bob" ∷ []))
    × MeetsLock pop_database
        (codes "bob")
        (if rows_of (codes "bob") locks.locks == 1 then pos 0 else negsuc 0)
        (Popd.mode_unlock true succeeds locks (codes "bob" ∷ []))
    × MeetsLock pop_database
        (codes "bob")
        (negsuc 0)
        (Popd.mode_delete succeeds locks (codes "bob" ∷ []))
commands-MeetsLock_example = commands-MeetsLock pop_database true succeeds locks (codes "bob")

abbrev old_db : UserDatabase
old_db = record { is_open = true; active = true; file_name = some (codes "old.db") }

-- The query names the database that is attached, and a new one.
database_refresh_toggles_example :
    is_some (
      database_userdb
        (database_refresh
          (λ n. all_ok)
          true
          (codes "new.db" ∷ codes "old.db" ∷ [])
          true
          (some (old_db ∷ []))).0
        (codes "old.db"))
    ≡ (is_one_of (codes "old.db") (codes "new.db" ∷ codes "old.db" ∷ [])
        && not (holds (codes "old.db") (old_db ∷ [])))
database_refresh_toggles_example =
    database_refresh_toggles (λ n. all_ok) (codes "new.db" ∷ codes "old.db" ∷ []) (old_db ∷ [])
      (codes "old.db") (λ m. refl) (refl, tt)

abbrev pub arrival : Arrival
arrival = record {
  incoming = record { fd = some 5; pool_alloc = true; data_alloc = true };
  time = 9;
  peer = some (codes "peer");
  copies_authenticated = true;
  copies_authorized = true;
  outbound = record { bind_ok = true; answer = none; router_alloc = true; argument_alloc = true };
  tls_init = pos 0;
}

abbrev no_paths : PathPool
no_paths = record { paths = []; lost = false }

abbrev clients : ConnPool Client
clients = record {
  conns = some (record { tls_mode = tls_none; fd = none; aux_data = none } ∷ []);
  count = 1;
}

abbrev with_user : Listener
with_user = record listener { fixed_user = some (codes "joe") }

client_accept-IsAccepted_example :
    IsAccepted with_user arrival no_paths (client_accept with_user arrival no_paths clients)
unfolding connpool_active
client_accept-IsAccepted_example =
    client_accept-IsAccepted with_user arrival no_paths clients 0 refl (omega arith)
