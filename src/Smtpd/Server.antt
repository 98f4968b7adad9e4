-- ===== src/Smtpd/Server.antt =====
-- cmail-smtpd/coreloop.c: the loop over the clients and the listeners. The work of a round is a list: a
-- visit for each slot of the pool of clients, and then a client for each listener that has one.
pub mod Sound
pub mod Shutdown
use cmail.Base.{
  ℕ, zero, suc, ◌+◌, Bool, true, false, List, [], ◌∷◌, ◌++◌, Option, none, some, if◌then◌else◌,
  ◌==◌, set, get_elem?,
}
use cmail.Common.ConnPool.{Connection, ConnPool, connpool_free}
use cmail.Common.NextLine.{Input}
use cmail.Common.Accept.{Taken, undefined, refused, taken, take_slot}
use cmail.Smtpd.PathPool.{PathPool, pathpool_free}
use cmail.Smtpd.Session.{Listener, line}
use cmail.Smtpd.Client.{
  Client, Moment, Reading, Round, client_process, client_timeout, client_memtimeout, client_free,
  close, say,
}
use cmail.Smtpd.Accept.{Arrival, Accepted, client_accept, cmail_max_concurrent_clients}

-- The locals of core_loop. The receive buffer and the listener of a client stand beside its slot.
pub record Server : Type 0 where
  pub clients : ConnPool Client
  pub path_pool : PathPool
  pub inputs : ℕ → Input
  pub owners : ℕ → Listener

-- What select says of a client and what is then read, and the time
pub record Visit : Type 0 where
  pub readable : Option ((Moment × Reading) × List (Moment × Reading))
  pub now : ℕ

abbrev pub processed : Round → Client × Input
processed r = (r.client, r.input)

unfoldable pub on_select :
    Listener
    → Visit
    → Input
    → Client
    → Option ((Moment × Reading) × List (Moment × Reading))
    → Client × Input
unfolding client_process client_timeout
on_select l v i c (some (first, rest)) = processed (client_process l c i first rest)
on_select l v i c none =
    if client_timeout c v.now then (close (say c (line "500 Timed out\r\n")), i) else (c, i)

unfoldable pub tend : Listener → Visit → Input → Client → Option ℕ → Client × Input
unfolding on_select client_memtimeout
tend l v i c (some fd) = on_select l v i c v.readable
tend l v i c none = (client_memtimeout c v.now, i)

abbrev pub at {ℓ} : {A : Type ℓ} → (ℕ → A) → ℕ → A → ℕ → A
at f i a j = if j == i then a else f j

-- The descriptor of a client that was closed is -1.
abbrev pub kept_fd : Bool → Option ℕ → Option ℕ
kept_fd true fd = fd
kept_fd false fd = none

abbrev pub put : Server → ℕ → List (Connection Client) → Connection Client → Client × Input → Server
put sv i cs conn (c, input) = record sv {
  clients = record sv.clients {
    conns =
        some
          (set cs i (record conn { fd = kept_fd c.session.connected conn.fd; aux_data = some c }));
  };
  path_pool = c.session.pool;
  inputs = at sv.inputs i input;
}

abbrev pub with_pool : Client → PathPool → Client
with_pool c pool = record c { session = record c.session { pool = pool } }

-- `none` where the behaviour of C is undefined
abbrev pub visit_client :
    Server
    → Visit
    → ℕ
    → List (Connection Client)
    → Connection Client
    → Option Client
    → Option Server
visit_client sv v i cs conn none = none
visit_client sv v i cs conn (some c) =
    some (put sv i cs conn (tend (sv.owners i) v (sv.inputs i) (with_pool c sv.path_pool) conn.fd))

abbrev pub visit_conn :
    Server → Visit → ℕ → List (Connection Client) → Option (Connection Client) → Option Server
visit_conn sv v i cs none = none
visit_conn sv v i cs (some conn) = visit_client sv v i cs conn conn.aux_data

unfoldable pub visit_slot : Server → Visit → ℕ → Option (List (Connection Client)) → Option Server
unfolding tend
visit_slot sv v i none = none
visit_slot sv v i (some cs) = visit_conn sv v i cs (get_elem? cs i)

-- The slot that client_accept takes gets an empty buffer, and its listener.
abbrev pub empty_input : Input
empty_input = record { kept = []; fresh = [] }

abbrev pub seated : Server → Listener → Taken Client → Server
seated sv l undefined = sv
seated sv l (refused clients rv) = sv
seated sv l (taken cs i old) = record sv {
  inputs = at sv.inputs i empty_input;
  owners = at sv.owners i l;
}

abbrev pub on_accepted : Server → Option Accepted → Option Server
on_accepted sv none = none
on_accepted sv (some r) = some (record sv { clients = r.clients })

pub data Work : Type 0 where
  visit : ℕ → Visit → Work
  accept : Listener → Arrival → Work

unfoldable pub do_work : Work → Server → Option Server
unfolding visit_slot client_accept take_slot
do_work (visit i v) sv = visit_slot sv v i sv.clients.conns
do_work (accept l a) sv =
    on_accepted (seated sv l (take_slot cmail_max_concurrent_clients sv.clients a.incoming))
      (client_accept l a sv.path_pool sv.clients)

abbrev pub then_do : Option Server → (Server → Option Server) → Option Server
then_do none next = none
then_do (some sv) next = next sv

unfoldable pub run : List Work → Server → Option Server
unfolding do_work
run [] sv = some sv
run (w ∷ ws) sv = then_do (do_work w sv) (run ws)

-- One call of select, for the clients by their slots and for the listeners
pub record Turn : Type 0 where
  pub visits : ℕ → Visit
  pub arrivals : List (Listener × Arrival)

abbrev pub visits_from : (ℕ → Visit) → ℕ → ℕ → List Work
visits_from f i zero = []
visits_from f i (suc n) = visit i (f i) ∷ visits_from f (i + 1) n

abbrev pub accepts : List (Listener × Arrival) → List Work
accepts [] = []
accepts ((l, a) ∷ more) = accept l a ∷ accepts more

unfoldable pub turn_work : ℕ → Turn → List Work
turn_work count t = visits_from t.visits 0 count ++ accepts t.arrivals

-- The turns up to the signal, or to the failure of select
unfoldable pub core_loop : List Turn → Server → Option Server
unfolding run turn_work
core_loop [] sv = some sv
core_loop (t ∷ ts) sv = then_do (run (turn_work sv.clients.count t) sv) (core_loop ts)

-- The locals at the start; `l` stands for the listeners that no client has yet.
unfoldable pub no_clients : Listener → Server
no_clients l = record {
  clients = record { conns = none; count = 0 };
  path_pool = record { paths = []; lost = false };
  inputs = λ i. empty_input;
  owners = λ i. l;
}

-- The end of core_loop: the clients are closed where they are connected, and give back what they hold.
abbrev pub close_connected : Client → Option ℕ → Client
close_connected c none = c
close_connected c (some fd) = close c

unfoldable pub leave : PathPool → Connection Client → Client → Client
unfolding client_free
leave pool conn c =
    let c' = close_connected (with_pool c pool) conn.fd in
    record c' { session = client_free c'.session }

-- The connections, and the pool of paths; `none` for a slot without data, where C is undefined
abbrev pub and_later :
    Connection Client
    → Client
    → Option (List (Connection Client) × PathPool)
    → Option (List (Connection Client) × PathPool)
and_later conn c none = none
and_later conn c (some (cs, pool)) = some (record conn { fd = none; aux_data = some c } ∷ cs, pool)

abbrev pub leave_first :
    (PathPool → Option (List (Connection Client) × PathPool))
    → PathPool
    → Connection Client
    → Option Client
    → Option (List (Connection Client) × PathPool)
leave_first later pool conn none = none
leave_first later pool conn (some c) =
    and_later conn (leave pool conn c) (later (leave pool conn c).session.pool)

unfoldable pub leave_all :
    List (Connection Client) → PathPool → Option (List (Connection Client) × PathPool)
unfolding leave
leave_all [] pool = some ([], pool)
leave_all (conn ∷ cs) pool = leave_first (leave_all cs) pool conn conn.aux_data

abbrev pub freed : Server → Option (List (Connection Client) × PathPool) → Option (List ℕ × Server)
freed sv none = none
freed sv (some (cs, pool)) =
    let (fds, clients) = connpool_free (record sv.clients { conns = some cs }) in
    some (fds, record sv { clients = clients; path_pool = pathpool_free pool })

-- Without a table it is not defined unless `count` is 0.
abbrev pub shutdown_of : Server → Option (List (Connection Client)) → Option (List ℕ × Server)
shutdown_of sv none =
    if sv.clients.count == 0
    then some ([], record sv { path_pool = pathpool_free sv.path_pool })
    else none
shutdown_of sv (some cs) = freed sv (leave_all cs sv.path_pool)

-- With the descriptors that connpool_free closes
unfoldable pub shutdown : Server → Option (List ℕ × Server)
unfolding leave_all connpool_free pathpool_free
shutdown sv = shutdown_of sv sv.clients.conns
