-- ===== src/Smtpd/Server/Sound/Relay.antt =====
-- cmail-smtpd/coreloop.c: no client of the server is an open relay, whatever the other clients do.
use cmail.Base.{
  ℕ, false, List, [], ◌∷◌, Option, none, some, ◌≡◌, ◌⊎◌, inl, inr, refl, sym, ◌∙◌, ap, Bytes, ℤ,
  get_elem?, set,
}
use mathlib.Core.Path.{subst}
use cmail.Net.{TlsMode, tls_none, tls_negotiate, tls_only}
use cmail.Common.ConnPool.{Connection, ConnPool}
use cmail.Common.Accept.{Taken, undefined, refused, taken, take_slot, hold}
use cmail.Common.Accept.Limit.{data_at}
use cmail.Common.Accept.Seats.{
  seat, Stay, TakenStay, data_at-set_self, data_at-set_ne, data_at-get, take_slot-Stay,
  data_at-hold_cases,
}
use cmail.Smtpd.PathPool.{PathPool}
use cmail.Smtpd.Delivery.{mail_route}
use cmail.Smtpd.Session.{Session, Listener, Answers, Delivery, is_authenticated}
use cmail.Smtpd.State.{client_line}
use cmail.Smtpd.Relay.Sound.{IsSound, client_line-IsSound, IsSound-mail_route}
use cmail.Smtpd.Client.{Client}
use cmail.Smtpd.Accept.{
  Arrival, Accepted, client_accept, on_taken, greet, new_client, cmail_max_concurrent_clients,
}
use cmail.Smtpd.Server.{
  Server, Visit, Work, visit, accept, tend, with_pool, visit_client, visit_conn, visit_slot, seated,
  on_accepted, do_work, then_do, run, Turn, turn_work, core_loop, no_clients, kept_fd,
}
use cmail.Smtpd.Server.Sound.{tend-IsSound, tend-IsForeign}
use cmail.Smtpd.Server.Sound.Good.{IsGood, IsIdle, client_at, OnSound, served-IsGood, seated-IsGood}

abbrev GoodServer : Server → Type 0
GoodServer sv = IsGood sv.path_pool (seat sv.clients.conns)

-- What holds where the behaviour is defined
abbrev OnGood : Option Server → Type 0
OnGood none = Unit
OnGood (some sv) = GoodServer sv

visit_client-OnGood :
    (sv : Server) (v : Visit) (i : ℕ) (cs : List (Connection Client)) (conn : Connection Client)
    (o : Option Client)
    → sv.clients.conns ≡ some cs
    → get_elem? cs i ≡ some conn
    → conn.aux_data ≡ o
    → GoodServer sv
    → OnGood (visit_client sv v i cs conn o)
visit_client-OnGood sv v i cs conn none e k m g = tt
visit_client-OnGood sv v i cs conn (some c) e k m g =
    served-IsGood (sv.owners i) sv.path_pool (seat sv.clients.conns)
      (λ j. data_at j (set cs i changed)) i c d (ap (λ o. seat o i) e ∙ data_at-get cs i conn k ∙ m)
      (data_at-set_self cs i conn changed k)
      (λ j ne. data_at-set_ne cs i j changed ne ∙ sym (ap (λ o. seat o j) e))
      (tend-IsSound (sv.owners i) v (sv.inputs i) (with_pool c sv.path_pool) conn.fd)
      (λ x p used.
        tend-IsForeign x p used (sv.owners i) v (sv.inputs i) (with_pool c sv.path_pool) conn.fd)
      g
  where
    d : Client
    d = (tend (sv.owners i) v (sv.inputs i) (with_pool c sv.path_pool) conn.fd).0

    changed : Connection Client
    changed = record conn { fd = kept_fd d.session.connected conn.fd; aux_data = some d }

visit_slot-OnGood :
    (sv : Server) (v : Visit) (i : ℕ) (o : Option (List (Connection Client)))
    → sv.clients.conns ≡ o
    → GoodServer sv
    → OnGood (visit_slot sv v i o)
unfolding visit_slot
visit_slot-OnGood sv v i none e g = tt
visit_slot-OnGood sv v i (some cs) e g = go (get_elem? cs i) refl
  where
    go : (c : Option (Connection Client)) → get_elem? cs i ≡ c → OnGood (visit_conn sv v i cs c)
    go none k = tt
    go (some conn) k = visit_client-OnGood sv v i cs conn conn.aux_data e k refl g

-- Who sits where after client_accept
abbrev Joins : (ℕ → Option Client) → Option Accepted → Type 0
Joins who none = Unit
Joins who (some r) = (j : ℕ) → (seat r.clients.conns j ≡ who j) ⊎ IsIdle (seat r.clients.conns j)

IsIdle-none : (o : Option Client) → o ≡ none → IsIdle o
IsIdle-none o e = subst IsIdle (sym e) tt

new_client-IsIdle :
    (l : Listener) (a : Arrival) (pool : PathPool) (old : Option Client)
    → IsIdle (some (new_client l a pool old))
unfolding new_client
new_client-IsIdle l a pool old = refl

hold-Joins :
    (who : ℕ → Option Client) (cs : List (Connection Client)) (i : ℕ) (c : Client)
    (mode : Option TlsMode)
    → IsIdle (some c)
    → Stay who (some cs)
    → (j : ℕ) → (data_at j (hold i c mode cs) ≡ who j) ⊎ IsIdle (data_at j (hold i c mode cs))
hold-Joins who cs i c mode idle h j = elim (data_at-hold_cases i c mode cs j) [
  | inr e ↦ inr (subst IsIdle (sym e) idle)
  | inl e ↦ elim (h j) [
    | inl k ↦ inl (e ∙ k)
    | inr k ↦ inr (IsIdle-none (data_at j (hold i c mode cs)) (e ∙ k))
  ]
]

on_taken-Joins :
    (l : Listener) (a : Arrival) (pool : PathPool) (who : ℕ → Option Client) (t : Taken Client)
    → TakenStay who t
    → Joins who (on_taken l a pool t)
on_taken-Joins l a pool who undefined h = tt
on_taken-Joins l a pool who (refused clients rv) h =
    λ j. elim (h j) [ inl k ↦ inl k | inr k ↦ inr (IsIdle-none (seat clients.conns j) k) ]
on_taken-Joins l a pool who (taken cs i old) h = go l.tls_mode
  where
    go : (mode : TlsMode) → Joins who (some (greet l a mode cs i (new_client l a pool old)))
    go tls_none =
        hold-Joins who cs i (new_client l a pool old) none (new_client-IsIdle l a pool old) h
    go tls_negotiate =
        hold-Joins who cs i (new_client l a pool old) none (new_client-IsIdle l a pool old) h
    go tls_only =
        hold-Joins who cs i (new_client l a pool old) (some tls_negotiate)
          (new_client-IsIdle l a pool old) h

client_accept-Joins :
    (l : Listener) (a : Arrival) (pool : PathPool) (clients : ConnPool Client)
    → Joins (seat clients.conns) (client_accept l a pool clients)
unfolding client_accept
client_accept-Joins l a pool clients =
    on_taken-Joins l a pool (seat clients.conns)
      (take_slot cmail_max_concurrent_clients clients a.incoming)
      (take_slot-Stay cmail_max_concurrent_clients clients a.incoming)

on_accepted-OnGood :
    (sv sv' : Server) (r : Option Accepted)
    → sv'.path_pool ≡ sv.path_pool
    → Joins (seat sv.clients.conns) r
    → GoodServer sv
    → OnGood (on_accepted sv' r)
on_accepted-OnGood sv sv' none e h g = tt
on_accepted-OnGood sv sv' (some r) e h g =
    subst (λ pool. IsGood pool (seat r.clients.conns)) (sym e)
      (seated-IsGood sv.path_pool (seat sv.clients.conns) (seat r.clients.conns) h g)

seated-path_pool :
    (sv : Server) (l : Listener) (t : Taken Client) → (seated sv l t).path_pool ≡ sv.path_pool
seated-path_pool sv l undefined = refl
seated-path_pool sv l (refused clients rv) = refl
seated-path_pool sv l (taken cs i old) = refl

do_work-OnGood : (w : Work) (sv : Server) → GoodServer sv → OnGood (do_work w sv)
unfolding do_work
do_work-OnGood (visit i v) sv g = visit_slot-OnGood sv v i sv.clients.conns refl g
do_work-OnGood (accept l a) sv g =
    let t = take_slot cmail_max_concurrent_clients sv.clients a.incoming in
    on_accepted-OnGood sv (seated sv l t) (client_accept l a sv.path_pool sv.clients)
      (seated-path_pool sv l t) (client_accept-Joins l a sv.path_pool sv.clients) g

then_do-OnGood :
    (o : Option Server) (next : Server → Option Server)
    → OnGood o
    → ((sv : Server) → GoodServer sv → OnGood (next sv))
    → OnGood (then_do o next)
then_do-OnGood none next h k = tt
then_do-OnGood (some sv) next h k = k sv h

run-OnGood : (ws : List Work) (sv : Server) → GoodServer sv → OnGood (run ws sv)
unfolding run
run-OnGood [] sv g = g
run-OnGood (w ∷ ws) sv g =
    then_do-OnGood (do_work w sv) (run ws) (do_work-OnGood w sv g) (run-OnGood ws)

core_loop-OnGood : (ts : List Turn) (sv : Server) → GoodServer sv → OnGood (core_loop ts sv)
unfolding core_loop
core_loop-OnGood [] sv g = g
core_loop-OnGood (t ∷ ts) sv g =
    then_do-OnGood (run (turn_work sv.clients.count t) sv) (core_loop ts)
      (run-OnGood (turn_work sv.clients.count t) sv g) (core_loop-OnGood ts)

no_clients-Good : (l : Listener) → GoodServer (no_clients l)
unfolding no_clients
no_clients-Good l = record { sound = λ i. tt; apart = λ i j x ne h k. h }

-- The session of a client after some lines
abbrev pub after_lines : Listener → List (Answers × Bytes) → Session → Session
after_lines l [] s = s
after_lines l ((a, input) ∷ more) s = after_lines l more (client_line l a s input).session

after_lines-IsSound :
    (l : Listener) (ls : List (Answers × Bytes)) (s : Session)
    → IsSound s
    → IsSound (after_lines l ls s)
after_lines-IsSound l [] s h = h
after_lines-IsSound l ((a, input) ∷ ls) s h =
    after_lines-IsSound l ls (client_line l a s input).session (client_line-IsSound l a s input h)

-- From the start of the server, through any turns of its loop and any part of a further one, with any
-- clients, and then any lines of one of them: while that client is not authenticated, what mail_route
-- answers for its recipients is the same for any answers of the outbound queue.
pub server_no_open_relay :
    (l l' : Listener) (ts : List Turn) (ws : List Work) (sv sv' : Server) (i : ℕ) (c : Client)
    (ls : List (Answers × Bytes)) (d : Delivery) (f : ℕ → ℤ)
    → core_loop ts (no_clients l) ≡ some sv
    → run ws sv ≡ some sv'
    → client_at sv' i ≡ some c
    → is_authenticated (after_lines l' ls (with_pool c sv'.path_pool).session) ≡ false
    → let t = after_lines l' ls (with_pool c sv'.path_pool).session in
      mail_route (record d { outbox = f }) t.pool t.current_mail.forward_paths
      ≡ mail_route d t.pool t.current_mail.forward_paths
server_no_open_relay l l' ts ws sv sv' i c ls d f e k m n =
    let good : GoodServer sv =
      subst OnGood e (core_loop-OnGood ts (no_clients l) (no_clients-Good l)) in
    let good' : GoodServer sv' = subst OnGood k (run-OnGood ws sv good) in
    IsSound-mail_route (after_lines l' ls (with_pool c sv'.path_pool).session) d f
      (after_lines-IsSound l' ls (with_pool c sv'.path_pool).session
        (subst (OnSound sv'.path_pool) m (good'.sound i)))
      n
