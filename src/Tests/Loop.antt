-- ===== src/Tests/Loop.antt =====
-- Turns of the loop of the mail server.
use cmail.Base.{
  ℕ, true, false, List, [], ◌∷◌, Option, some, none, ◌≡◌, refl, Bytes, codes, pos, ℤ, length,
}
use cmail.Smtpd.Delivery.{mail_route}
use cmail.Smtpd.Session.{Listener, Answers}
use cmail.Smtpd.Accept.{new_client}
use cmail.Smtpd.Client.{Client, Moment, got}
use cmail.Smtpd.Server.{Server, Visit, Work, visit, Turn, run, core_loop, no_clients, with_pool}
use cmail.Smtpd.Server.Sound.Good.{client_at}
use cmail.Smtpd.Server.Sound.Relay.{after_lines, server_no_open_relay}
use cmail.Tests.Admin.{arrival}
use cmail.Tests.Data.{listener, answers}

abbrev open_listener : Listener
open_listener = record listener { auth_require = false }

abbrev moment : Moment
moment = record { answers = λ n. answers; time = λ n. 5 }

abbrev says : Bytes → Visit
says text = record { readable = some ((moment, got text), []); now = 5 }

abbrev turns : List Turn
turns =
    record { visits = λ i. says []; arrivals = (open_listener, arrival) ∷ [] }
    ∷ record { visits = λ i. says (codes "HELO a\r\nMAIL FROM:<a@b>\r\n"); arrivals = [] }
    ∷ []

abbrev works : List Work
works = visit 0 (says (codes "RCPT TO:<bob@c>\r\n")) ∷ []

abbrev or_start : Option Server → Server
or_start none = no_clients open_listener
or_start (some sv) = sv

abbrev looped : Server
looped = or_start (core_loop turns (no_clients open_listener))

abbrev worked : Server
worked = or_start (run works looped)

abbrev or_new : Option Client → Client
or_new none = new_client open_listener arrival looped.path_pool none
or_new (some c) = c

abbrev served : Client
served = or_new (client_at worked 0)

one_recipient : served.session.current_mail.forward_paths ≡ 0 ∷ []
unfolding core_loop no_clients cmail.Common.Accept.Limit.data_at cmail.Base.◌+ℤ◌
    cmail.Smtpd.State.New.smtpstate_new cmail.Smtpd.Session.is_word cmail.Base.has_prefix_ci
    cmail.Smtpd.State.Idle.smtpstate_idle cmail.Smtpd.Path.path_parse
    cmail.Smtpd.Resolve.path_resolve cmail.Smtpd.Resolve.pick_row cmail.Base.str_eq
    cmail.Smtpd.State.Recipients.smtpstate_recipients cmail.Smtpd.PathPool.pathpool_get
one_recipient = refl

server_no_open_relay_example :
    let t =
      after_lines open_listener
        ((answers, codes "noop") ∷ [])
        (with_pool served worked.path_pool).session in
    mail_route (record answers.delivery { outbox = λ n. pos 1 }) t.pool t.current_mail.forward_paths
    ≡ mail_route answers.delivery t.pool t.current_mail.forward_paths
unfolding core_loop no_clients cmail.Common.Accept.Limit.data_at cmail.Base.◌+ℤ◌
    cmail.Smtpd.State.New.smtpstate_new cmail.Smtpd.Session.is_word cmail.Base.has_prefix_ci
    cmail.Smtpd.State.Idle.smtpstate_idle cmail.Smtpd.Path.path_parse
    cmail.Smtpd.Resolve.path_resolve cmail.Smtpd.Resolve.pick_row cmail.Base.str_eq
    cmail.Smtpd.State.Recipients.smtpstate_recipients cmail.Smtpd.PathPool.pathpool_get
server_no_open_relay_example =
    server_no_open_relay open_listener open_listener turns works looped worked 0 served
      ((answers, codes "noop") ∷ []) answers.delivery (λ n. pos 1) refl refl refl refl
