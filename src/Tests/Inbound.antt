-- ===== src/Tests/Inbound.antt =====
-- The inbound routers at concrete inputs.
use cmail.Base.{
  true, false, [], ◌∷◌, ◌++◌, some, none, ◌≡◌, refl, Bytes, codes, pos, str_eq, replicate,
  has_prefix, if◌then◌else◌,
}
use cmail.Smtpd.Types.{MailPath, reset_path}
use cmail.Smtpd.Delivery.{mail_route, done, other}
use cmail.Smtpd.Inbound.{
  Storage, master, user_database, outbox, user_row, no_user, routed, route_local_path,
}
use cmail.Smtpd.PathPool.{PathPool}
use cmail.Smtpd.Session.{Delivery}
use cmail.Smtpd.Inbound.Every.{AreResults, AllRowsStored, mail_route_stores_rows}
use cmail.Smtpd.Inbound.Once.{Settles, is_bounded, is_handled, route_local_path-Settles}

-- bob's own database is not attached, and the first statement on the master database fails.
abbrev storage : Storage
storage = record {
  user = λ name. if str_eq name (codes "bob") then user_row (some (codes "bob.db")) else no_user;
  attached = λ name. false;
  attached_after_refresh = λ name. false;
  insert = λ e. elim e [
    | master p ↦ record { is_bound = true; status = other }
    | user_database name p ↦ record { is_bound = true; status = other }
    | outbox remote to ↦ record { is_bound = true; status = done }
  ];
  retry = record { is_bound = true; status = done };
}

abbrev mailbox : Bytes → Bytes → MailPath
mailbox router argument = record reset_path {
  delimiter_position = 3;
  path = codes "bob@y" ++ replicate 295 0;
  route = record { router = some router; argument = some argument };
}

abbrev sender : MailPath
sender = record reset_path { delimiter_position = 3; path = codes "eve@x" ++ replicate 295 0 }

abbrev bob : MailPath
bob = mailbox (codes "store") (codes "bob")

route_local_path-Settles_example : Settles true (route_local_path storage sender bob)
unfolding is_bounded is_handled str_eq
route_local_path-Settles_example = route_local_path-Settles storage sender bob refl

stored_on_retry : route_local_path storage sender bob ≡ routed (master bob ∷ []) (pos 0)
unfolding route_local_path str_eq has_prefix
stored_on_retry = refl

-- A mail for a user that does not exist is stored all the same.
stored_for_nobody :
    route_local_path storage sender (mailbox (codes "store") (codes "joe"))
    ≡ routed (master (mailbox (codes "store") (codes "joe")) ∷ []) (pos 0)
unfolding route_local_path str_eq has_prefix
stored_for_nobody = refl

redirected :
    route_local_path storage sender
      (mailbox (codes "redirect") (codes "(to-local)+(from-local)@(to-domain)"))
    ≡ routed (outbox none (codes "bob+eve@y") ∷ []) (pos 0)
unfolding route_local_path str_eq has_prefix
redirected = refl

lost : route_local_path storage sender (mailbox (codes "relay") (codes "mx")) ≡ routed [] (pos 0)
unfolding route_local_path str_eq has_prefix
lost = refl

abbrev pool : PathPool
pool = record { paths = bob ∷ []; lost = false }

abbrev delivery : Delivery
delivery = record { outbox = λ n. pos 0; local = λ n. pos 0 }

results : AreResults (λ n. storage) sender delivery pool 0 (0 ∷ [])
unfolding is_bounded str_eq
results = ((refl, master bob ∷ [], stored_on_retry), tt)

answered : mail_route delivery pool (0 ∷ []) ≡ 250
unfolding mail_route
answered = refl

mail_route_stores_rows_example : AllRowsStored (λ n. storage) sender pool 0 (0 ∷ [])
mail_route_stores_rows_example =
    mail_route_stores_rows (λ n. storage) sender delivery pool (0 ∷ []) results answered
