-- ===== src/Smtpd/Inbound/Once.antt =====
-- cmail-smtpd/route.c, route_local_path: how often a mail is stored.
use cmail.Base.{
  zero, suc, Bool, true, false, ◌||◌, [], Option, none, some, ◌≡◌, refl, if_cases, if◌then◌else◌,
  length, ℤ, pos, negsuc, Bytes, codes, c_str, Bool-cases, inl, inr,
}
use cmail.Smtpd.Types.{MailPath}
use cmail.Smtpd.Resolve.{router_is}
use cmail.Smtpd.Delivery.{Insert, done, too_big, constraint, range, other, mail_store}
use cmail.Smtpd.Inbound.{
  Entry, master, user_database, outbox, UserAnswer, user_row, bind_failed, no_user, step_failed,
  Insertion, Storage, Routed, undefined, routed, stored_by, attempt, store_for, or_retry, send_to,
  envelope, fits, route_with, needs_argument, route_without, route_by, route_local_path,
}

-- One row was stored if the result is 0, and else none.
unfoldable pub IsOnce : Routed → Type 0
IsOnce undefined = false ≡ true
IsOnce (routed stored (pos zero)) = length stored ≡ 1
IsOnce (routed stored _) = stored ≡ []

stored_by-IsOnce :
    (e : Entry) (b : Bool) (s : Insert) → IsOnce (routed (stored_by e b s) (mail_store b s))
unfolding IsOnce mail_store
stored_by-IsOnce e true done = refl
stored_by-IsOnce e true too_big = refl
stored_by-IsOnce e true constraint = refl
stored_by-IsOnce e true range = refl
stored_by-IsOnce e true other = refl
stored_by-IsOnce e false done = refl
stored_by-IsOnce e false too_big = refl
stored_by-IsOnce e false constraint = refl
stored_by-IsOnce e false range = refl
stored_by-IsOnce e false other = refl

attempt-IsOnce : (e : Entry) (i : Insertion) → IsOnce (attempt e i)
unfolding attempt
attempt-IsOnce e i = stored_by-IsOnce e i.is_bound i.status

or_retry-IsOnce : (q : Storage) (p : MailPath) (r : Routed) → IsOnce r → IsOnce (or_retry q p r)
unfolding or_retry IsOnce
or_retry-IsOnce q p undefined h = h
or_retry-IsOnce q p (routed stored (pos zero)) h = h
or_retry-IsOnce q p (routed stored (pos (suc n))) h = attempt-IsOnce (master p) q.retry
or_retry-IsOnce q p (routed stored (negsuc n)) h = attempt-IsOnce (master p) q.retry

store_for-IsOnce : (q : Storage) (p : MailPath) (u : UserAnswer) → IsOnce (store_for q p u)
unfolding store_for IsOnce
store_for-IsOnce q p (user_row (some name)) =
    if_cases IsOnce (q.attached name)
      (attempt (user_database name p) (q.insert (user_database name p)))
      (if q.attached_after_refresh name
        then attempt (user_database name p) (q.insert (user_database name p))
        else attempt (master p) (q.insert (master p)))
      (λ _. attempt-IsOnce (user_database name p) (q.insert (user_database name p)))
      (λ _.
        if_cases IsOnce (q.attached_after_refresh name)
          (attempt (user_database name p) (q.insert (user_database name p)))
          (attempt (master p) (q.insert (master p)))
          (λ _. attempt-IsOnce (user_database name p) (q.insert (user_database name p)))
          (λ _. attempt-IsOnce (master p) (q.insert (master p))))
store_for-IsOnce q p (user_row none) = attempt-IsOnce (master p) (q.insert (master p))
store_for-IsOnce q p bind_failed = refl
store_for-IsOnce q p no_user = refl
store_for-IsOnce q p step_failed = refl

send_to-IsOnce : (q : Storage) (e : Bytes × ℤ) → IsOnce (send_to q e)
unfolding IsOnce
send_to-IsOnce q (to, pos n) = attempt-IsOnce (outbox none to) (q.insert (outbox none to))
send_to-IsOnce q (to, negsuc n) = refl

-- The routers that are to store the mail or to refuse it. The others are "drop" and those that the
-- code does not know.
unfoldable pub is_known : Bytes → Bool
unfolding needs_argument
is_known router = needs_argument router || router_is (some router) (codes "reject")

unfoldable pub Settles : Bool → Routed → Type 0
unfolding IsOnce
Settles true r = IsOnce r
Settles false r = r ≡ routed [] (pos 0)

route_with-Settles :
    (q : Storage) (reverse p : MailPath) (router argument : Bytes)
    → fits reverse p argument ≡ true
    → Settles (is_known router) (route_with q reverse p router argument)
unfolding route_with Settles is_known
route_with-Settles q reverse p router argument bounded =
    elim (Bool-cases (router_is (some router) (codes "store"))) [
      | inl store ↦ rw store (
          or_retry-IsOnce q p (store_for q p (q.user argument))
            (store_for-IsOnce q p (q.user argument)))
      | inr store ↦ elim (Bool-cases (router_is (some router) (codes "redirect"))) [
        | inl redirect ↦
            rw (store, redirect, bounded) (send_to-IsOnce q (envelope reverse p argument))
        | inr redirect ↦ elim (Bool-cases (router_is (some router) (codes "handoff"))) [
          | inl handoff ↦
              rw (store, redirect, handoff)
                (attempt-IsOnce (outbox (some argument) (c_str p.path)) _)
          | inr handoff ↦ elim (Bool-cases (router_is (some router) (codes "reject"))) [
            | inl reject ↦ rw (store, redirect, handoff, reject) refl
            | inr reject ↦ rw (store, redirect, handoff, reject) refl
          ]
        ]
      ]
    ]

route_without-Settles : (router : Bytes) → Settles (is_known router) (route_without router)
unfolding route_without Settles is_known IsOnce
route_without-Settles router = elim (Bool-cases (needs_argument router)) [
  | inl needs ↦ rw needs refl
  | inr needs ↦ elim (Bool-cases (router_is (some router) (codes "reject"))) [
    | inl reject ↦ rw (needs, reject) refl
    | inr reject ↦ rw (needs, reject) refl
  ]
]

-- A path without a router is refused.
unfoldable pub is_handled : Option Bytes → Bool
unfolding is_known
is_handled none = true
is_handled (some router) = is_known router

-- The delimiters and the argument keep the copies of redirect in their arrays.
unfoldable pub is_bounded : MailPath → MailPath → Option Bytes → Bool
unfolding fits
is_bounded reverse p none = true
is_bounded reverse p (some argument) = fits reverse p argument

route_by-Settles :
    (q : Storage) (reverse p : MailPath) (router argument : Option Bytes)
    → is_bounded reverse p argument ≡ true
    → Settles (is_handled router) (route_by q reverse p router argument)
unfolding route_by is_handled is_bounded Settles IsOnce
route_by-Settles q reverse p none argument h = refl
route_by-Settles q reverse p (some router) none h = route_without-Settles router
route_by-Settles q reverse p (some router) (some argument) h =
    route_with-Settles q reverse p router argument h

-- While the copies of redirect stay in their arrays: for the routers store, redirect, handoff and
-- reject, and for a path without a router, route_local_path returns 0 exactly when it has stored the
-- mail, and then in one row; any other router, "drop" or one that does not exist, is answered with 0
-- and nothing is stored.
pub route_local_path-Settles :
    (q : Storage) (reverse p : MailPath)
    → is_bounded reverse p p.route.argument ≡ true
    → Settles (is_handled p.route.router) (route_local_path q reverse p)
unfolding route_local_path
route_local_path-Settles q reverse p bounded =
    route_by-Settles q reverse p p.route.router p.route.argument bounded
