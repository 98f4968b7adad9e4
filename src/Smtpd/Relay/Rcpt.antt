-- ===== src/Smtpd/Relay/Rcpt.antt =====
-- cmail-smtpd/smtpstatemachine.c: RCPT and the invariant.
use mathlib.Core.Path.{subst}
use cmail.Base.{
  ℕ, zero, suc, Bool, true, List, [], ◌∷◌, ◌++◌, Option, none, some, ◌≡◌, ◌≢◌, inl, inr, refl, sym,
  ap, ◌∙◌, arith, Bytes, length, get_elem?, ℤ, pos, negsuc, is_some, drop, ◌==◌, Bool-cases,
}
use cmail.Smtpd.Types.{MailPath, smtp_max_recipients}
use cmail.Smtpd.Path.{Parse, fault, rejected, parsed, path_parse}
use cmail.Smtpd.Path.Frame.{path_parse-Keeps, Keeps}
use cmail.Smtpd.PathPool.{PathPool, update, pathpool_get, pathpool_return}
use cmail.Smtpd.PathPool.Slots.{
  busy, Handed, pathpool_get-Handed, pathpool_get_refused, pathpool_return_frees,
  get_elem?-update_ne,
}
use cmail.Smtpd.Mail.Reset.{IsOutside}
use cmail.Smtpd.Resolve.{path_resolve, AddressQuery}
use cmail.Smtpd.Session.{Session, Answers, is_authenticated, state_recipients}
use cmail.Smtpd.State.Recipients.{
  set_slot, release, accept_path, on_forward, on_rcpt_path, on_slot, rcpt, has_domain, path_at,
}
use cmail.Smtpd.Relay.{MayReceive, AllMayReceive, Fits, Inv}

-- Recipients keep what they have where their slots are not touched.
AllMayReceive-frame :
    (auth : Bool) (ps qs : List MailPath) (is : List ℕ) (i : ℕ)
    → ((j : ℕ) → j ≢ i → get_elem? qs j ≡ get_elem? ps j)
    → IsOutside i is
    → AllMayReceive auth ps is
    → AllMayReceive auth qs is
AllMayReceive-frame auth ps qs [] i k out h = tt
AllMayReceive-frame auth ps qs (j ∷ is) i k out h = (
  subst (MayReceive auth) (sym (k j (λ e. out.0 (sym e)))) h.0,
  AllMayReceive-frame auth ps qs is i k out.1 h.1,
)

busy_of_MayReceive :
    (auth : Bool) (ps : List MailPath) (i : ℕ)
    → MayReceive auth (get_elem? ps i)
    → busy ps i ≡ some true
busy_of_MayReceive auth [] i h = absurd h
busy_of_MayReceive auth (p ∷ ps) zero h = ap some h.0
busy_of_MayReceive auth (p ∷ ps) (suc i) h = busy_of_MayReceive auth ps i h

-- A slot that was free is none of the recipients'.
IsOutside-of_free :
    (auth : Bool) (ps : List MailPath) (i : ℕ) (is : List ℕ)
    → busy ps i ≢ some true
    → AllMayReceive auth ps is
    → IsOutside i is
IsOutside-of_free auth ps i [] free h = tt
IsOutside-of_free auth ps i (j ∷ is) free h = (
  λ e. free (ap (busy ps) e ∙ busy_of_MayReceive auth ps j h.0),
  IsOutside-of_free auth ps i is free h.1,
)

get_elem?-update_self :
    (ps : List MailPath) (i : ℕ) (f : MailPath → MailPath) {p : MailPath}
    → get_elem? ps i ≡ some p
    → get_elem? (update ps i f) i ≡ some (f p)
unfolding update
get_elem?-update_self [] i f h = cc
get_elem?-update_self (q ∷ ps) zero f h = cc
get_elem?-update_self (q ∷ ps) (suc i) f h = get_elem?-update_self ps i f h

AllMayReceive-concat :
    (auth : Bool) (ps : List MailPath) (is : List ℕ) (i : ℕ)
    → AllMayReceive auth ps is
    → MayReceive auth (get_elem? ps i)
    → AllMayReceive auth ps (is ++ i ∷ [])
AllMayReceive-concat auth ps [] i h m = (m, tt)
AllMayReceive-concat auth ps (j ∷ is) i h m = (h.0, AllMayReceive-concat auth ps is i h.1 m)

path_resolve-in_transaction :
    (q : AddressQuery) (user : Option Bytes) (p : MailPath)
    → (path_resolve q user p).0.in_transaction ≡ p.in_transaction
unfolding path_resolve
path_resolve-in_transaction q user p = ground arith

-- Slot `i` of a session is being filled: it is not yet a recipient's.
record IsFilling (s : Session) (i : ℕ) : Type 0 where
  recipients_state : s.state ≡ state_recipients
  outside : IsOutside i s.current_mail.forward_paths
  recipients : AllMayReceive (is_authenticated s) s.pool.paths s.current_mail.forward_paths

Fits-recipients : (s : Session) (is : List ℕ) → s.state ≡ state_recipients → Fits s.state is
Fits-recipients s is e = rw e tt

release-Inv : (s : Session) (i : ℕ) → IsFilling s i → Inv (release s i)
unfolding release
release-Inv s i f = record {
  fits = Fits-recipients s _ f.recipients_state;
  recipients =
      AllMayReceive-frame (is_authenticated s) s.pool.paths (pathpool_return s.pool i).paths
        s.current_mail.forward_paths i (pathpool_return_frees s.pool i).1 f.outside f.recipients;
}

accept_path-Inv :
    (s : Session) (i : ℕ) (q : MailPath)
    → IsFilling s i
    → get_elem? s.pool.paths i ≡ some q
    → MayReceive (is_authenticated s) (some q)
    → Inv (accept_path s i).session
unfolding accept_path
accept_path-Inv s i q f e m = record {
  fits = Fits-recipients s _ f.recipients_state;
  recipients =
      AllMayReceive-concat (is_authenticated s) s.pool.paths s.current_mail.forward_paths i
        f.recipients (subst (MayReceive (is_authenticated s)) (sym e) m);
}

on_forward-Inv :
    (s : Session) (i : ℕ) (q : MailPath) (v : ℤ)
    → IsFilling s i
    → get_elem? s.pool.paths i ≡ some q
    → q.in_transaction ≡ true
    → Inv (on_forward s i q v).session
unfolding on_forward
on_forward-Inv s i q (pos zero) f e t = elim (Bool-cases (is_some q.route.router)) [
  | inl local ↦ rw local (accept_path-Inv s i q f e (t, inl local))
  | inr remote ↦ rw remote (elim (Bool-cases (has_domain q)) [
    | inr bare ↦ rw bare (release-Inv s i f)
    | inl domain ↦ rw domain (elim (Bool-cases (is_authenticated s)) [
      | inl auth ↦ rw auth (accept_path-Inv s i q f e (t, inr (domain, auth)))
      | inr anonymous ↦ rw anonymous (release-Inv s i f)
    ])
  ])
]
on_forward-Inv s i q (pos (suc zero)) f e t = release-Inv s i f
on_forward-Inv s i q (pos (suc (suc n))) f e t = release-Inv s i f
on_forward-Inv s i q (negsuc n) f e t = release-Inv s i f

set_slot-IsFilling :
    (s : Session) (i : ℕ) (q : MailPath) → IsFilling s i → IsFilling (set_slot s i q) i
unfolding set_slot
set_slot-IsFilling s i q f = record {
  recipients_state = f.recipients_state;
  outside = f.outside;
  recipients =
      AllMayReceive-frame (is_authenticated s) s.pool.paths (update s.pool.paths i (λ p. q))
        s.current_mail.forward_paths i (λ j. get_elem?-update_ne s.pool.paths i j (λ p. q))
        f.outside f.recipients;
}

on_rcpt_path-Inv :
    (a : Answers) (s : Session) (i : ℕ) (p : MailPath) (r : Parse MailPath)
    → IsFilling s i
    → get_elem? s.pool.paths i ≡ some p
    → p.in_transaction ≡ true
    → Keeps p r
    → Inv (on_rcpt_path a s i r).session
unfolding on_rcpt_path
on_rcpt_path-Inv a s i p fault f e t k = release-Inv s i f
on_rcpt_path-Inv a s i p (rejected q) f e t k =
    release-Inv (set_slot s i q) i (set_slot-IsFilling s i q f)
on_rcpt_path-Inv a s i p (parsed q) f e t k =
    let (q', v) = path_resolve a.address none q in
    on_forward-Inv (set_slot s i q') i q' v (set_slot-IsFilling s i q' f)
      (unfold set_slot in get_elem?-update_self s.pool.paths i (λ z. q') e)
      (path_resolve-in_transaction a.address none q ∙ k.0 ∙ t)

in_transaction_of_busy :
    (ps : List MailPath) (i : ℕ)
    → busy ps i ≡ some true
    → (p : MailPath) × (get_elem? ps i ≡ some p) × (p.in_transaction ≡ true)
in_transaction_of_busy [] i h = cc
in_transaction_of_busy (p ∷ ps) zero h = (p, refl, cc)
in_transaction_of_busy (p ∷ ps) (suc i) h = in_transaction_of_busy ps i h

path_at_lem :
    (pool : PathPool) (i : ℕ) {p : MailPath} → get_elem? pool.paths i ≡ some p → path_at pool i ≡ p
path_at_lem pool i e = ground arith

on_slot-Inv :
    (a : Answers) (o : Option ℕ) (s : Session) (input : Bytes)
    → s.state ≡ state_recipients
    → Inv s
    → (pathpool_get a.pool_alloc s.pool).0 ≡ o
    → Inv (on_slot a o (record s { pool = (pathpool_get a.pool_alloc s.pool).1 }) input).session
unfolding on_slot
on_slot-Inv a none s input st v e = record {
  fits = v.fits;
  recipients =
      subst (λ ps. AllMayReceive (is_authenticated s) ps s.current_mail.forward_paths)
        (sym (pathpool_get_refused a.pool_alloc s.pool e)) v.recipients;
}
on_slot-Inv a (some i) s input st v e =
    let (o, pool) = pathpool_get a.pool_alloc s.pool in
    let h : Handed s.pool.paths i pool.paths = pathpool_get-Handed a.pool_alloc s.pool i e in
    let auth = is_authenticated s in
    let is = s.current_mail.forward_paths in
    let out = IsOutside-of_free auth s.pool.paths i is h.was_free v.recipients in
    let (p, at, t) = in_transaction_of_busy pool.paths i h.now_busy in
    let filling : IsFilling (record s { pool = pool }) i = record {
      recipients_state = st;
      outside = out;
      recipients = AllMayReceive-frame auth s.pool.paths pool.paths is i h.others out v.recipients;
    } in
    on_rcpt_path-Inv a (record s { pool = pool }) i p (path_parse (drop 8 input) (path_at pool i))
      filling at t (rw (path_at_lem pool i at) (path_parse-Keeps (drop 8 input) p))

pub rcpt-Inv :
    (a : Answers) (s : Session) (input : Bytes)
    → s.state ≡ state_recipients
    → Inv s
    → Inv (rcpt a s input).session
unfolding rcpt
rcpt-Inv a s input st v =
    elim (Bool-cases (length s.current_mail.forward_paths == smtp_max_recipients)) [
      | inl full ↦ rw full v
      | inr room ↦ rw room (on_slot-Inv a (pathpool_get a.pool_alloc s.pool).0 s input st v refl)
    ]
