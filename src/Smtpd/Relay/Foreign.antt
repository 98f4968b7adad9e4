-- ===== src/Smtpd/Relay/Foreign.antt =====
-- cmail-smtpd/smtpstatemachine.c: a slot of the path pool that is another client's. No line changes
-- it, and no line makes it a recipient's of this client.
use cmail.Base.{
  ℕ, zero, suc, Bool, true, not, ◌||◌, List, [], ◌∷◌, ◌++◌, Option, none, some, ◌≡◌, ◌≢◌, refl, sym,
  ap, ◌∙◌, arith, Bytes, length, get_elem?, ℤ, pos, negsuc, is_some, drop, ◌==◌, if_both,
  if◌then◌else◌,
}
use cmail.Net.{TlsMode, tls_negotiate}
use cmail.Smtpd.Types.{MailPath, Mail, AuthOffer, smtp_max_recipients}
use cmail.Smtpd.Path.{Parse, fault, rejected, parsed, path_parse}
use cmail.Smtpd.PathPool.{pathpool_get}
use cmail.Smtpd.PathPool.Slots.{
  busy, Handed, pathpool_get-Handed, pathpool_get_refused, pathpool_return_frees,
  get_elem?-update_ne,
}
use cmail.Smtpd.Mail.{mail_reset}
use cmail.Smtpd.Mail.Reset.{IsOutside, return_all_others}
use cmail.Smtpd.Resolve.{path_resolve}
use cmail.Smtpd.Session.{
  Session, Listener, Answers, Outcome, state_auth, state_idle, is_authenticated, SmtpState,
  state_new, state_recipients, state_data, is_word, noop, rset, starttls, auth_, xyzzy, quit, rcpt_,
  mail_from, vrfy_, expn_, rcpt_to, auth, data_,
}
use cmail.Smtpd.State.{client_line, in_state}
use cmail.Smtpd.State.New.{smtpstate_new}
use cmail.Smtpd.State.Auth.{smtpstate_auth}
use cmail.Smtpd.State.Close.{client_close}
use cmail.Smtpd.State.Idle.{smtpstate_idle, reset_mail, idle_starttls, idle_auth, idle_mail}
use cmail.Smtpd.State.Recipients.{
  set_slot, release, accept_path, on_forward, on_rcpt_path, on_slot, rcpt, path_at,
  smtpstate_recipients, begin_data, has_domain,
}
use cmail.Smtpd.State.Data.{smtpstate_data, text_line, dotted, scan_header}
use cmail.Smtpd.Relay.Lines.{
  mail_line-forward_paths, scan_header-forward_paths, mail_recvheader-forward_paths,
}

-- Slot `x`, which is in use with the path `p`, and none of the session's
module _ (x : ℕ) (p : MailPath) (used : p.in_transaction ≡ true) where
  pub record IsForeign (s : Session) : Type 0 where
    pub held : get_elem? s.pool.paths x ≡ some p
    pub outside : IsOutside x s.current_mail.forward_paths

  reset_mail-IsForeign : (s : Session) → IsForeign s → IsForeign (reset_mail s)
  unfolding reset_mail mail_reset
  reset_mail-IsForeign s h = record {
    held = return_all_others s.current_mail.forward_paths s.pool x h.outside ∙ h.held;
    outside = tt;
  }

  pub client_close-IsForeign : (s : Session) → IsForeign s → IsForeign (client_close s).0
  unfolding client_close mail_reset
  client_close-IsForeign s h = record {
    held = return_all_others s.current_mail.forward_paths s.pool x h.outside ∙ h.held;
    outside = tt;
  }

  pub with_mail-IsForeign :
      (s : Session) (m : Mail)
      → m.forward_paths ≡ s.current_mail.forward_paths
      → IsForeign s
      → IsForeign (record s { current_mail = m })
  with_mail-IsForeign s m e h = record { held = h.held; outside = rw e h.outside }

  split :
      (b : Bool) (o o' : Outcome)
      → IsForeign o.session
      → IsForeign o'.session
      → IsForeign (if b then o else o').session
  split = if_both (λ o. IsForeign o.session)

  same :
      (s t : Session)
      → t.pool.paths ≡ s.pool.paths
      → t.current_mail.forward_paths ≡ s.current_mail.forward_paths
      → IsForeign s
      → IsForeign t
  same s t e k h = record { held = rw e h.held; outside = rw k h.outside }

  smtpstate_new-IsForeign :
      (l : Listener) (s : Session) (input : Bytes)
      → IsForeign s
      → IsForeign (smtpstate_new l s input).session
  unfolding smtpstate_new
  smtpstate_new-IsForeign l s input h = same s _ (ground arith) (ground arith) h

  smtpstate_auth-IsForeign :
      (l : Listener) (a : Answers) (s : Session) (input : Bytes)
      → IsForeign s
      → IsForeign (smtpstate_auth l a s input).session
  unfolding smtpstate_auth
  smtpstate_auth-IsForeign l a s input h = same s _ (ground arith) (ground arith) h

  idle_mail-IsForeign :
      (l : Listener) (a : Answers) (s : Session) (input : Bytes)
      → IsForeign s
      → IsForeign (idle_mail l a s input).session
  unfolding idle_mail
  idle_mail-IsForeign l a s input h = same s _ (ground arith) (ground arith) h

  idle_auth-IsForeign :
      (o : AuthOffer) (mode : TlsMode) (l : Listener) (a : Answers) (s : Session) (input : Bytes)
      → IsForeign s
      → IsForeign (idle_auth o mode l a s input).session
  unfolding idle_auth
  idle_auth-IsForeign o mode l a s input h = ground (
    arith,
    smtpstate_auth-IsForeign l a (record s { state = state_auth }) input (same s _ refl refl h),
  )

  idle_starttls-IsForeign :
      (mode lmode : TlsMode) (a : Answers) (s : Session)
      → IsForeign s
      → IsForeign (idle_starttls mode lmode a s).session
  unfolding idle_starttls
  idle_starttls-IsForeign mode lmode a s h = ground (
    arith,
    same (reset_mail s) (record (reset_mail s) { state = state_new; tls_mode = tls_negotiate }) refl
        refl (reset_mail-IsForeign s h),
  )

  smtpstate_idle-IsForeign :
      (l : Listener) (a : Answers) (s : Session) (input : Bytes)
      → IsForeign s
      → IsForeign (smtpstate_idle l a s input).session
  unfolding smtpstate_idle
  smtpstate_idle-IsForeign l a s input h = split (is_word input noop) _ _ h (
      split (is_word input rset) _ _ (reset_mail-IsForeign s h) (
        split (is_word input starttls) _ _ (idle_starttls-IsForeign s.tls_mode l.tls_mode a s h) (
          split (is_word input auth_) _ _
            (idle_auth-IsForeign l.auth_offer s.tls_mode l a s input h)
            (split (is_word input xyzzy) _ _ h (
              split (is_word input quit) _ _ (client_close-IsForeign s h) (
                split (is_word input rcpt_) _ _ h (
                  split (is_word input mail_from) _ _ (idle_mail-IsForeign l a s input h)
                    (split (is_word input vrfy_ || is_word input expn_) _ _ h h))))))))

  IsOutside-append : (is : List ℕ) (i : ℕ) → x ≢ i → IsOutside x is → IsOutside x (is ++ i ∷ [])
  IsOutside-append [] i n h = (n, tt)
  IsOutside-append (j ∷ is) i n h = (h.0, IsOutside-append is i n h.1)

  release-IsForeign : (s : Session) (i : ℕ) → x ≢ i → IsForeign s → IsForeign (release s i)
  unfolding release
  release-IsForeign s i n h = record {
    held = (pathpool_return_frees s.pool i).1 x n ∙ h.held;
    outside = h.outside;
  }

  set_slot-IsForeign :
      (s : Session) (i : ℕ) (q : MailPath) → x ≢ i → IsForeign s → IsForeign (set_slot s i q)
  unfolding set_slot
  set_slot-IsForeign s i q n h = record {
    held = get_elem?-update_ne s.pool.paths i x (λ r. q) n ∙ h.held;
    outside = h.outside;
  }

  accept_path-IsForeign :
      (s : Session) (i : ℕ) → x ≢ i → IsForeign s → IsForeign (accept_path s i).session
  unfolding accept_path
  accept_path-IsForeign s i n h = record {
    held = h.held;
    outside = IsOutside-append s.current_mail.forward_paths i n h.outside;
  }

  on_forward-IsForeign :
      (s : Session) (i : ℕ) (q : MailPath) (v : ℤ)
      → x ≢ i
      → IsForeign s
      → IsForeign (on_forward s i q v).session
  unfolding on_forward
  on_forward-IsForeign s i q (pos zero) n h =
      split (is_some q.route.router) _ _ (accept_path-IsForeign s i n h) (
        split (not (has_domain q)) _ _ (release-IsForeign s i n h) (
          split (not (is_authenticated s)) _ _ (release-IsForeign s i n h)
            (accept_path-IsForeign s i n h)))
  on_forward-IsForeign s i q (pos (suc zero)) n h = release-IsForeign s i n h
  on_forward-IsForeign s i q (pos (suc (suc k))) n h = release-IsForeign s i n h
  on_forward-IsForeign s i q (negsuc k) n h = release-IsForeign s i n h

  on_rcpt_path-IsForeign :
      (a : Answers) (s : Session) (i : ℕ) (r : Parse MailPath)
      → x ≢ i
      → IsForeign s
      → IsForeign (on_rcpt_path a s i r).session
  unfolding on_rcpt_path
  on_rcpt_path-IsForeign a s i fault n h = release-IsForeign s i n h
  on_rcpt_path-IsForeign a s i (rejected q) n h =
      release-IsForeign (set_slot s i q) i n (set_slot-IsForeign s i q n h)
  on_rcpt_path-IsForeign a s i (parsed q) n h =
      let (r, v) = path_resolve a.address none q in
      on_forward-IsForeign (set_slot s i r) i r v n (set_slot-IsForeign s i r n h)

  busy_of_held : (ps : List MailPath) (i : ℕ) → get_elem? ps i ≡ some p → busy ps i ≡ some true
  busy_of_held [] i e = cc
  busy_of_held (q ∷ ps) zero e = cc
  busy_of_held (q ∷ ps) (suc i) e = busy_of_held ps i e

  on_slot-IsForeign :
      (a : Answers) (o : Option ℕ) (s : Session) (input : Bytes)
      → IsForeign s
      → (pathpool_get a.pool_alloc s.pool).0 ≡ o
      → IsForeign
          (on_slot a o (record s { pool = (pathpool_get a.pool_alloc s.pool).1 }) input).session
  unfolding on_slot
  on_slot-IsForeign a none s input h e =
      same s _ (pathpool_get_refused a.pool_alloc s.pool e) refl h
  on_slot-IsForeign a (some i) s input h e =
      let g : Handed s.pool.paths i (pathpool_get a.pool_alloc s.pool).1.paths =
        pathpool_get-Handed a.pool_alloc s.pool i e in
      let n : x ≢ i =
        λ q. g.was_free (ap (busy s.pool.paths) (sym q) ∙ busy_of_held s.pool.paths x h.held) in
      on_rcpt_path-IsForeign a (record s { pool = (pathpool_get a.pool_alloc s.pool).1 }) i
        (path_parse (drop 8 input) (path_at (pathpool_get a.pool_alloc s.pool).1 i)) n
        (record { held = g.others x n ∙ h.held; outside = h.outside })

  rcpt-IsForeign :
      (a : Answers) (s : Session) (input : Bytes) → IsForeign s → IsForeign (rcpt a s input).session
  unfolding rcpt
  rcpt-IsForeign a s input h =
      split (length s.current_mail.forward_paths == smtp_max_recipients) _ _ h
        (on_slot-IsForeign a (pathpool_get a.pool_alloc s.pool).0 s input h refl)

  begin_data-IsForeign :
      (l : Listener) (a : Answers) (s : Session) (is : List ℕ)
      → IsForeign s
      → IsForeign (begin_data l a s is).session
  unfolding begin_data
  begin_data-IsForeign l a s [] h = h
  begin_data-IsForeign l a s (i ∷ is) h =
      same s _ refl (mail_recvheader-forward_paths a.header s.current_mail _ _ _) h

  smtpstate_recipients-IsForeign :
      (l : Listener) (a : Answers) (s : Session) (input : Bytes)
      → IsForeign s
      → IsForeign (smtpstate_recipients l a s input).session
  unfolding smtpstate_recipients
  smtpstate_recipients-IsForeign l a s input h =
      split (is_word input rcpt_to) _ _ (rcpt-IsForeign a s input h) (
        split (is_word input quit) _ _ (client_close-IsForeign s h) (
          split (is_word input noop) _ _ h (
            split (is_word input rset) _ _
              (reset_mail-IsForeign (record s { state = state_idle }) (same s _ refl refl h))
              (split (is_word input auth) _ _ h
                (split (is_word input data_) _ _ (begin_data-IsForeign l a s _ h) h)))))

  text_line-IsForeign :
      (a : Answers) (s : Session) (input : Bytes)
      → IsForeign s
      → IsForeign (text_line a s input).session
  unfolding text_line
  text_line-IsForeign a s input h =
      same s _ refl
        (mail_line-forward_paths a.heap (scan_header s.current_mail input) input
          ∙ scan_header-forward_paths s.current_mail input)
        h

  dotted-IsForeign :
      (a : Answers) (s : Session) (input : Bytes)
      → IsForeign s
      → IsForeign (dotted a s input).session
  unfolding dotted
  dotted-IsForeign a s [] h = same (reset_mail s) _ refl refl (reset_mail-IsForeign s h)
  dotted-IsForeign a s (c ∷ cs) h =
      same s _ refl (mail_line-forward_paths a.heap s.current_mail (c ∷ cs)) h

  smtpstate_data-IsForeign :
      (a : Answers) (s : Session) (input : Bytes)
      → IsForeign s
      → IsForeign (smtpstate_data a s input).session
  unfolding smtpstate_data
  smtpstate_data-IsForeign a s [] h = text_line-IsForeign a s [] h
  smtpstate_data-IsForeign a s (c ∷ cs) h =
      split (c == b'.') _ _ (dotted-IsForeign a s cs h) (text_line-IsForeign a s (c ∷ cs) h)

  in_state-IsForeign :
      (st : SmtpState) (l : Listener) (a : Answers) (s : Session) (input : Bytes)
      → IsForeign s
      → IsForeign (in_state st l a s input).session
  unfolding in_state
  in_state-IsForeign state_new l a s input h = smtpstate_new-IsForeign l s input h
  in_state-IsForeign state_idle l a s input h = smtpstate_idle-IsForeign l a s input h
  in_state-IsForeign state_auth l a s input h = smtpstate_auth-IsForeign l a s input h
  in_state-IsForeign state_recipients l a s input h = smtpstate_recipients-IsForeign l a s input h
  in_state-IsForeign state_data l a s input h = smtpstate_data-IsForeign a s input h

  -- No line of a client changes a slot of the pool that is in use and not among its own, nor makes it
  -- one of its own.
  pub client_line-IsForeign :
      (l : Listener) (a : Answers) (s : Session) (input : Bytes)
      → IsForeign s
      → IsForeign (client_line l a s input).session
  unfolding client_line
  client_line-IsForeign l a s input h = in_state-IsForeign s.state l a s input h
