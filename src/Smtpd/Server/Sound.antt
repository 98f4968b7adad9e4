-- ===== src/Smtpd/Server/Sound.antt =====
-- cmail-smtpd/coreloop.c: the clients that share the pool of paths, through all work of the loop.
pub mod Good
pub mod Relay
use cmail.Base.{
  ℕ, zero, suc, Bool, true, false, List, [], ◌∷◌, Option, none, some, ◌≡◌, ◌≢◌, ◌⊎◌, inl, inr, refl,
  sym, ◌∙◌, ap, arith, if_both, if◌then◌else◌, get_elem?, set, Bytes, ◌&&◌, ltb, ◌+◌, is_some, All,
  Bool-cases, ◌==◌, ==_iff,
}
use mathlib.Core.Path.{subst}
use cmail.Net.{TlsMode}
use cmail.Common.ConnPool.{Connection, ConnPool}
use cmail.Common.Accept.Limit.{data_at}
use cmail.Common.NextLine.{Input}
use cmail.Smtpd.Types.{MailPath, Mail}
use cmail.Smtpd.PathPool.{PathPool}
use cmail.Smtpd.Mail.{mail_reset}
use cmail.Smtpd.Mail.Reset.{IsOutside, return_all_others}
use cmail.Smtpd.Session.{Session, Listener, Answers, line, is_authenticated}
use cmail.Smtpd.State.{client_line}
use cmail.Smtpd.State.Close.{client_close}
use cmail.Smtpd.Relay.{MayReceive, AllMayReceive}
use cmail.Smtpd.Relay.Others.{Untouched}
use cmail.Smtpd.Relay.Foreign.{IsForeign, client_line-IsForeign, client_close-IsForeign}
use cmail.Smtpd.Relay.Sound.{
  IsSound, IsSound-recipients, client_line-IsSound, client_close-IsSound, others-IsSound,
}
use cmail.Smtpd.Client.{
  Client, Moment, Reading, client_process, client_timeout, client_memtimeout, client_free, close,
  say, cmail_memory_timeout,
}
use cmail.Smtpd.Client.Keeps.{client_process-keeps}
use cmail.Smtpd.Server.{
  Server, Visit, on_select, tend, put, with_pool, visit_client, visit_conn, visit_slot, kept_fd, at,
}

-- What a visit keeps of the session of a client
module _ {ℓ} (P : Session → Type ℓ)
    (line_keeps : (l : Listener) (a : Answers) (s : Session) (input : Bytes)
      → P s
      → P (client_line l a s input).session)
    (close_keeps : (s : Session) → P s → P (client_close s).0)
    (tls_keeps : (s : Session) (t : TlsMode) → P s → P (record s { tls_mode = t }))
    (free_keeps : (s : Session) → P s → P (client_free s)) where
  on_select-keeps :
      (l : Listener) (v : Visit) (i : Input) (c : Client)
      (o : Option ((Moment × Reading) × List (Moment × Reading)))
      → P c.session
      → P (on_select l v i c o).0.session
  unfolding on_select
  on_select-keeps l v i c (some (first, rest)) h =
      client_process-keeps P line_keeps close_keeps tls_keeps l c i first rest h
  on_select-keeps l v i c none h =
      if_both (λ (r : Client × Input). P r.0.session) (client_timeout c v.now)
        (close (say c (line "500 Timed out\r\n")), i) (c, i) (close_keeps c.session h) h

  memtimeout-keeps : (c : Client) (now : ℕ) → P c.session → P (client_memtimeout c now).session
  unfolding client_memtimeout
  memtimeout-keeps c now h =
      if_both (λ (d : Client). P d.session)
        (is_some c.session.current_mail.data_text && ltb (c.last_action + cmail_memory_timeout) now)
        (record c { session = client_free c.session }) c (free_keeps c.session h) h

  tend-keeps :
      (l : Listener) (v : Visit) (i : Input) (c : Client) (fd : Option ℕ)
      → P c.session
      → P (tend l v i c fd).0.session
  unfolding tend
  tend-keeps l v i c (some fd) h = on_select-keeps l v i c v.readable h
  tend-keeps l v i c none h = memtimeout-keeps c v.now h

client_free-none : (s : Session) → (client_free s).current_mail.forward_paths ≡ []
unfolding client_free mail_reset
client_free-none s = ground arith

client_free-IsSound : (s : Session) → IsSound s → IsSound (client_free s)
client_free-IsSound s h = inr (client_free-none s)

client_free-IsForeign :
    (x : ℕ) (p : MailPath) (used : p.in_transaction ≡ true) (s : Session)
    → IsForeign x p used s
    → IsForeign x p used (client_free s)
unfolding client_free mail_reset
client_free-IsForeign x p used s h = record {
  held = return_all_others s.current_mail.forward_paths s.pool x h.outside ∙ h.held;
  outside = subst (IsOutside x) (sym (client_free-none s)) tt;
}

tls-IsSound : (s : Session) (t : TlsMode) → IsSound s → IsSound (record s { tls_mode = t })
tls-IsSound s t (inl v) = inl (record { fits = v.fits; recipients = v.recipients })
tls-IsSound s t (inr e) = inr e

pub tend-IsSound :
    (l : Listener) (v : Visit) (i : Input) (c : Client) (fd : Option ℕ)
    → IsSound c.session
    → IsSound (tend l v i c fd).0.session
tend-IsSound =
    tend-keeps IsSound client_line-IsSound (λ s h. client_close-IsSound s) tls-IsSound
      client_free-IsSound

pub tend-IsForeign :
    (x : ℕ) (p : MailPath) (used : p.in_transaction ≡ true) (l : Listener) (v : Visit) (i : Input)
    (c : Client) (fd : Option ℕ)
    → IsForeign x p used c.session
    → IsForeign x p used (tend l v i c fd).0.session
tend-IsForeign x p used =
    tend-keeps (IsForeign x p used) (client_line-IsForeign x p used)
      (client_close-IsForeign x p used) (λ s t h. record { held = h.held; outside = h.outside })
      (client_free-IsForeign x p used)
