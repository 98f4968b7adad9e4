-- ===== src/Smtpd/State/Close.antt =====
-- cmail-smtpd/client.c, client_close. The TLS session is shut down and the socket closed; the
-- buffer of the mail goes back to the pool and the authentication is forgotten. The state and the
-- SASL context are left as they are.
use cmail.Base.{false, pos, ℤ}
use cmail.Net.{tls_none}
use cmail.Sasl.{sasl_reset_user}
use cmail.Smtpd.Types.{no_route}
use cmail.Smtpd.Mail.{mail_reset}
use cmail.Smtpd.Session.{Session}

unfoldable pub client_close : Session → Session × ℤ
client_close s =
    let (mail, pool) = mail_reset s.current_mail s.pool in
    (
      record s {
        tls_mode = tls_none;
        connected = false;
        current_mail = mail;
        originating_route = no_route;
        sasl = record s.sasl { user = sasl_reset_user s.sasl.user };
        pool = pool;
      },
      pos 0,
    )
