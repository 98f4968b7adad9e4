-- ===== src/Tests/Server.antt =====
-- The theorems about the loops that serve clients, and the pool of connections, at concrete inputs.
use cmail.Base.{
  ℕ, Bool, true, false, ◌&&◌, [], ◌∷◌, some, none, ◌≡◌, refl, arith, Bytes, codes, pos, ◌==◌, List,
  not, inr, length, ◌<◌, has_prefix, negsuc,
}
use cmail.Net.{tls_none, other_error}
use cmail.Common.NextLine.{Input, cleared}
use cmail.Common.NextLine.Lines.{IsLine, unlines}
use cmail.Common.LineLoop.{serve_read}
use cmail.Common.LineLoop.Refine.{Refines, serve_all, serve_read-Refines}
use cmail.Common.Strrepl.{common_strrepl}
use cmail.Common.Strrepl.Fits.{common_strrepl_fits}
use cmail.Common.ConnPool.{ConnPool}
use cmail.Common.ConnPool.Active.{
  Call, opens, closes, copies, pool_copies, run_pool, run_bag, AreFresh, run_pool_refines,
}
use cmail.Dispatchd.Smtp.Wire.{join, dotted_lines}
use cmail.Smtpd.Session.{state_data}
use cmail.Smtpd.State.Data.{end_reply}
use cmail.Smtpd.Client.{Client, Moment, serve_line, client_process, got, failed}
use cmail.Smtpd.Client.Score.{IsTolerated, client_process-IsTolerated}
use cmail.Smtpd.Client.Lines.{IsServed}
use cmail.Smtpd.Client.Lines.Receive.{growth, sent_lines, mail_arrives}
use cmail.Tests.Data.{listener, answers, fresh, no_mail}

abbrev is_line : Bytes → Bool
is_line [] = true
is_line (c ∷ cs) = (not (c == 13) && not (c == 0)) && is_line cs

is_line-IsLine : (l : Bytes) → is_line l ≡ true → IsLine l
is_line-IsLine [] h = tt
is_line-IsLine (c ∷ cs) h = ((ground arith, ground arith), is_line-IsLine cs (ground arith))

abbrev moment : Moment
moment = record { answers = λ n. answers; time = λ n. 7 }

abbrev client : Client
client = record { session = fresh; connection_score = pos 0; last_action = 0; sent = [] }

abbrev input : Input
input = record { kept = codes "NO"; fresh = unlines (codes "OP" ∷ codes "QUIT" ∷ []) (codes "x") }

serve_read-Refines_example :
    Refines
      (serve_line listener moment)
      (serve_read (serve_line listener moment) client input)
      (serve_all (serve_line listener moment) 0 (codes "NOOP" ∷ codes "QUIT" ∷ []) client)
      (codes "x")
unfolding cleared
serve_read-Refines_example =
    serve_read-Refines (serve_line listener moment) client input (codes "NO")
      (codes "OP" ∷ codes "QUIT" ∷ []) (codes "x") refl refl (is_line-IsLine (codes "NO") refl)
      (is_line-IsLine (codes "OP") refl, (is_line-IsLine (codes "QUIT") refl, tt))
      (is_line-IsLine (codes "x") refl)

client_process-IsTolerated_example :
    IsTolerated
      (client_process listener client input
        (moment, got (codes "QUIT\r\n"))
        ((moment, failed other_error) ∷ [])).client
client_process-IsTolerated_example =
    client_process-IsTolerated listener client input (moment, got (codes "QUIT\r\n"))
      ((moment, failed other_error) ∷ []) (λ e. absurd cc)

-- A mail of which the header is there, with two lines to come, one of them a dot.
abbrev receiving : Client
receiving = record client {
  session = record fresh {
    state = state_data;
    current_mail = record no_mail {
      data_text = some (codes "H");
      data_offset = 1;
      data_allocated = 9;
      data_max = 100;
    };
  };
}

receiving-IsServed : IsServed (codes "H") (growth (codes "a") (codes "." ∷ [])) receiving
unfolding growth
receiving-IsServed = (
  (
    refl,
    record {
      text = refl;
      room = record { allocated = omega arith; block = (refl, omega arith) };
      begun = omega arith;
    },
    inr (omega arith),
  ),
  refl,
)

mail_arrives_example :
    let (c', closed) =
      serve_all (serve_line listener moment) 0 (codes "a" ∷ codes ".." ∷ []) receiving in
    (closed ≡ false)
    × IsServed (codes "H\r\na\r\n.") 0 c'
    × (c'.sent ≡ [])
    × ((serve_all
          (serve_line listener moment)
          0
          (codes "a" ∷ codes ".." ∷ codes "." ∷ [])
          receiving).0.sent
        ≡ end_reply answers c'.session ∷ [])
unfolding join sent_lines dotted_lines
mail_arrives_example =
    mail_arrives listener moment (λ n. refl) 0 (codes "a") (codes "." ∷ []) (codes "H") receiving
      (omega arith) (omega arith, tt) receiving-IsServed

-- descriptor 4 is open, and slot 1 is free
abbrev pool : ConnPool ℕ
pool = record {
  conns = some (
      record { tls_mode = tls_none; fd = some 4; aux_data = none }
      ∷ record { tls_mode = tls_none; fd = none; aux_data = some 1 }
      ∷ []);
  count = 2;
}

abbrev calls : List Call
calls = opens 5 ∷ closes 4 ∷ opens 6 ∷ []

fresh_calls : AreFresh (λ g. pool_copies g pool) calls
unfolding AreFresh copies
fresh_calls = (refl, (refl, tt))

run_pool_refines_example :
    pool_copies 6 (run_pool pool calls) ≡ run_bag (λ g. pool_copies g pool) calls 6
run_pool_refines_example =
    run_pool_refines calls pool (λ g. pool_copies g pool) 6 (λ x. refl) fresh_calls

abbrev command : Bytes
command = codes "to %user, %user"

replaced : common_strrepl command 24 (codes "%user") (codes "joe") ≡ (codes "to joe, joe", pos 0)
unfolding common_strrepl has_prefix
replaced = refl

-- The result of 11 bytes would fit, but the second replacement is refused.
refused_though_it_fits :
    common_strrepl command 18 (codes "%user") (codes "joe") ≡ (codes "to joe, %user", negsuc 0)
unfolding common_strrepl has_prefix
refused_though_it_fits = refl

common_strrepl_fits_example :
    length (common_strrepl command 18 (codes "%user") (codes "joe")).0 < 18
common_strrepl_fits_example =
    common_strrepl_fits command 18 (codes "%user") (codes "joe") (omega arith)
