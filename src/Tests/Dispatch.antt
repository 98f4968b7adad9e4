-- ===== src/Tests/Dispatch.antt =====
-- The theorems about the dispatcher at concrete inputs: a mail for two recipients, and the replies of
-- its server.
use cmail.Base.{
  ℕ, true, false, [], ◌∷◌, some, none, ◌≡◌, refl, arith, Bytes, codes, pos, List, All, ◌⊎◌, ◌==◌,
}
use cmail.Net.{tls_none}
use cmail.Popd.Types.{done}
use cmail.Common.NextLine.Lines.{unlines}
use cmail.Dispatchd.Types.{Conn, received, quiet, empty_reply}
use cmail.Dispatchd.Protocol.{protocol_read, protocol_reply_reset, chunk_loop}
use cmail.Dispatchd.Protocol.Fuel.{Reads, chunk_loop-Reads}
use cmail.Dispatchd.Protocol.Replies.{Code, reply_of, protocol_read_reply, spell, More, AllTexts}
use cmail.Dispatchd.Smtp.{mail_text, Settings}
use cmail.Dispatchd.Smtp.Wire.{wire_of, join, dotted_lines, mail_text-unlines}
use cmail.Dispatchd.Outbox.{Database, Row, Sql, recipient_path}
use cmail.Dispatchd.Transaction.{
  OutboundMail, World, rcpt_ready, logic_handle_transaction, mail_dispatch,
}
use cmail.Dispatchd.Transaction.Taken.{is_ok, IsTaken}
use cmail.Dispatchd.Transaction.Delivered.{deletes_only_delivered}
use cmail.Dispatchd.Transaction.Outcome.{IsHandled, ids, no_recipient_forgotten}
use cmail.Dispatchd.Bounce.{Candidate, BounceSettings, BounceAnswers, logic_generate_bounces}
use cmail.Dispatchd.Bounce.Reports.{rows_of, bounces_accumulate}
use cmail.Dispatchd.Remote.{Remote, RemotePort, deliver_handoff, no_port}
use cmail.Dispatchd.Logic.{Network, nxdomain}
use cmail.Dispatchd.Logic.Rows.{Group}

abbrev conn : Conn
conn = record {
  extensions_supported = false;
  tls_mode = tls_none;
  reply = empty_reply;
  events =
      received (codes "250 sender ok\r\n")
      ∷ quiet 20
      ∷ received (codes "250 recipient ok\r\n")
      ∷ received (codes "450 try again\r\n")
      ∷ received (codes "354 go on\r\n")
      ∷ received (codes "250 taken\r\n")
      ∷ received (codes "250 reset\r\n")
      ∷ [];
  sent = [];
  memory = λ t. true;
  handshake_ok = false;
}

abbrev row : ℕ → Row
row n = record {
  mail_id = n;
  mail_envelopefrom = some (codes "a@b");
  mail_envelopeto = codes "c@d";
  mail_data = codes "hi";
}

abbrev database : Database
database = record { outbox = row 1 ∷ row 2 ∷ row 3 ∷ []; faillog = [] }

abbrev sql : Sql
sql = record {
  rcpt_bound = λ n. true;
  rcpt_queried = λ n. true;
  insert_reason = λ n. done;
  delete = λ n. done;
}

abbrev mail : OutboundMail
mail = record {
  rcpt = record { dbid = 1; status = rcpt_ready } ∷ record { dbid = 2; status = rcpt_ready } ∷ [];
  envelopefrom = some (codes "a@b");
  text = codes "hi";
}

abbrev world : World
world = record { database = database; conn = conn }

deletes_only_delivered_example :
    let after = (logic_handle_transaction sql mail world).world.database.outbox in
    let tried = mail_dispatch sql mail world in
    (after ≡ database.outbox)
    ⊎ (IsTaken mail.text tried.world.conn
        × ((x : ℕ)
            → All (λ r. is_ok r.status ≡ true → (r.dbid == x) ≡ false) tried.rcpts
            → recipient_path x after ≡ recipient_path x database.outbox))
deletes_only_delivered_example = deletes_only_delivered sql mail world (refl, (refl, tt))

no_recipient_forgotten_example :
    All (IsHandled (logic_handle_transaction sql mail world).world.database) (ids mail.rcpt)
unfolding ids
no_recipient_forgotten_example =
    no_recipient_forgotten sql mail world (refl, (refl, tt))
      ((refl, refl, refl, refl), ((refl, refl, refl, refl), tt))

abbrev remote : Remote
remote = record {
  host = some (codes "mx");
  mode = deliver_handoff;
  remote_auth = none;
  forced_port = no_port;
  remotespec = some (codes "mx");
}

abbrev ports : List RemotePort
ports = record { port = 25; tls_mode = tls_none } ∷ []

abbrev network : Network
network = record {
  dns = nxdomain;
  connect = λ host p. some conn;
  bound = true;
  transactions =
      record {
        mail_idlist = codes "1,2";
        mail_envelopefrom = some (codes "a@b");
        mail_data = codes "hi";
      }
      ∷ [];
  junk = λ n. none;
}

abbrev settings : Settings
settings = record { helo_announce = codes "me"; tls_padding = 0; random = none }

abbrev groups : List Group
groups =
    record {
      first = codes "1";
      others = codes "2" ∷ [];
      envelopefrom = some (codes "a@b");
      text = codes "hi";
    }
    ∷ []

abbrev code_250 : Code
code_250 = record {
  hundreds = 2;
  tens = 5;
  ones = 0;
  hundreds_lt = omega arith;
  tens_lt = omega arith;
  ones_lt = omega arith;
}

abbrev extensions : More
extensions = (code_250, codes "x") ∷ []

abbrev greeted : Conn
greeted = record conn { events = received (spell extensions code_250 (codes "y") (codes "z")) ∷ [] }

protocol_read_reply_example : protocol_read greeted 300 ≡ (
  record greeted {
    reply = reply_of (protocol_reply_reset empty_reply) extensions code_250 (codes "y");
    events = [];
  },
  pos 0,
)
unfolding AllTexts
protocol_read_reply_example =
    protocol_read_reply greeted 300 extensions code_250 (codes "y") (codes "z") [] (λ t. refl)
      (((refl, refl), tt), tt) ((refl, refl), tt) refl

chunk_loop-Reads_example :
    Reads conn.memory empty_reply
      (codes "250-a\r\n250 b\r\n")
      (chunk_loop 40 conn.memory empty_reply (codes "250-a\r\n250 b\r\n"))
chunk_loop-Reads_example =
    chunk_loop-Reads conn.memory 40 empty_reply (codes "250-a\r\n250 b\r\n") (omega arith)

mail_text-unlines_example :
    wire_of (mail_text (codes "a\r\n.")) ≡ unlines (dotted_lines (codes "a") (codes "." ∷ [])) []
unfolding join
mail_text-unlines_example =
    mail_text-unlines (codes "a") (codes "." ∷ []) ((refl, refl), tt) (((refl, refl), tt), tt)

abbrev candidate : ℕ → Bytes → Candidate
candidate n sender = record {
  mail_id = n;
  mail_envelopefrom = some sender;
  mail_envelopeto = codes "c@d";
  mail_submission = 5;
  mail_data = codes "hi";
}

abbrev bounce_settings : BounceSettings
bounce_settings = record { bounce_from = codes "me"; bounce_to = codes "root" ∷ [] }

abbrev bounce_answers : BounceAnswers
bounce_answers = record {
  time_text = codes "now";
  message_id = λ n. codes "id";
  reasons = λ n. [];
  report_bound = λ n. true;
  inserted = λ n i. true;
  recipient_bound = λ n i. true;
}

abbrev candidates : List Candidate
candidates = candidate 1 (codes "a") ∷ candidate 2 (codes "b") ∷ []

bounces_accumulate_example :
    (logic_generate_bounces bounce_settings bounce_answers sql
      (some (candidates, true))
      database).0.rows
    ≡ rows_of bounce_settings bounce_answers [] candidates
bounces_accumulate_example =
    bounces_accumulate bounce_settings bounce_answers sql candidates database (λ n. refl)
      (λ n i. refl) (λ n i. refl)
