-- ===== src/Dispatchd/Logic.antt =====
-- cmail-dispatchd/logic.c, logic_handle_remote and logic_loop_hosts, and mail.c, mail_dbread: delivery
-- to one remote, and one interval of the daemon. adns, network_connect and the queries are parameters.
pub mod Outcomes
pub mod Rows
pub mod Every
use cmail.Base.{
  ℕ, zero, suc, ◌+◌, ◌%◌, Bool, true, false, not, ◌||◌, ◌&&◌, List, [], ◌∷◌, ◌++◌, Option, none,
  some, ◌==◌, leb, ltb, if◌then◌else◌, is_some, is_negative, length, drop, codes, ℤ, pos, negsuc,
  Bytes, is_digit, strtoul,
}
use cmail.Dispatchd.Types.{Conn}
use cmail.Dispatchd.Smtp.{Settings, smtp_negotiate}
use cmail.Dispatchd.Outbox.{Database, Sql, mail_failure}
use cmail.Dispatchd.Transaction.{
  Rcpt, rcpt_ready, OutboundMail, World, logic_handle_transaction, Settled,
}
use cmail.Dispatchd.Bounce.{
  Candidate, BounceSettings, BounceAnswers, Bouncing, logic_generate_bounces,
}
use cmail.Dispatchd.Remote.{Remote, RemotePort, DeliveryMode, deliver_domain, deliver_handoff}

-- a row of the transaction query: the ids with commas, the sender and the text
pub record TransactionRow : Type 0 where
  pub mail_idlist : Bytes
  pub mail_envelopefrom : Option Bytes
  pub mail_data : Bytes

unfoldable pub entries : Bytes → ℕ
entries [] = 1
entries (c ∷ cs) = let rest = entries cs in if c == b',' then suc rest else rest

unfoldable pub after_digits : Bytes → Bytes
after_digits [] = []
after_digits (c ∷ cs) = let rest = after_digits cs in if is_digit c then rest else c ∷ cs

unfoldable pub read_ids : ℕ → Bytes → List Rcpt
unfolding strtoul after_digits
read_ids zero ids = []
read_ids (suc n) ids =
    record { dbid = strtoul ids % 4294967296; status = rcpt_ready }
    ∷ read_ids n (drop 1 (after_digits ids))

abbrev or_stale : Option Bytes → Option Bytes → Option Bytes
or_stale stale none = stale
or_stale stale (some from) = some from

-- `stale` is what the slot held as its sender; memory is taken to be there.
unfoldable pub mail_dbread : Option Bytes → TransactionRow → OutboundMail
unfolding entries read_ids
mail_dbread stale r = record {
  rcpt = read_ids (entries r.mail_idlist) r.mail_idlist;
  envelopefrom = or_stale stale r.mail_envelopefrom;
  text = r.mail_data;
}

abbrev pub cmail_realloc_chunk : ℕ
cmail_realloc_chunk = 10

-- mail_reset
abbrev pub empty_mail : OutboundMail
empty_mail = record { rcpt = []; envelopefrom = none; text = [] }

-- mail_reset on the first slots of the array, which is what each reallocation does
unfoldable pub clear_slots : ℕ → List OutboundMail → List OutboundMail
clear_slots zero ms = ms
clear_slots (suc n) [] = []
clear_slots (suc n) (m ∷ ms) = empty_mail ∷ clear_slots n ms

abbrev with_room : ℕ → List OutboundMail → List OutboundMail × ℕ
with_room allocated ms =
    if leb allocated (length ms)
    then (clear_slots cmail_realloc_chunk ms, allocated + cmail_realloc_chunk)
    else (ms, allocated)

-- The array of transactions. A slot of the first chunk is clear; the sender of a later one is what
-- the memory held.
unfoldable pub read_transactions :
    (ℕ → Option Bytes) → ℕ → List OutboundMail → List TransactionRow → List OutboundMail
unfolding clear_slots mail_dbread
read_transactions junk allocated ms [] = ms
read_transactions junk allocated ms (r ∷ rs) =
    let (ms', allocated') = with_room allocated ms in
    let stale = if ltb (length ms') cmail_realloc_chunk then none else junk (length ms') in
    read_transactions junk allocated' (ms' ++ mail_dbread stale r ∷ []) rs

-- How the query for the MX records of a domain ends.
pub data Dns : Type 0 where
  failed nxdomain : Dns
  records : List Bytes → Dns

-- network_connect, for a host and a port: the new connection, if there is one
pub record Network : Type 0 where
  pub dns : Dns
  pub connect : Bytes → RemotePort → Option Conn
  pub bound : Bool
  pub transactions : List TransactionRow
  pub junk : ℕ → Option Bytes

abbrev negotiated : Conn × ℤ → Option Conn
negotiated (c, rv) = if is_negative rv then none else some c

-- one port of one host: a connection that has the protocol level that is wanted
abbrev on_connect : Settings → RemotePort → Option Bytes → Option Conn → Option Conn
on_connect s port auth none = none
on_connect s port auth (some c) = negotiated (smtp_negotiate s c port.tls_mode auth)

abbrev or_else : Option Conn → Option Conn → Option Conn
or_else none later = later
or_else (some c) later = some c

unfoldable pub try_ports : Settings → Network → Option Bytes → Bytes → List RemotePort → Option Conn
unfolding smtp_negotiate
try_ports s net auth host [] = none
try_ports s net auth host (p ∷ ps) =
    or_else (on_connect s p auth (net.connect host p)) (try_ports s net auth host ps)

unfoldable pub try_hosts :
    Settings → Network → Option Bytes → List RemotePort → List Bytes → Option Conn
unfolding try_ports
try_hosts s net auth ports [] = none
try_hosts s net auth ports (h ∷ hs) =
    or_else (try_ports s net auth h ports) (try_hosts s net auth ports hs)

abbrev is_handoff : DeliveryMode → Bool
is_handoff deliver_domain = false
is_handoff deliver_handoff = true

-- A forced port of a handoff takes the place of the first one, and no other is tried.
abbrev ports_for : DeliveryMode → RemotePort → List RemotePort → List RemotePort
ports_for mode forced [] = []
ports_for mode forced (p ∷ ps) =
    if is_handoff mode && not (forced.port == 0) then forced ∷ [] else p ∷ ps

-- the transactions, one after the other
unfoldable pub deliver : Sql → List OutboundMail → World → Settled
unfolding logic_handle_transaction
deliver sql [] w = record { world = w; delivered = 0 }
deliver sql (m ∷ ms) w =
    let now = logic_handle_transaction sql m w in
    let later = deliver sql ms now.world in
    record later { delivered = now.delivered + later.delivered }

-- the reason for all recipients of all transactions
unfoldable pub fail_rcpts : Sql → Bytes → Bool → List Rcpt → Database → Database
unfolding mail_failure
fail_rcpts sql reason fatal [] d = d
fail_rcpts sql reason fatal (r ∷ rs) d =
    fail_rcpts sql reason fatal rs (mail_failure sql d r.dbid (some reason) fatal).0

unfoldable pub fail_mails : Sql → Bytes → Bool → List OutboundMail → Database → Database
unfolding fail_rcpts
fail_mails sql reason fatal [] d = d
fail_mails sql reason fatal (m ∷ ms) d =
    fail_mails sql reason fatal ms (fail_rcpts sql reason fatal m.rcpt d)

-- The mode and the hosts to try; `none` returns at once, and the mails are tried again.
pub record Plan : Type 0 where
  pub mode : DeliveryMode
  pub hosts : List Bytes
  pub fatal : Bool

abbrev on_dns : Bytes → Dns → Option Plan
on_dns host failed = none
on_dns host nxdomain = some (record { mode = deliver_domain; hosts = []; fatal = true })
on_dns host (records []) =
    some (record { mode = deliver_handoff; hosts = host ∷ []; fatal = false })
on_dns host (records (mx ∷ mxs)) =
    some (record { mode = deliver_domain; hosts = mx ∷ mxs; fatal = false })

unfoldable pub plan_for : DeliveryMode → Bytes → Dns → Option Plan
plan_for deliver_domain host dns = on_dns host dns
plan_for deliver_handoff host dns =
    some (record { mode = deliver_handoff; hosts = host ∷ []; fatal = false })

abbrev reason_for : Plan → Bytes
reason_for p =
    if p.fatal
    then codes "Failed to resolve recipient domain"
    else if is_handoff p.mode
    then codes "Failed to connect or negotiate with handoff remote"
    else codes "Failed to reach any MX"

-- with or without a connection
abbrev pub on_connection : Sql → Plan → List OutboundMail → Database → Option Conn → Database × ℤ
on_connection sql p ms d none = (fail_mails sql (reason_for p) p.fatal ms d, negsuc 0)
on_connection sql p ms d (some c) =
    let s = deliver sql ms (record { database = d; conn = c }) in
    (s.world.database, pos s.delivered)

abbrev pub transactions_of : Network → List OutboundMail
transactions_of net = read_transactions net.junk 0 [] net.transactions

abbrev pub on_plan :
    Settings → List RemotePort → Sql → Network → Remote → Database → Option Plan → Database × ℤ
on_plan s ports sql net r d none = (d, negsuc 0)
on_plan s ports sql net r d (some p) =
    if not net.bound
    then (d, negsuc 0)
    else on_connection sql p (transactions_of net) d
        (try_hosts s net r.remote_auth (ports_for p.mode r.forced_port ports) p.hosts)

abbrev on_host :
    Settings → List RemotePort → Sql → Network → Remote → Database → Option Bytes → Database × ℤ
on_host s ports sql net r d none = (d, negsuc 0)
on_host s ports sql net r d (some host) =
    if ltb (length host) 2
    then (d, negsuc 0)
    else on_plan s ports sql net r d (plan_for r.mode host net.dns)

unfoldable pub logic_handle_remote :
    Settings → List RemotePort → Sql → Network → Remote → Database → Database × ℤ
unfolding read_transactions try_hosts deliver fail_mails plan_for
logic_handle_remote s ports sql net r d = on_host s ports sql net r d r.host

abbrev gained : ℤ → ℕ
gained (pos n) = n
gained (negsuc n) = 0

-- The remotes of one interval of logic_loop_hosts, and the number of mails delivered.
unfoldable pub handle_remotes :
    Settings → List RemotePort → Sql → (Remote → Network) → List Remote → Database → Database × ℕ
unfolding logic_handle_remote
handle_remotes s ports sql net [] d = (d, 0)
handle_remotes s ports sql net (r ∷ rs) d =
    let (d', rv) = logic_handle_remote s ports sql (net r) r d in
    let (d'', n) = handle_remotes s ports sql net rs d' in (d'', gained rv + n)

-- One round of the loop of logic_loop_hosts: the remotes, and then the bounces, of which `candidates`
-- is the query. A failed fetch leaves no remotes.
unfoldable pub core_interval :
    Settings
    → List RemotePort
    → Sql
    → (Remote → Network)
    → List Remote
    → BounceSettings
    → BounceAnswers
    → (Database → Option (List Candidate × Bool))
    → Database
    → Bouncing × (ℕ × ℕ)
unfolding handle_remotes logic_generate_bounces
core_interval s ports sql net remotes b a candidates d =
    let (d', delivered) = handle_remotes s ports sql net remotes d in
    let (bouncing, rv) = logic_generate_bounces b a sql (candidates d') d' in
    (bouncing, (delivered, gained rv))
