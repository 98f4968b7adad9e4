-- ===== src/Smtpd/Accept/Fresh.antt =====
-- cmail-smtpd/client.c: what client_accept puts into a slot.
use cmail.Base.{
  Bool, if◌then◌else◌, Bytes, ℕ, ◌≤◌, true, false, ◌&&◌, List, [], ◌∷◌, Option, none, some, ◌≡◌,
  ◌⊎◌, inl, inr, refl, ℤ, pos, negsuc,
}
use cmail.Net.{TlsMode, tls_none, tls_negotiate, tls_only}
use cmail.Common.ConnPool.{Connection, ConnPool, connpool_active, pool_of}
use cmail.Common.Accept.{Taken, undefined, refused, taken, take_slot, hold}
use cmail.Common.Accept.Limit.{
  AtMost, IsWithin, take_slot-IsWithin, active_in-hold, data_at, data_at-hold,
}
use cmail.Sasl.{SaslUser, sasl_invalid}
use cmail.Auth.Credentials.{strdup}
use cmail.Smtpd.Types.{MailRoute, no_route}
use cmail.Smtpd.Resolve.{route_query}
use cmail.Smtpd.PathPool.{PathPool}
use cmail.Smtpd.Session.{Listener, Reply, state_new, with_text}
use cmail.Smtpd.Relay.Quiet.{HasNone}
use cmail.Smtpd.Client.{Client}
use cmail.Smtpd.Accept.{
  Arrival, Accepted, new_client, client_accept, user_of, route_of, on_taken, greet,
  cmail_max_concurrent_clients,
}

-- The SASL user and the route of a client at the start: those of the listener's fixed user, as far as
-- his name could be copied, and without a fixed user nobody and no route
unfoldable pub IsSignedIn : Arrival → Option Bytes → SaslUser → MailRoute → Type 0
IsSignedIn a none user route =
    (user.authenticated ≡ none) × (user.authorized ≡ none) × (route ≡ no_route)
IsSignedIn a (some fixed) user route =
    (user.authenticated ≡ (if a.copies_authenticated then some fixed else none))
    × (user.authorized ≡ (if a.copies_authorized then some fixed else none))
    × (route ≡ (
        if a.copies_authenticated && a.copies_authorized
        then route_query a.outbound (some fixed)
        else no_route))

-- A client as it begins: without recipients, authenticated and authorized only as the fixed user of its
-- listener, and with the listener's size limit, whatever client had the slot before.
pub record IsFresh (l : Listener) (a : Arrival) (pool : PathPool) (c : Client) : Type 0 where
  pub begins : c.session.state ≡ state_new
  pub has_none : HasNone c.session
  pub size_limit : c.session.current_mail.data_max ≡ l.max_size
  pub empty : c.session.current_mail.data_offset ≡ 0
  pub signed_in : IsSignedIn a l.fixed_user c.session.sasl.user c.session.originating_route
  pub no_method : c.session.sasl.method ≡ sasl_invalid
  pub score : c.connection_score ≡ pos 0
  pub shared : c.session.pool ≡ pool

strdup_lem : (b : Bool) (u : Bytes) → strdup b u ≡ (if b then some u else none)
strdup_lem true u = refl
strdup_lem false u = refl

user_of-IsSignedIn :
    (a : Arrival) (fixed : Option Bytes) → IsSignedIn a fixed (user_of a fixed) (route_of a fixed)
unfolding IsSignedIn
user_of-IsSignedIn a none = (refl, refl, refl)
user_of-IsSignedIn a (some u) =
    (strdup_lem a.copies_authenticated u, strdup_lem a.copies_authorized u, refl)

new_client-IsFresh :
    (l : Listener) (a : Arrival) (pool : PathPool) (old : Option Client)
    → IsFresh l a pool (new_client l a pool old)
unfolding new_client
new_client-IsFresh l a pool old = record {
  begins = refl;
  has_none = (refl, λ e. cc e);
  size_limit = refl;
  empty = refl;
  signed_in = user_of-IsSignedIn a l.fixed_user;
  no_method = refl;
  score = refl;
  shared = refl;
}

abbrev pub HoldsFresh :
    Listener → Arrival → PathPool → ℕ → Option (List (Connection Client)) → Type 0
HoldsFresh l a pool i none = false ≡ true
HoldsFresh l a pool i (some cs) = (c : Client) × (data_at i cs ≡ some c) × IsFresh l a pool c

-- What a taken client is sent: the greeting, or nothing where the TLS handshake comes first, with its
-- result
abbrev IsGreeted : Listener → Arrival → TlsMode → List Reply → ℤ → Type 0
IsGreeted l a tls_only sent rv = (sent ≡ []) × (rv ≡ a.tls_init)
IsGreeted l a mode sent rv =
    (sent ≡ with_text "220 %s ESMTP service ready\r\n" l.announce_domain ∷ []) × (rv ≡ pos 0)

-- What the function leaves: no more clients than the limit, and a refusal that sends nothing, or a
-- slot with a client that begins and is greeted
abbrev pub IsAccepted : Listener → Arrival → PathPool → Option Accepted → Type 0
IsAccepted l a pool none = false ≡ true
IsAccepted l a pool (some r) =
    AtMost cmail_max_concurrent_clients r.clients.conns
    × (((r.sent ≡ []) × ((r.rv ≡ pos 1) ⊎ (r.rv ≡ negsuc 0)))
        ⊎ (((i : ℕ) × HoldsFresh l a pool i r.clients.conns)
            × IsGreeted l a l.tls_mode r.sent r.rv))

slot-IsAccepted :
    (l : Listener) (a : Arrival) (pool : PathPool) (mode : Option TlsMode)
    (cs : List (Connection Client)) (i : ℕ) (old : Option Client) (sent : List Reply) (rv : ℤ)
    → IsWithin cmail_max_concurrent_clients (taken cs i old)
    → IsGreeted l a l.tls_mode sent rv
    → IsAccepted l a pool (
        some (record {
          clients = pool_of (hold i (new_client l a pool old) mode cs);
          sent = sent;
          rv = rv;
        }))
slot-IsAccepted l a pool mode cs i old sent rv (few, inside) greeted =
    let c = new_client l a pool old in
    (
      rw (active_in-hold i c mode cs) few,
      inr ((i, (c, data_at-hold i c mode cs inside, new_client-IsFresh l a pool old)), greeted),
    )

greet-IsGreeted :
    (l : Listener) (a : Arrival) (mode : TlsMode) (cs : List (Connection Client)) (i : ℕ)
    (c : Client)
    → IsGreeted l a mode (greet l a mode cs i c).sent (greet l a mode cs i c).rv
greet-IsGreeted l a tls_none cs i c = (refl, refl)
greet-IsGreeted l a tls_negotiate cs i c = (refl, refl)
greet-IsGreeted l a tls_only cs i c = (refl, refl)

greet-IsAccepted :
    (l : Listener) (a : Arrival) (pool : PathPool) (mode : TlsMode) (cs : List (Connection Client))
    (i : ℕ) (old : Option Client)
    → (let g = greet l a mode cs i (new_client l a pool old) in
        IsGreeted l a l.tls_mode g.sent g.rv)
    → IsWithin cmail_max_concurrent_clients (taken cs i old)
    → IsAccepted l a pool (some (greet l a mode cs i (new_client l a pool old)))
greet-IsAccepted l a pool tls_none cs i old e h = slot-IsAccepted l a pool none cs i old _ _ h e
greet-IsAccepted l a pool tls_negotiate cs i old e h =
    slot-IsAccepted l a pool none cs i old _ _ h e
greet-IsAccepted l a pool tls_only cs i old e h =
    slot-IsAccepted l a pool (some tls_negotiate) cs i old _ _ h e

on_taken-IsAccepted :
    (l : Listener) (a : Arrival) (pool : PathPool) (t : Taken Client)
    → IsWithin cmail_max_concurrent_clients t
    → IsAccepted l a pool (on_taken l a pool t)
on_taken-IsAccepted l a pool undefined h = h
on_taken-IsAccepted l a pool (refused clients rv) h = (h.0, inl (refl, h.1))
on_taken-IsAccepted l a pool (taken cs i old) h =
    greet-IsAccepted l a pool l.tls_mode cs i old (greet-IsGreeted l a l.tls_mode cs i _) h

-- From a pool with a table that is known and no more than 64 clients, client_accept leaves no more than
-- 64, and either refuses with 1 or -1, without sending anything, or a slot holds a client that begins: new,
-- without recipients or text, authenticated and authorized as the fixed user of its listener, with his
-- outbound route, or as nobody where there is none or his name cannot be copied, with the listener's size
-- limit and no bad score, whatever client had the slot before. It is sent the greeting, or with tlsonly nothing, the
-- result then being that of the start of TLS.
pub client_accept-IsAccepted :
    (l : Listener) (a : Arrival) (pool : PathPool) (clients : ConnPool Client) (n : ℕ)
    → connpool_active clients ≡ some n
    → n ≤ cmail_max_concurrent_clients
    → IsAccepted l a pool (client_accept l a pool clients)
unfolding client_accept
client_accept-IsAccepted l a pool clients n active le =
    on_taken-IsAccepted l a pool (take_slot cmail_max_concurrent_clients clients a.incoming)
      (take_slot-IsWithin cmail_max_concurrent_clients clients a.incoming n active le)
