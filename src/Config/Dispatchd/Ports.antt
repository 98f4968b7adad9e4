-- ===== src/Config/Dispatchd/Ports.antt =====
-- cmail-dispatchd/config.c: the arrays of ports and of bounce recipients, which the loops of the
-- daemon read up to their sentinels.
use cmail.Base.{
  ◌+◌, Bool, ◌||◌, List, [], ◌∷◌, ◌++◌, Option, none, some, ◌≡◌, refl, sym, ap, ◌∙◌, arith, if_both,
  if_cases, ◌==◌, Bytes, length, ℤ, pos, negsuc, All, if◌then◌else◌, ◌≢◌, ◌⊎◌, inl, inr,
}
use mathlib.Core.List.{append-nil, append_assoc}
use cmail.Dispatchd.Remote.{RemotePort, no_port}
use cmail.Config.File.{tokens, split_directive, config_parse}
use cmail.Config.File.Keeps.{config_parse-keeps}
use cmail.Config.Daemon.{Env, starts}
use cmail.Config.Dispatchd.{
  Settings, Configuration, Memory, port_token, then_read, read_ports, on_ports, config_ports,
  stored, add_bounces, before_null, current, config_bounceto, config_line, last_directives,
  number_directives,
}

-- The ports of a stanza: those that are not 0
abbrev pub ports_of : Memory → List Bytes → List RemotePort
ports_of m [] = []
ports_of m (t ∷ ts) =
    let rest = ports_of m ts in
    let p = port_token (m.strtoul_end t) in if p.port == 0 then rest else p ∷ rest

abbrev pub somes : List Bytes → List (Option Bytes)
somes [] = []
somes (a ∷ more) = some a ∷ somes more

-- An array that ends in its sentinel: a port that is 0 behind ports that are not, and a NULL behind
-- the addresses
abbrev pub PortArray : Option (List RemotePort) → Type 0
PortArray none = Unit
PortArray (some ps) = (us : List RemotePort) × All (λ p. p.port ≢ 0) us × (ps ≡ us ++ no_port ∷ [])

abbrev pub AddressArray : Option (List (Option Bytes)) → Type 0
AddressArray none = Unit
AddressArray (some rs) =
    (to : List Bytes) × (more : List (Option Bytes)) × (rs ≡ somes to ++ none ∷ more)

ports_of-usable : (m : Memory) (ts : List Bytes) → All (λ p. p.port ≢ 0) (ports_of m ts)
ports_of-usable m [] = tt
ports_of-usable m (t ∷ ts) =
    let p = port_token (m.strtoul_end t) in
    if_cases (All (λ p. p.port ≢ 0)) (p.port == 0) (ports_of m ts) (p ∷ ports_of m ts)
      (λ e. ports_of-usable m ts) (λ e. (ground (arith, e), ports_of-usable m ts))

read_ports_lem :
    (m : Memory) (written : List RemotePort) (ts : List Bytes)
    → (read_ports m written ts ≡ none) ⊎ (read_ports m written ts ≡ some (written ++ ports_of m ts))
unfolding read_ports
read_ports_lem m written [] = inr (ap some (sym (append-nil written)))
read_ports_lem m written (t ∷ ts) =
    if_cases (λ o. IsRead (then_read o (λ more. read_ports m more ts)) (ports_of m (t ∷ ts)))
      (p.port == 0) _ _ (λ e. rw e (read_ports_lem m written ts))
      (λ e. rw e (
        if_both (λ o. IsRead (then_read o (λ more. read_ports m more ts)) (p ∷ ports_of m ts))
          (m.realloc (length written + 1)) (some (written ++ p ∷ [])) none
          (elim (read_ports_lem m (written ++ p ∷ []) ts) [
            | inl k ↦ inl k
            | inr k ↦ inr (k ∙ ap some (append_assoc written (p ∷ []) (ports_of m ts)))
          ])
          (inl refl)))
  where
    p : RemotePort
    p = port_token (m.strtoul_end t)

    IsRead : Option (List RemotePort) → List RemotePort → Type 0
    IsRead o ps = (o ≡ none) ⊎ (o ≡ some (written ++ ps))

-- A stanza of ports is read into those of its words whose number is not 0, in their order, with the
-- sentinel behind them; or, where memory runs out, there are no ports and it is refused.
pub config_ports_lem :
    (m : Memory) (s : Settings) (params : Bytes)
    → (config_ports m s params ≡ (record s { port_list = none }, negsuc 0))
      ⊎ (config_ports m s params ≡ (
        record s { port_list = some (ports_of m (tokens b' ' params) ++ no_port ∷ []) },
        pos 0,
      ))
unfolding config_ports
config_ports_lem m s params = elim (read_ports_lem m [] (tokens b' ' params)) [
  | inl e ↦ inl (ap (on_ports m s) e)
  | inr e ↦ rw e (
      if_both
        (λ r.
          (r ≡ (record s { port_list = none }, negsuc 0))
          ⊎ (r ≡ (record s { port_list = some (read ++ no_port ∷ []) }, pos 0)))
        (m.realloc (length read + 1)) _ _ (inr refl) (inl refl))
]
  where
    read : List RemotePort
    read = ports_of m (tokens b' ' params)

-- A list of addresses and its sentinel, and what stands before the sentinel
before_null_lem : (rs : List (Option Bytes)) → (to : List Bytes) × (before_null rs ≡ somes to)
before_null_lem [] = ([], refl)
before_null_lem (none ∷ rs) = ([], refl)
before_null_lem (some r ∷ rs) = let (to, e) = before_null_lem rs in (r ∷ to, ap (◌∷◌ (some r)) e)

somes_snoc : (to : List Bytes) (r : Bytes) → somes to ++ some r ∷ [] ≡ somes (to ++ r ∷ [])
somes_snoc [] r = refl
somes_snoc (t ∷ to) r = ap (◌∷◌ (some t)) (somes_snoc to r)

-- Both arrays of the settings
abbrev pub Terminated : Settings → Type 0
Terminated s = PortArray s.port_list × AddressArray s.bounce_to

add_bounces-Terminated :
    (e : Env) (m : Memory) (s : Settings) (to : List Bytes) (ts : List Bytes)
    → Terminated s
    → Terminated (add_bounces e m s (somes to) ts).0
unfolding add_bounces
add_bounces-Terminated e m s to [] h = h
add_bounces-Terminated e m s to (r ∷ ts) h =
    if_both Ok (m.realloc (length (somes to) + 2)) _ _
      (if_both Ok (e.strdup r) _ _
        (rw (somes_snoc to r) (
          add_bounces-Terminated e m (stored s (somes (to ++ r ∷ []))) (to ++ r ∷ []) ts
            (h.0, (to ++ r ∷ [], [], refl))))
        (h.0, (to, none ∷ [], refl)))
      (h.0, tt)
  where
    Ok : Settings × ℤ → Type 0
    Ok r = Terminated r.0

config_ports-Terminated :
    (m : Memory) (s : Settings) (params : Bytes)
    → Terminated s
    → Terminated (config_ports m s params).0
config_ports-Terminated m s params h = elim (config_ports_lem m s params) [
  | inl e ↦ rw e (tt, h.1)
  | inr e ↦ rw e ((ports_of m words, ports_of-usable m words, refl), h.1)
]
  where
    words : List Bytes
    words = tokens b' ' params

config_bounceto-Terminated :
    (e : Env) (m : Memory) (s : Settings) (params : Bytes)
    → Terminated s
    → Terminated (config_bounceto e m s params).0
unfolding config_bounceto
config_bounceto-Terminated e m s params h = go s.bounce_to
  where
    go :
        (o : Option (List (Option Bytes)))
        → Terminated (add_bounces e m s (current o) (tokens b' ' params)).0
    go none = add_bounces-Terminated e m s [] (tokens b' ' params) h
    go (some rs) =
        let (to, k) = before_null_lem rs in
        rw k (add_bounces-Terminated e m s to (tokens b' ' params) h)

config_line-Terminated :
    (e : Env) (m : Memory) (c : Configuration) (line : Bytes)
    → Terminated c.settings
    → Terminated (config_line e m c line).0.settings
unfolding config_line last_directives
config_line-Terminated e m c line h =
    let (directive, params) = split_directive line in
    if_both Ok (starts "user" directive || starts "group" directive) _ _ h (
      if_both Ok (starts "database" directive) _ _ h (
        if_both Ok (starts "verbosity" directive || starts "logfile" directive) _ _ h (
          if_both Ok (starts "announce" directive) _ _ h (
            if_both Ok (starts "portprio" directive) _ _
              (config_ports-Terminated m c.settings params h) (numbers directive params)))))
  where
    Ok : Configuration × ℤ → Type 0
    Ok r = Terminated r.0.settings

    last : (directive params : Bytes) → Ok (last_directives e m c directive params)
    last directive params = if_both Ok (starts "tls_trustfile" directive) _ _ h (
        if_both Ok (starts "ratelimit" directive) _ _ h (
          if_both Ok (starts "bounce_from" directive) _ _ h (
            if_both Ok (starts "bounce_copy" directive) _ _
              (config_bounceto-Terminated e m c.settings params h)
              (if_both Ok (starts "bind" directive) _ _ h
                (if_both Ok (starts "pidfile" directive) _ _ h h)))))

    numbers : (directive params : Bytes) → Ok (number_directives e m c directive params)
    numbers directive params = if_both Ok (starts "interval" directive) _ _ h (
        if_both Ok (starts "retries" directive) _ _ h (
          if_both Ok (starts "retryinterval" directive) _ _ h
            (if_both Ok (starts "tls_padding" directive) _ _ h (last directive params))))

-- Whatever the file says and wherever memory runs out, the array of ports is NULL, or usable ports
-- with a port 0 behind them, and the array of bounce recipients is NULL, or addresses with a NULL
-- behind them; also where the file is refused.
pub config_parse-Terminated :
    (e : Env) (m : Memory) (errno : Bool) (file : Option Bytes) (c : Configuration)
    → Terminated c.settings
    → Terminated (config_parse (config_line e m) errno file c).0.settings
config_parse-Terminated e m errno file c h =
    config_parse-keeps (λ d. Terminated d.settings) (config_line e m) errno
      (config_line-Terminated e m) file c h
