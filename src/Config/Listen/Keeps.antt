-- ===== src/Config/Listen/Keeps.antt =====
-- The socket of config_bind: what holds of every listener before holds of every listener behind it.
use cmail.Base.{
  ℕ, zero, suc, Bool, true, false, List, [], ◌∷◌, ◌++◌, Option, none, some, ◌==◌, set, if_both,
  Bytes, ℤ, pos, negsuc, All,
}
use cmail.Net.{TlsMode, tls_none}
use cmail.Common.ConnPool.{
  Connection, ConnPool, Slot, held, free, missing, find_slot, on_fd, next_slot, new_connection,
  on_slot, add_to, connpool_add,
}
use cmail.Config.Listen.{
  Network, in_slot, in_conns, change_slot, with_aux, no_aux, on_aux, on_socket, listen,
}

module _ {ℓ} {A : Type ℓ} (Q : A → TlsMode → Type ℓ) where
  abbrev pub OnAux : Option A → TlsMode → Type ℓ
  OnAux none m = Unit
  OnAux (some a) m = Q a m

  abbrev pub Listens : List (Connection A) → Type ℓ
  Listens cs = All (λ c. OnAux c.aux_data c.tls_mode) cs

  -- Every listener that has its data has `Q` of it and of its TLS mode.
  abbrev pub AllListen : Option (List (Connection A)) → Type ℓ
  AllListen none = Unit
  AllListen (some cs) = Listens cs

  module _ (to_none : (a : A) (m : TlsMode) → Q a m → Q a tls_none) where
    OnAux-none : (o : Option A) (m : TlsMode) → OnAux o m → OnAux o tls_none
    OnAux-none none m h = tt
    OnAux-none (some a) m h = to_none a m h

    abbrev FreeOk : Slot A → Type ℓ
    FreeOk (held i) = Unit
    FreeOk (free i x) = OnAux x tls_none
    FreeOk missing = Unit

    next_slot-FreeOk : (s : Slot A) → FreeOk s → FreeOk (next_slot s)
    next_slot-FreeOk (held i) h = tt
    next_slot-FreeOk (free i x) h = h
    next_slot-FreeOk missing h = tt

    find_slot-FreeOk : (fd : ℕ) (cs : List (Connection A)) → Listens cs → FreeOk (find_slot fd cs)
    unfolding find_slot
    find_slot-FreeOk fd [] h = tt
    find_slot-FreeOk fd (c ∷ cs) h = go c.fd (find_slot fd cs) (find_slot-FreeOk fd cs h.1)
      where
        go : (o : Option ℕ) (s : Slot A) → FreeOk s → FreeOk (on_fd fd o c.aux_data s)
        go none s k = OnAux-none c.aux_data c.tls_mode h.0
        go (some g) s k = if_both FreeOk (g == fd) (held 0) (next_slot s) tt (next_slot-FreeOk s k)

    Listens-set :
        (cs : List (Connection A)) (i fd : ℕ) (x : Option A)
        → Listens cs
        → OnAux x tls_none
        → Listens (set cs i (new_connection fd x))
    Listens-set [] i fd x h k = tt
    Listens-set (c ∷ cs) zero fd x h k = (k, h.1)
    Listens-set (c ∷ cs) (suc i) fd x h k = (h.0, Listens-set cs i fd x h.1 k)

    Listens-append :
        (cs : List (Connection A)) (fd : ℕ)
        → Listens cs
        → Listens (cs ++ new_connection fd none ∷ [])
    Listens-append [] fd h = (tt, tt)
    Listens-append (c ∷ cs) fd h = (h.0, Listens-append cs fd h.1)

    abbrev AddKeeps : ConnPool A × ℤ → Type ℓ
    AddKeeps r = AllListen r.0.conns

    on_slot-keeps :
        (alloc : Bool) (fd : ℕ) (cs : List (Connection A)) (s : Slot A)
        → Listens cs
        → FreeOk s
        → AddKeeps (on_slot alloc fd cs s)
    on_slot-keeps alloc fd cs (held i) h k = h
    on_slot-keeps alloc fd cs (free i x) h k = Listens-set cs i fd x h k
    on_slot-keeps true fd cs missing h k = Listens-append cs fd h
    on_slot-keeps false fd cs missing h k = tt

    connpool_add-keeps :
        (alloc : Bool) (pool : ConnPool A) (fd : ℕ)
        → AllListen pool.conns
        → AddKeeps (connpool_add alloc pool (some fd))
    unfolding connpool_add
    connpool_add-keeps alloc pool fd h = go pool.conns h
      where
        go : (o : Option (List (Connection A))) → AllListen o → AddKeeps (add_to alloc fd pool o)
        go none k = if_both AddKeeps alloc _ _ (tt, tt) h
        go (some cs) k = on_slot-keeps alloc fd cs (find_slot fd cs) k (find_slot-FreeOk fd cs k)

    in_slot-keeps :
        (f : Connection A → Connection A) (i : ℕ) (cs : List (Connection A))
        → ((c : Connection A) → OnAux (f c).aux_data (f c).tls_mode)
        → Listens cs
        → Listens (in_slot f i cs)
    in_slot-keeps f i [] k h = tt
    in_slot-keeps f zero (c ∷ cs) k h = (k c, h.1)
    in_slot-keeps f (suc i) (c ∷ cs) k h = (h.0, in_slot-keeps f i cs k h.1)

    change_slot-keeps :
        (f : Connection A → Connection A) (i : ℕ) (pool : ConnPool A)
        → ((c : Connection A) → OnAux (f c).aux_data (f c).tls_mode)
        → AllListen pool.conns
        → AllListen (change_slot f i pool).conns
    change_slot-keeps f i pool k h = go pool.conns h
      where
        go :
            (o : Option (List (Connection A))) → AllListen o → AllListen (in_conns f i pool o).conns
        go none g = h
        go (some cs) g = in_slot-keeps f i cs k g

    pub listen-keeps :
        (n : Network) (host port : Option Bytes) (mode : TlsMode) (a : A) (copied : Bool)
        (pool : ConnPool A)
        → AllListen pool.conns
        → Q a mode
        → AddKeeps (listen n host port mode (a, copied) pool)
    unfolding listen
    listen-keeps n host port mode a copied pool h q = on_socket-keeps (n.listener host port)
      where
        on_aux-keeps :
            (aux_alloc : Bool) (r : ConnPool A × ℤ)
            → AddKeeps r
            → AddKeeps (on_aux aux_alloc mode (a, copied) r)
        on_aux-keeps aux_alloc (p, negsuc k) h = h
        on_aux-keeps true (p, pos i) h = change_slot-keeps (with_aux a mode) i p (λ c. q) h
        on_aux-keeps false (p, pos i) h = change_slot-keeps no_aux i p (λ c. tt) h

        on_socket-keeps : (o : Option ℕ) → AddKeeps (on_socket n mode (a, copied) pool o)
        on_socket-keeps none = h
        on_socket-keeps (some fd) =
            on_aux-keeps (n.aux_alloc fd) (connpool_add (n.pool_alloc fd) pool (some fd))
              (connpool_add-keeps (n.pool_alloc fd) pool fd h)
