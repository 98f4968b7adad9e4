-- ===== src/Smtpd/Server/Shutdown.antt =====
-- cmail-smtpd/coreloop.c: the end of core_loop.
use cmail.Base.{ℕ, List, [], ◌∷◌, Option, none, some, ◌≡◌, refl, if_both, ◌==◌}
use cmail.Common.ConnPool.{Connection, fds_of, connpool_free}
use cmail.Smtpd.PathPool.{PathPool, pathpool_free}
use cmail.Smtpd.Client.{Client}
use cmail.Smtpd.Server.{
  Server, leave, and_later, leave_first, leave_all, freed, shutdown_of, shutdown,
}

abbrev Left : Option (List (Connection Client) × PathPool) → Type 0
Left none = Unit
Left (some (cs, pool)) = fds_of cs ≡ []

and_later-Left :
    (conn : Connection Client) (c : Client) (o : Option (List (Connection Client) × PathPool))
    → Left o
    → Left (and_later conn c o)
unfolding fds_of
and_later-Left conn c none h = tt
and_later-Left conn c (some (cs, pool)) h = h

leave_first-Left :
    (later : PathPool → Option (List (Connection Client) × PathPool)) (pool : PathPool)
    (conn : Connection Client) (o : Option Client)
    → ((p : PathPool) → Left (later p))
    → Left (leave_first later pool conn o)
leave_first-Left later pool conn none h = tt
leave_first-Left later pool conn (some c) h =
    and_later-Left conn (leave pool conn c) (later (leave pool conn c).session.pool)
      (h (leave pool conn c).session.pool)

leave_all-Left : (cs : List (Connection Client)) (pool : PathPool) → Left (leave_all cs pool)
unfolding leave_all fds_of
leave_all-Left [] pool = refl
leave_all-Left (conn ∷ cs) pool =
    leave_first-Left (leave_all cs) pool conn conn.aux_data (leave_all-Left cs)

-- What is left of the server where its end is defined
abbrev Ended : Option (List ℕ × Server) → Type 0
Ended none = Unit
Ended (some (fds, sv)) = (fds ≡ []) × (sv.clients.conns ≡ none) × (sv.path_pool.paths ≡ [])

freed-Ended :
    (sv : Server) (o : Option (List (Connection Client) × PathPool)) → Left o → Ended (freed sv o)
unfolding connpool_free pathpool_free
freed-Ended sv none h = tt
freed-Ended sv (some (cs, pool)) h = (h, refl, refl)

shutdown_of-Ended :
    (sv : Server) (o : Option (List (Connection Client)))
    → sv.clients.conns ≡ o
    → Ended (shutdown_of sv o)
unfolding pathpool_free
shutdown_of-Ended sv none e = if_both Ended (sv.clients.count == 0) _ _ (refl, e, refl) tt
shutdown_of-Ended sv (some cs) e =
    freed-Ended sv (leave_all cs sv.path_pool) (leave_all-Left cs sv.path_pool)

-- At the end of the loop no descriptor is closed a second time, and no client and no path is left.
pub shutdown-Ended : (sv : Server) → Ended (shutdown sv)
unfolding shutdown
shutdown-Ended sv = shutdown_of-Ended sv sv.clients.conns refl
