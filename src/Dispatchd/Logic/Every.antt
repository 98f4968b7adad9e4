-- ===== src/Dispatchd/Logic/Every.antt =====
-- cmail-dispatchd/logic.c, logic_handle_remote: every mail that the query for a remote names.
use cmail.Base.{List}
use cmail.Dispatchd.Remote.{Remote}
