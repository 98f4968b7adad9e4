-- ===== src/Lib.antt =====
-- Verification of cmail: the SMTP server cmail-smtpd, the POP3 server cmail-popd, the dispatcher
-- cmail-dispatchd, the library that they share, and the administration tools cmail-admin.
--
-- The program. A server of cmail is one process with a select loop. It keeps a record for each
-- connection (CLIENT), splits what it receives into lines and hands each line to client_line, which
-- calls the function of the connection's state. That function answers with client_send, changes the
-- record, and returns a number that is added to the connection's score. The SMTP server collects a
-- mail (MAIL) whose recipients are paths out of a pool that all connections share, and routes it when
-- its last line has come; the POP3 server reads a user's mails from the databases into a maildrop,
-- whose deletions it carries out at QUIT. Both ask lib/sasl.c and lib/auth.c who the client is. What the
-- SMTP server puts into the table `outbox`, the dispatcher sends: it fetches the remotes that have mail,
-- opens a connection to each (remote, connection, smtp_negotiate), gives it the mails as transactions
-- (mail_dispatch), deletes what was accepted, logs what was not, and makes bounces of what has failed
-- for good.
--
-- The tools of cmail-admin change the tables that the daemons read: the users with their salted
-- passwords, the addresses with their routers, who may send, fetch mail and use the web panel.
--
-- The model. A state function takes the record of the connection, the answers that the libraries give
-- while the line is handled (`Answers`: allocation, the rows of the queries, the results of the
-- statements) and the line as a C string, and returns an `Outcome`: the record afterwards, what was
-- sent, and the number returned. Every theorem about a line holds for all answers unless it names the
-- ones that it needs. A pointer that may be NULL is an Option, a pointer into the path pool the number
-- of its slot, and `fd == -1` the field `connected`. TLS support is compiled in. The receive loops take
-- what network_read returns, round by round, and keep the buffer as the bytes before and behind
-- `append_offset`; the loop that both servers have stands in Common/LineLoop, over the function that
-- serves a line. A connection of the dispatcher holds the rounds of its read loop that are to come as a
-- list, each read takes some of them, and the end of the list is the signal that stops the daemon. Its
-- tables are lists of rows, and how each statement ends is a parameter for each mail. The tables of the
-- tools are lists of rows too, on which a statement does what its SQL text says if it can be prepared,
-- bound and carried out (`Statement`), and if the constraints of the schema allow it.
--
--   Base, Base/*          lists, bytes, C strings, signed results
--   Net                   lib/tls.h: the TLS modes; lib/network.c: how a read fails
--   Common/NextLine       lib/common.c: common_next_line
--   Common/Strrepl        lib/common.c: common_strrepl; Strrepl/Fits and Strrepl/Fuel below it
--   Common/Accept         client_accept of both servers: the slot of the pool; Accept/Limit below it
--   Common/LineLoop       the loop of client_process of both servers over one read; LineLoop/Refine and
--                         LineLoop/Invariant below it
--   Common/ConnPool       lib/connpool.c
--   Auth/Base64           lib/auth.c: auth_base64decode and auth_base64encode
--   Auth/Credentials      lib/auth.c: auth_validate
--   Sasl, Sasl/Plain      lib/sasl.c
--   Smtpd/Types           cmail-smtpd/smtpd.h, smtplimits.h
--   Smtpd/Path            cmail-smtpd/path.c: path_parse; its bounds, addresses and frame below it
--   Smtpd/PathPool        cmail-smtpd/pathpool.c, and path_reset of path.c
--   Smtpd/Mail            cmail-smtpd/mail.c: mail_line, mail_recvheader, mail_reset
--   Smtpd/Resolve         cmail-smtpd/path.c: path_resolve, and route.c: route_query
--   Smtpd/Delivery        cmail-smtpd/mail.c: mail_route, mail_originate and the store functions
--   Smtpd/Inbound         cmail-smtpd/route.c: route_local_path; Inbound/Once and Inbound/Every
--                         below it
--   Smtpd/Database        cmail-smtpd/database.c; Database/Refresh below it
--   Smtpd/Session         the connection's record, the answers and the replies
--   Smtpd/State, State/*  cmail-smtpd/smtpstatemachine.c, client_line and client_close of client.c;
--                         State/Guards for authentication
--   Smtpd/Relay, Relay/*  the invariant of the recipients, line by line (Lines) and while other
--                         clients work (Others); Relay/Foreign for the slots of those
--   Smtpd/Client          cmail-smtpd/client.c: client_process, client_free and the timeouts;
--                         Client/Score for the connection score, Client/Lines for the mail of a dispatcher
--   Smtpd/Server          cmail-smtpd/coreloop.c; below it Server/Sound, the clients that share the paths
--   Popd/Types            cmail-popd/popd.h, poplimits.h, auth.c, and the tables of the SQL statements
--   Popd/Maildrop         cmail-popd/maildrop.c; Maildrop/Read and Maildrop/Locks below it
--   Popd/Functions        cmail-popd/popfunctions.c, and client_close of client.c; Functions/Stuffing
--                         for the mail that pop_retr sends
--   Popd/State            cmail-popd/popstatemachine.c, and client_line of client.c
--   Popd/Marks            the deletion tables against the flags of the mails, and QUIT
--   Popd/Login            the way into the transaction state
--   Popd/Client           cmail-popd/client.c: client_process and client_timeout
--   Smtpd/Accept, Popd/Accept   client_accept of the two servers; Accept/Fresh below the first
--   Dispatchd/Types       cmail-dispatchd/dispatchd.h, smtplimits.h, connection.c
--   Dispatchd/Protocol    cmail-dispatchd/protocol.c; Protocol/Replies and Protocol/Fuel below it
--   Dispatchd/Smtp        cmail-dispatchd/smtp.c; Smtp/Wire for the mail that smtp_data sends
--   Dispatchd/Outbox      cmail-dispatchd/mail.c: mail_failure and mail_delete, on the tables
--   Dispatchd/Transaction mail_dispatch of mail.c and logic_handle_transaction of logic.c; below it what
--                         is deleted (Taken, Keeps, Delivered) and what becomes of all (Outcome)
--   Dispatchd/Bounce      cmail-dispatchd/logic.c: logic_generate_bounces
--   Dispatchd/Remote      cmail-dispatchd/remote.c
--   Dispatchd/Logic       cmail-dispatchd/logic.c: logic_handle_remote and an interval of
--                         logic_loop_hosts; mail.c: mail_dbread and mail_reset; Logic/Rows and
--                         Logic/Every for the mails that the rows of the query name
--   Admin/Statement       how the SQL statements of the tools end
--   Admin/Permissions     cmail-admin/permissions; Permissions/Refine below it
--   Admin/Address         cmail-admin/address; Address/Swap below it
--   Admin/Password        cmail-admin/user: the password as it is typed and stored (Typed, Salt)
--   Admin/User            cmail-admin/user; User/Login with lib/auth.c
--   Admin/Popd            cmail-admin/popd; Popd/Logins with maildrop_lock of cmail-popd
--   Admin/Smtpd           cmail-admin/smtpd
--   Config/File           lib/config.c: config_parse; File/Lines, File/Keeps and File/Fuel below it
--   Config/Daemon, Listen the directives that the daemons share, and the socket of config_bind
--   Config/Smtpd, Popd, Dispatchd   the config.c of the three daemons; Smtpd/Safe, Popd/Safe and
--                         Dispatchd/Ports below them
--   Tests, Tests/*        concrete inputs
--
-- Bounds and fuel. The limits are the source's: paths of 300 bytes, 150 recipients, 500 pooled paths,
-- 30 hops, lines of 1500 bytes for SMTP and 512 for POP3. All loops are structural recursion over the
-- input, the rows, the slots or the rounds to come, but for six: those of pop_retr and smtp_data,
-- with one more than the length of the mail as fuel, as each round but the last consumes three bytes
-- or more; that over the lines of one read and that of protocol_read over the replies in one, with one
-- more than the bytes that were read, as each line takes two of them; that of common_strrepl, with
-- one more than the length of the string, which is enough for a variable that is not empty; and that of
-- config_parse, with one more than the bytes of the file, as each round takes one or more. Sizes,
-- offsets and lengths are natural numbers without a limit, as the receive buffer of 2048 bytes keeps
-- each line short; the sum of pop_stat and the argument of a POP3 command wrap at 2^32 as in the
-- source. mail_route takes the results of route_local_path for the recipients as a parameter, which
-- Inbound/Every ties to that function.
--
-- Not modelled: SHA-256, sqlite, GnuTLS, adns and the sockets, which are not code of the repository;
-- in the dispatcher the failures of memory outside the replies and the remotes, the times of faillog,
-- and the ids that the database gives to bounces; in cmail-popd a failure of realloc in maildrop_read,
-- and an error at the end of its rows, which counts as the end; whether client_send drops a reply while a
-- TLS handshake is under way; the failure of auth_hash in set_password, for which the buffer would have
-- to be too small; the start of the daemons and their options, and the
-- loop of cmail-popd, which is like that of cmail-smtpd; the options of the administration
-- tools and the web interfaces. The list of ports is the configured one up to its first port 0. Freed
-- memory and log output leave no trace in the model. The slots of the 150 recipients are a list, so
-- that the missing terminator of a full array is not seen.
pub mod Base
pub mod Admin
pub mod Common
pub mod Net
pub mod Popd
pub mod Dispatchd
pub mod Config
pub mod Auth
pub mod Sasl
pub mod Smtpd
pub mod Tests
