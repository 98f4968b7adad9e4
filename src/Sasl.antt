-- ===== src/Sasl.antt =====
-- lib/sasl.c and sasl.h: the SASL exchange, of which PLAIN is the one method. The context's
-- `method_data` is never set, and its `user` points to the SASL_USER that sasl_begin is given, which
-- the functions take and return here. `response` is the pointer that the caller passes.
pub mod Plain
use cmail.Base.{
  ℕ, suc, ◌+◌, Bool, true, false, ◌||◌, [], ◌∷◌, Option, none, some, leb, ltb, if◌then◌else◌, Bytes,
  codes, c_str, length, drop, has_prefix_ci, ◌++◌,
}
use cmail.Auth.Base64.{Decoded, auth_base64decode}
use cmail.Auth.Credentials.{strdup}

pub data SaslMethod : Type 0 where
  sasl_invalid sasl_plain : SaslMethod

pub data SaslStatus : Type 0 where
  sasl_ok sasl_error_processing sasl_error_data sasl_unknown_method sasl_continue_ sasl_data_ok :
      SaslStatus

pub record SaslUser : Type 0 where
  pub authenticated : Option Bytes
  pub authorized : Option Bytes

-- The context and the user that it points to.
pub record Sasl : Type 0 where
  pub method : SaslMethod
  pub user : SaslUser

-- What a call returns: the status and `*response`.
pub record Reply : Type 0 where
  pub status : SaslStatus
  pub response : Option Bytes

abbrev pub no_user : SaslUser
no_user = record { authenticated = none; authorized = none }

-- sasl_reset_ctx; what is freed is not modelled
unfoldable pub sasl_reset_ctx : Sasl → Sasl
sasl_reset_ctx s = record s { method = sasl_invalid }

unfoldable pub sasl_reset_user : SaslUser → SaslUser
sasl_reset_user u = no_user

unfoldable pub sasl_scan_method : Bytes → SaslMethod
sasl_scan_method name = if has_prefix_ci (codes "plain") name then sasl_plain else sasl_invalid

abbrev answer : Sasl → SaslStatus → Sasl × Reply
answer s status = (s, record { status = status; response = none })

unfoldable pub sasl_challenge : SaslMethod → Sasl → Sasl × Reply
sasl_challenge sasl_plain s = answer s sasl_continue_
sasl_challenge sasl_invalid s = answer s sasl_error_processing

-- The offsets of the user and of the password in a decoded message of `length` bytes, its
-- terminator included; `none` is a read out of bounds. `text` is the buffer from its start on.
pub record Offsets : Type 0 where
  pub off_user : ℕ
  pub off_pass : ℕ

abbrev strlen_at : Bytes → ℕ → ℕ
strlen_at text off = length (c_str (drop off text))

unfoldable pub find_offsets : ℕ → Bytes → Option Offsets
find_offsets len text =
    let off_user = length (c_str text) + 1 in
    let off_pass = off_user + strlen_at text off_user + 1 in
    if leb len off_user
      || ltb (strlen_at text off_user) 1
      || leb len (off_user + strlen_at text off_user)
    then none
    else if leb len off_pass || leb len (off_pass + strlen_at text off_pass)
    then none
    else some (record { off_user = off_user; off_pass = off_pass })

accept_user : Option Bytes → Bytes → Sasl → Sasl × Reply
accept_user none pass s =
    answer (record s { user = record s.user { authenticated = none } }) sasl_error_processing
accept_user (some name) pass s = (
  record s { user = record s.user { authenticated = some name } },
  record { status = sasl_data_ok; response = some pass },
)

accept_offsets : Bool → Bytes → Option Offsets → Sasl → Sasl × Reply
unfolding accept_user
accept_offsets alloc text none s = answer s sasl_error_data
accept_offsets alloc text (some o) s =
    accept_user (strdup alloc (c_str (drop o.off_user text))) (c_str (drop o.off_pass text)) s

-- `length = auth_base64decode(data) + 1; if(length < 4)`
accept_decoded : Bool → Option Decoded → Sasl → Sasl × Reply
unfolding accept_offsets find_offsets
accept_decoded alloc none s = answer s sasl_error_data
accept_decoded alloc (some d) s =
    let text = d.bytes ++ 0 ∷ [] in
    if ltb (d.len + 1) 4
    then answer s sasl_error_data
    else accept_offsets alloc text (find_offsets (d.len + 1) text) s

-- `alloc` is the answer of calloc in common_strdup.
unfoldable pub sasl_continue : Bool → SaslMethod → Bytes → Sasl → Sasl × Reply
unfolding accept_decoded
sasl_continue alloc sasl_plain input s = accept_decoded alloc (auth_base64decode input) s
sasl_continue alloc sasl_invalid input s = answer s sasl_error_processing

begin_with : Bool → SaslMethod → Option Bytes → Sasl → Sasl × Reply
begin_with alloc sasl_invalid input s = answer s sasl_unknown_method
begin_with alloc sasl_plain none s = sasl_challenge sasl_plain s
begin_with alloc sasl_plain (some input) s = sasl_continue alloc sasl_plain input s

unfoldable pub sasl_begin : Bool → Bytes → Option Bytes → Sasl → Sasl × Reply
unfolding begin_with sasl_continue sasl_challenge sasl_reset_ctx sasl_reset_user
sasl_begin alloc name input s =
    let t = record (sasl_reset_ctx s) { user = sasl_reset_user s.user } in
    begin_with alloc (sasl_scan_method name) input (record t { method = sasl_scan_method name })

unfoldable pub sasl_cancel : Sasl → Sasl
unfolding sasl_reset_ctx
sasl_cancel s = sasl_reset_ctx s
