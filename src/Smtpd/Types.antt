-- ===== src/Smtpd/Types.antt =====
-- cmail-smtpd/smtpd.h and smtplimits.h: the limits and the structures of the SMTP server.
-- A `char*` that may be NULL is an `Option Bytes`. A path buffer is the whole array of
-- `smtp_max_path_length` bytes, so that a write has a place or is out of bounds.
use cmail.Base.{ℕ, Bool, false, List, Option, none, Bytes, ℤ, negsuc, replicate}

abbrev pub smtp_max_path_length : ℕ
smtp_max_path_length = 300

abbrev pub smtp_max_recipients : ℕ
smtp_max_recipients = 150

abbrev pub cmail_max_pooled_paths : ℕ
cmail_max_pooled_paths = 500

abbrev pub cmail_max_hops : ℕ
cmail_max_hops = 30

-- -10
abbrev pub cmail_failscore_limit : ℤ
cmail_failscore_limit = negsuc 9

pub data AuthOffer : Type 0 where
  auth_none auth_any auth_tlsonly : AuthOffer

pub record MailRoute : Type 0 where
  pub router : Option Bytes
  pub argument : Option Bytes

pub record MailPath : Type 0 where
  pub in_transaction : Bool
  pub delimiter_position : ℕ
  pub path : Bytes
  pub route : MailRoute

abbrev pub no_route : MailRoute
no_route = record { router = none; argument = none }

-- The value that path_reset stores; `.path = ""` clears the whole array.
unfoldable pub reset_path : MailPath
reset_path = record {
  in_transaction = false;
  delimiter_position = 0;
  path = replicate smtp_max_path_length 0;
  route = no_route;
}

-- MAIL, less the array tail: `forward_paths` is a NULL-terminated array of pointers into the path
-- pool, filled from the front, and is the list of the pool's slots here. `data` is `none` for a
-- NULL pointer; its bytes are those up to `data_offset`, and `data_allocated` is the block's size.
pub record Mail : Type 0 where
  pub reverse_path : MailPath
  pub forward_paths : List ℕ
  pub data_allocated : ℕ
  pub data_offset : ℕ
  pub data_text : Option Bytes
  pub submitter : Bytes
  pub protocol : Bytes
  pub message_id : Bytes
  pub data_max : ℕ
  pub hop_count : ℕ
  pub header_offset : ℕ
