-- ===== src/Tests/Auth.antt =====
-- The theorems about authentication at concrete inputs.
use cmail.Base.{
  true, [], ◌∷◌, ◌++◌, some, ◌≡◌, refl, arith, Bytes, codes, length, replicate, str_eq,
}
use cmail.Auth.Base64.{auth_base64encode, auth_base64decode}
use cmail.Auth.Base64.RoundTrip.{pads, auth_base64decode-encode}
use cmail.Auth.Credentials.{auth_validate, granted}
use cmail.Auth.Credentials.Exact.{Matches, auth_validate_sound}
use cmail.Sasl.{sasl_continue, sasl_plain, sasl_data_ok}
use cmail.Sasl.Plain.{sasl_continue_plain}
use cmail.Tests.Data.{hash, auth_query, no_sasl}

abbrev ab : Bytes
ab = codes "ab"

ab_encoded : auth_base64encode true ab ≡ some (codes "YWI=")
unfolding auth_base64encode
ab_encoded = refl

auth_base64decode-encode_example :
    auth_base64decode (codes "YWI=")
    ≡ some (record { len = length ab; bytes = ab ++ replicate (pads ab) 0 })
auth_base64decode-encode_example =
    auth_base64decode-encode ab (codes "YWI=") (λ e. cc) (ground arith) ab_encoded

bob_granted :
    auth_validate hash auth_query (some (codes "bob")) (some (codes "pw"))
    ≡ granted (some (codes "bob"))
unfolding auth_validate str_eq
bob_granted = refl

auth_validate_sound_example : Matches hash auth_query (codes "pw")
auth_validate_sound_example =
    auth_validate_sound hash auth_query (codes "bob") (codes "pw") bob_granted

message_encoded :
    auth_base64encode true (0 ∷ (codes "u" ++ 0 ∷ codes "p")) ≡ some (codes "AHUAcA==")
unfolding auth_base64encode
message_encoded = refl

sasl_continue_plain_example : sasl_continue true sasl_plain (codes "AHUAcA==") no_sasl ≡ (
  record no_sasl { user = record no_sasl.user { authenticated = some (codes "u") } },
  record { status = sasl_data_ok; response = some (codes "p") },
)
sasl_continue_plain_example =
    sasl_continue_plain [] (codes "u") (codes "p") (codes "AHUAcA==") no_sasl tt (ground arith)
      (ground arith) (omega arith) message_encoded
