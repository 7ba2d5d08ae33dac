-- ===== src/Common.antt =====
-- common/contract.go: what the frontend and the backend side share. Messages and their kinds,
-- the errors of a dial, and the results of the administrative calls. `Header` models the HTTP
-- headers of the standard library.
pub mod Header
use wsbalancer.Prelude.{
  ℕ, ◌<◌, ◌≤◌, ◌≡◌, ◌↔◌, ◌⊎◌, Bool, true, false, ◌||◌, List, Text, arith, ltb, ◌==◌, if◌then◌else◌,
  codes, decimal, length, [], ◌∷◌, ◌++◌, refl,
}

-- Results of `BackendAdministrator`: ResultSuccess = 1, ResultNoActionReqd = 3, ResultFailed = 4.
pub data Result : Type 0 where
  success no_action_reqd failed : Result

abbrev pub result_code : Result → ℕ
result_code success = 1
result_code no_action_reqd = 3
result_code failed = 4

-- The message types of the websocket protocol that the balancer sends on.
abbrev pub text_message : ℕ
text_message = 1

abbrev pub binary_message : ℕ
binary_message = 2

-- The balancer's own control types, which never appear on the wire.
abbrev pub remote_connection_normal_closure : ℕ
remote_connection_normal_closure = 32

abbrev pub remote_connection_abnormal_closure : ℕ
remote_connection_abnormal_closure = 64

-- `MessageType` is an int; the websocket library gives 1 to 10 and the balancer 32 and 64.
pub record WsMessage : Type 0 where
  pub message_type : ℕ
  pub payload : List ℕ

unfoldable pub is_control : WsMessage → Bool
is_control m =
    if (m.message_type == text_message) || (m.message_type == binary_message) then false else true

-- `RemoteSystemError`, which the two kinds of dial errors embed.
pub record RemoteSystemError : Type 0 where
  pub id : Text
  pub code : ℕ
  pub err : Text

pub data DialError : Type 0 where
  system_unavailable : RemoteSystemError → DialError
  connection_declined : RemoteSystemError → DialError

abbrev pub new_system_unavailable_error : Text → Text → DialError
new_system_unavailable_error id err = system_unavailable (record { id = id; code = 0; err = err })

abbrev pub new_system_unavailable_error_with_code : Text → Text → ℕ → DialError
new_system_unavailable_error_with_code id err code =
    system_unavailable (record { id = id; code = code; err = err })

abbrev pub new_connection_declined_error : Text → Text → ℕ → DialError
new_connection_declined_error id err code =
    connection_declined (record { id = id; code = code; err = err })

abbrev pub remote : DialError → RemoteSystemError
remote (system_unavailable e) = e
remote (connection_declined e) = e

-- `Error` of a `RemoteSystemError`.
unfoldable pub error_message : RemoteSystemError → Text
error_message e =
    if ltb 0 e.code
    then e.id ++ codes " reported status code " ++ decimal e.code ++ codes " with " ++ e.err
    else e.id ++ codes " reported " ++ e.err

-- `String` of a message: a binary one shows its size only.
unfoldable pub message_text : WsMessage → Text
message_text m =
    let shown : Text =
      if m.message_type == binary_message
      then decimal (length m.payload) ++ codes " bytes"
      else m.payload in
    codes "[type: " ++ decimal m.message_type ++ codes ", data: " ++ shown ++ codes "]"

binary_hidden :
    message_text (record { message_type = 2; payload = 7 ∷ 8 ∷ [] })
    ≡ codes "[type: 2, data: 2 bytes]"
unfolding message_text decimal
binary_hidden = refl
