-- ===== src/In/Admin/Replies.antt =====
-- The answers of in/admin.go, on the `http.ResponseWriter` of the standard library.
use wsbalancer.Prelude.{
  ℕ, Bool, true, false, [], ◌∷◌, ◌++◌, Option, none, some, Text, codes, same, if◌then◌else◌,
}
use wsbalancer.Common.{Result, success, no_action_reqd, failed}
use wsbalancer.In.Admin.{AdminRequest}

-- What was written so far: `status` is nothing until it is sent, and later changes of the headers are
-- without effect.
pub record Writer : Type 0 where
  pub content_type : Text
  pub no_sniff : Bool
  pub status : Option ℕ
  pub body : Text

abbrev pub new_writer : Writer
new_writer = record { content_type = []; no_sniff = false; status = none; body = [] }

-- `w.Header().Set("Content-Type", …)`
unfoldable pub set_content_type : Text → Writer → Writer
set_content_type t w = elim w.status [ none ↦ record w { content_type = t } | some s ↦ w ]

unfoldable pub write_header : ℕ → Writer → Writer
write_header s w = elim w.status [ none ↦ record w { status = some s } | some s' ↦ w ]

-- `fmt.Fprint(w, text)`, which sends status 200 where none was sent.
unfoldable pub print : Text → Writer → Writer
unfolding write_header
print text w = let w = write_header 200 w in record w { body = w.body ++ text }

set_no_sniff : Writer → Writer
set_no_sniff w = elim w.status [ none ↦ record w { no_sniff = true } | some s ↦ w ]

-- `http.Error`, which ends the text with a line feed.
unfoldable pub error : Text → ℕ → Writer → Writer
unfolding set_content_type write_header print set_no_sniff
error text code w =
    let w = set_content_type (codes "text/plain; charset=utf-8") w in
    let w = set_no_sniff w in let w = write_header code w in print (text ++ 10 ∷ []) w

abbrev pub json : Text
json = codes "application/json"

unfoldable pub is_http_post : Writer → AdminRequest → Bool × Writer
unfolding set_content_type write_header print
is_http_post w r =
    if same r.method (codes "POST")
    then (true, w)
    else let w = set_content_type json w in
      let w = write_header 400 w in
      (false, print (codes "{\"result\":\"failed\", \"reason\":\"OnlyPostAllowed\"}") w)

unfoldable pub send_not_implemented_response : Writer → Writer
unfolding set_content_type write_header print
send_not_implemented_response w =
    let w = set_content_type json w in
    let w = write_header 501 w in
    print (codes "{\"result\":\"failed\", \"reason\":\"NotImplemented\"}") w

-- The text that answers a result.
abbrev pub result_text : Result → Text
result_text success = codes "{\"result\":\"success\"}"
result_text no_action_reqd = codes "{\"result\":\"success\", \"reason\":\"NoActionRequired\"}"
result_text failed = codes "{\"result\":\"failed\"}"

-- The text that answers an error, in front of that of the result.
abbrev pub error_text : Option Text → Text
error_text none = []
error_text (some err) = codes "{\"result\":\"failed\", \"reason\":\"" ++ err ++ codes "\"}"

print_error : Option Text → Writer → Writer
unfolding print
print_error none w = w
print_error (some err) w = print (error_text (some err)) w

-- What `processBkActionRequest` writes behind the call.
unfoldable pub send_result : Result → Option Text → Writer → Writer
unfolding print print_error
send_result resp err w = print (result_text resp) (print_error err w)
