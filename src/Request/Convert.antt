-- ===== src/Request/Convert.antt =====
-- `internal/state/conversions.go`: the texts and pointers of a row, the context of a webhook
-- payload, and a row read as a request or as a state.
use qiniu_ci_runner.Prelude.{
  ℕ, String, List, [], Option, none, some, is_empty, if◌then◌else◌, trim_space, replace_char,
  replace_dots,
}
use qiniu_ci_runner.Request.Types.{Time, is_zero}
use qiniu_ci_runner.Request.Record.{Json}

unfoldable pub sanitize_id : String → String
sanitize_id id = replace_dots "-" (replace_char b'\\' "-" (replace_char b'/' "-" (trim_space id)))

unfoldable pub sanitize_runner_name : String → String
sanitize_runner_name name = replace_char b'\\' "-" (replace_char b'/' "-" (trim_space name))

abbrev pub zero_time_to_pointer : Time → Option Time
zero_time_to_pointer t = if is_zero t then none else some t

abbrev pub pointer_to_time : Option Time → Time
pointer_to_time none = 0
pointer_to_time (some t) = t

abbrev pub pointer_to_int64 : Option ℕ → ℕ
pointer_to_int64 none = 0
pointer_to_int64 (some n) = n

unfoldable pub labels_from_json : Json → String → Option (List String)
labels_from_json json encoded =
    if is_empty (trim_space encoded) then some [] else json.unmarshal encoded

-- The labels as requested may be missing from a row; an undecodable text is an error.
unfoldable pub requested_labels_of : Json → String → Option (List String)
requested_labels_of json encoded = if is_empty encoded then some [] else json.unmarshal encoded
