-- ===== src/Tasks/Result.antt =====
-- The JSON result envelopes of vyuh/src/tasks/result.rs.
pub mod Failure
use Prim.Native.String.{len, slice, ◌++◌}
use text.Mathlib.Text.{is_char_boundary}
use vyuh.Prelude.{
  ℕ, zero, suc, ◌+◌, ◌-◌, ◌/◌, String, Bool, Option, none, some, ltb, leb, if◌then◌else◌, unwrap_or,
  Result, Done, ok, err, and_then, result_too_large, json_error,
}
use vyuh.Tasks.Externals.{Externals}

abbrev pub result_limit : ℕ
result_limit = 32768

abbrev pub unit_result : String
unit_result = "{\"Ok\":null}"

unfoldable pub check_size : ℕ → Result Done
check_size actual =
    if ltb result_limit actual then err (result_too_large actual result_limit) else ok tt

unfoldable pub validate_size : String → Result Done
unfolding check_size
validate_size value = check_size (len value)

abbrev require_json : Bool → Result Done
require_json good = if good then ok tt else err json_error

-- `{"Ok":output}`
unfoldable pub success : String → String
success output = "{\"Ok\":" ++ output ++ "}"

-- The largest character boundary at or below a position.
floor_boundary : String → ℕ → ℕ
floor_boundary s zero = zero
floor_boundary s (suc n) =
    let below = floor_boundary s n in if is_char_boundary s (suc n) then suc n else below

module _ (x : Externals) where
  unfoldable pub validate_output : String → Result Done
  unfolding check_size
  validate_output output =
      and_then (check_size (len output + 7)) λ _. require_json (x.is_json output)

  unfoldable pub validate_resume : String → Result Done
  unfolding validate_size
  validate_resume value = and_then (validate_size value) λ _. require_json (x.is_envelope value)

  -- The envelope of one pass of `failure`.
  pub failure_text : ℕ → String → String
  failure_text id message =
      "{\"Err\":{\"task_id\":\""
      ++ x.uuid_text id
      ++ "\",\"message\":"
      ++ x.json_text message
      ++ "}}"

  -- One shortening: the message is cut to a character boundary, by the excess over six.
  shorten : String → String → String
  unfolding floor_boundary
  shorten message result =
      let excess = len result - result_limit in
      slice message 0 (floor_boundary message (len message - (excess + 5) / 6))

  -- The loop of `failure`; `none` means that the passes ran out.
  pub failure_loop : ℕ → ℕ → String → Option String
  unfolding failure_text shorten
  failure_loop zero id message = none
  failure_loop (suc passes) id message =
      let result = failure_text id message in
      let rest = failure_loop passes id (shorten message result) in
      if leb (len result) result_limit then some result else rest

  -- A message of n bytes needs at most n + 1 passes.
  pub failure : ℕ → String → String
  unfolding failure_loop
  failure id message = unwrap_or (failure_loop (suc (len message)) id message) ""
