-- ===== src/Conditions/Placeholder.antt =====
-- internal/config/endpoint/placeholder.go: what a placeholder of a condition stands for. The code
-- never returns an error; `none` is the panic of the JSON path.
use go_uptime.Conditions.{
  Check, Library, status_placeholder, ip_placeholder, dns_rcode_placeholder,
  response_time_placeholder, body_placeholder, connected_placeholder,
  certificate_expiration_placeholder, domain_expiration_placeholder, context_placeholder,
  length_function_prefix, has_function_prefix, function_suffix, invalid_condition_element_suffix,
}
use go_uptime.Common.{
  ℕ, zero, suc, ◌/◌, ◌==◌, Bool, true, false, not, ◌&&◌, ◌||◌, Option, none, some, [], ◌++◌, Bytes,
  bytes_beq, if◌then◌else◌, length, drop, ltb,
}
use go_uptime.Common.Int.{ℤ, pos, negsuc}
use go_uptime.Common.Text.{
  format_bool, codes, has_prefix, has_suffix, trim_prefix, trim_suffix, trim_space, to_upper, itoa,
}
use go_uptime.Clock.{Duration, millisecond}
use go_uptime.Gontext.{Gontext, get}
use go_uptime.JsonPath.{
  Value, text, array, object, Fields, end, field, length_items, Evaluated, evaluated, failed,
  crashed, eval,
}

pub data FunctionType : Type 0 where
  no_function function_len function_has : FunctionType

abbrev pub format_length : ℕ → Bytes
format_length n = itoa (pos n)

-- `Duration.Milliseconds`, which rounds towards zero.
abbrev pub milliseconds : Duration → ℤ
milliseconds (pos d) = pos (d / millisecond)
milliseconds (negsuc d) = let m = suc d / millisecond in elim m [ zero ↦ pos 0 | suc n ↦ negsuc n ]

abbrev is_empty : Bytes → Bool
is_empty s = length s == 0

-- `formatWithFunction`
unfoldable pub format_with_function : Bytes → FunctionType → Bytes
format_with_function value function_has = format_bool (not (is_empty value))
format_with_function value function_len = format_length (length value)
format_with_function value no_function = value

abbrev strip_function : Bytes → Bytes → Bytes
strip_function prefix placeholder = trim_suffix (trim_prefix placeholder prefix) function_suffix

abbrev is_call : Bytes → Bytes → Bool
is_call prefix placeholder = has_prefix placeholder prefix && has_suffix placeholder function_suffix

-- `extractFunctionWrapper`
unfoldable pub extract_function_wrapper : Bytes → FunctionType × Bytes
extract_function_wrapper placeholder =
    if is_call length_function_prefix placeholder
    then (function_len, strip_function length_function_prefix placeholder)
    else if is_call has_function_prefix placeholder
    then (function_has, strip_function has_function_prefix placeholder)
    else (no_function, placeholder)

abbrev pub invalid : Bytes → Bytes
invalid original = original ++ (codes " " ++ invalid_condition_element_suffix)

-- What the functions make of a path that was evaluated.
unfoldable pub resolve_evaluated : FunctionType → Bytes → Evaluated → Option Bytes
resolve_evaluated fn original crashed = none
resolve_evaluated function_has original (evaluated value length) = some (format_bool true)
resolve_evaluated function_has original failed = some (format_bool false)
resolve_evaluated function_len original (evaluated value length) = some (format_length length)
resolve_evaluated no_function original (evaluated value length) = some value
resolve_evaluated fn original failed = some (invalid original)

-- `resolveJSONPathPlaceholder`, for a placeholder that begins with the one of the body in any case.
unfoldable pub resolve_json_path_placeholder :
    Library → Bytes → FunctionType → Bytes → Check → Option Bytes
resolve_json_path_placeholder lib placeholder fn original r =
    let path = trim_prefix (drop (length body_placeholder) placeholder) (codes ".") in
    resolve_evaluated fn original (eval lib.json path r.body)

unfoldable pub length_fields : Fields → ℕ
length_fields end = 0
length_fields (field key value fs) = suc (length_fields fs)

-- The length of a value of the context.
unfoldable pub length_value : Library → Value → ℕ
unfolding length_fields
length_value lib (text s) = length s
length_value lib (array vs) = length_items vs
length_value lib (object fs) = length_fields fs
length_value lib v = length (lib.json.print v)

unfoldable pub resolve_found : Library → FunctionType → Bytes → Option Value → Bytes
unfolding length_value
resolve_found lib function_has original none = format_bool false
resolve_found lib function_has original (some v) = format_bool true
resolve_found lib fn original none = invalid original
resolve_found lib function_len original (some v) = format_length (length_value lib v)
resolve_found lib no_function original (some v) = lib.json.print v

abbrev resolve_empty : FunctionType → Bytes → Bytes
resolve_empty function_has original = format_bool false
resolve_empty fn original = invalid original

-- `resolveContextPlaceholder`
unfoldable pub resolve_context_placeholder :
    Library → Bytes → FunctionType → Bytes → Gontext → Bytes
unfolding resolve_found
resolve_context_placeholder lib placeholder fn original context =
    let path = trim_prefix (trim_prefix placeholder context_placeholder) (codes ".") in
    if is_empty path
    then resolve_empty fn original
    else resolve_found lib fn original (get path context)

abbrev pub length_of : Bytes → Evaluated → Option Bytes
length_of body (evaluated value length) = some (format_length length)
length_of body failed = some (format_length (length body))
length_of body crashed = none

-- The body as a whole.
unfoldable pub resolve_body : Library → FunctionType → Check → Option Bytes
resolve_body lib function_has r = some (format_bool (ltb 0 (length (trim_space r.body))))
resolve_body lib function_len r = length_of (trim_space r.body) (eval lib.json [] r.body)
resolve_body lib no_function r = some (trim_space r.body)

-- What is no placeholder stands for itself.
abbrev resolve_other : FunctionType → Bytes → Bytes
resolve_other no_function original = original
resolve_other function_has original = format_bool false
resolve_other function_len original = invalid original

-- The cases of the switch that format a field of the result.
unfoldable pub field_of : Check → Bytes → Option Bytes
field_of r upper =
    if bytes_beq upper status_placeholder
    then some (itoa r.http_status)
    else if bytes_beq upper ip_placeholder
    then some r.ip
    else if bytes_beq upper response_time_placeholder
    then some (itoa (milliseconds r.duration))
    else if bytes_beq upper dns_rcode_placeholder
    then some r.dns_rcode
    else if bytes_beq upper connected_placeholder
    then some (format_bool r.connected)
    else if bytes_beq upper certificate_expiration_placeholder
    then some (itoa (milliseconds r.certificate_expiration))
    else if bytes_beq upper domain_expiration_placeholder
    then some (itoa (milliseconds r.domain_expiration))
    else none

-- The body, a path into it, or no placeholder at all.
unfoldable pub resolve_body_path :
    Library → Check → FunctionType → Bytes → Bytes → Bytes → Option Bytes
unfolding resolve_body resolve_json_path_placeholder
resolve_body_path lib r fn original placeholder upper =
    if bytes_beq upper body_placeholder
    then resolve_body lib fn r
    else if has_prefix upper (body_placeholder ++ codes ".")
        || has_prefix upper (body_placeholder ++ codes "[")
    then resolve_json_path_placeholder lib placeholder fn original r
    else some (resolve_other fn original)

abbrev pub format_field :
    Library → Check → FunctionType → Bytes → Bytes → Bytes → Option Bytes → Option Bytes
format_field lib r fn original placeholder upper (some value) = some (format_with_function value fn)
format_field lib r fn original placeholder upper none =
    resolve_body_path lib r fn original placeholder upper

-- The switch over the placeholders, and what follows it.
unfoldable pub resolve_basic : Library → Check → FunctionType → Bytes → Bytes → Bytes → Option Bytes
unfolding format_with_function field_of resolve_body_path
resolve_basic lib r fn original placeholder upper =
    format_field lib r fn original placeholder upper (field_of r upper)

abbrev pub resolve_in :
    Library → Check → Option Gontext → FunctionType → Bytes → Bytes → Option Bytes
resolve_in lib r none fn original placeholder =
    resolve_basic lib r fn original placeholder (to_upper placeholder)
resolve_in lib r (some context) fn original placeholder =
    if has_prefix (to_upper placeholder) context_placeholder
    then some (resolve_context_placeholder lib placeholder fn original context)
    else resolve_basic lib r fn original placeholder (to_upper placeholder)

-- `ResolvePlaceholder`
unfoldable pub resolve_placeholder : Library → Check → Option Gontext → Bytes → Option Bytes
unfolding extract_function_wrapper resolve_basic resolve_context_placeholder
resolve_placeholder lib r context placeholder =
    let original = trim_space placeholder in
    let (fn, inner) = extract_function_wrapper original in
    resolve_in lib r context fn original inner
