-- ===== src/Result/Examples.antt =====
-- internal/config/endpoint/result_push.go: a message that is cut within a character.
use go_uptime.Result.Truncation.{Kept, truncate_result_message-Kept}
use go_uptime.Result.{truncate_result_message, maximum_result_message_length, cut_before}
use go_uptime.Common.{◌≡◌, refl, Bytes, ◌∷◌, [], ◌++◌, replicate, length}

-- 1023 letters, and a character of two bytes across the limit.
abbrev long_message : Bytes
long_message = replicate 1023 97 ++ 195 ∷ 169 ∷ []

long_message_test : length (truncate_result_message long_message) ≡ 1023
unfolding truncate_result_message cut_before
long_message_test = refl

truncate_result_message-Kept_example :
    Kept maximum_result_message_length long_message (truncate_result_message long_message)
truncate_result_message-Kept_example = truncate_result_message-Kept long_message
