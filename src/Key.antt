-- ===== src/Key.antt =====
-- internal/config/key/key.go: the key of an endpoint, of an external endpoint or of a suite.
pub mod Unique
mod Examples
use go_uptime.Common.{Bytes, [], ◌∷◌, ◌++◌}
use go_uptime.Common.Text.{codes, trim_space, to_lower, replace_all}

unfoldable pub sanitize : Bytes → Bytes
unfolding trim_space to_lower replace_all
sanitize text =
    let s = trim_space (to_lower text) in
    let s = replace_all s (codes "/") (codes "-") in
    let s = replace_all s (codes "_") (codes "-") in
    let s = replace_all s (codes ".") (codes "-") in
    let s = replace_all s (codes ",") (codes "-") in
    let s = replace_all s (codes " ") (codes "-") in
    let s = replace_all s (codes "#") (codes "-") in
    let s = replace_all s (codes "+") (codes "-") in replace_all s (codes "&") (codes "-")

unfoldable pub convert_group_and_name_to_key : Bytes → Bytes → Bytes
convert_group_and_name_to_key group_name name = sanitize group_name ++ (codes "_" ++ sanitize name)
