-- ===== src/Key/Examples.antt =====
-- internal/config/key/key.go: two names with one key.
use go_uptime.Key.{sanitize, convert_group_and_name_to_key}
use go_uptime.Key.Unique.{key-Unique}
use go_uptime.Common.{◌≡◌, ◌↔◌}
use go_uptime.Common.Text.{codes}

key-Unique_example :
    (convert_group_and_name_to_key (codes "a b") (codes "C")
      ≡ convert_group_and_name_to_key (codes "A/b") (codes "c"))
    ↔ ((sanitize (codes "a b") ≡ sanitize (codes "A/b"))
        × (sanitize (codes "C") ≡ sanitize (codes "c")))
key-Unique_example = key-Unique (codes "a b") (codes "C") (codes "A/b") (codes "c")
