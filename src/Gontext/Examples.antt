-- ===== src/Gontext/Examples.antt =====
-- internal/config/gontext/gontext.go: a value under two keys.
use go_uptime.JsonPath.{text, end}
use go_uptime.Gontext.{Gontext, get, set}
use go_uptime.Gontext.Paths.{IsApart, parts_of, get-set}
use go_uptime.Common.{◌≡◌, some, Bytes}
use go_uptime.Common.Text.{codes}

abbrev empty : Gontext
empty = record { values = end }

get-set_example :
    (get (codes "user.id") (set (codes "user.id") (text (codes "7")) empty)
      ≡ some (text (codes "7")))
    × ((path' : Bytes)
        → IsApart (parts_of (codes "user.id")) (parts_of path')
        → get path' (set (codes "user.id") (text (codes "7")) empty) ≡ get path' empty)
get-set_example = get-set (codes "user.id") (text (codes "7")) empty
