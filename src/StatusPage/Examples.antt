-- ===== src/StatusPage/Examples.antt =====
-- Runs of the status pages at concrete values.
use go_uptime.StatusPage.{Limiter, new_limiter, set_limit, window_start_of, hit}
use go_uptime.StatusPage.Counters.{here, then_hit, then_set_limit, IsBounded, IsBounded-Reaches}
use go_uptime.StatusPage.Answers.{answers, first_allowed, answers-first_allowed}
use go_uptime.StatusPage.Selection.{EndpointRef, Page, refs_of, select}
use go_uptime.StatusPage.Selection.Lists.{All}
use go_uptime.StatusPage.Selection.Selected.{Shown, select-Shown}
use go_uptime.Common.Text.{codes, trim_space}
use go_uptime.Common.{
  ◌≤◌, length, contains, bytes_eq, bytes_beq, insert, ◌≡◌, refl, true, false, [], ◌∷◌, lookup,
}

abbrev limiter : Limiter
limiter = record { limit = 2; maximum_keys = 1; entries = [] }

-- The limit of two, three hits within the second minute.
answers-first_allowed_example :
    answers "192.0.2.7/32" (61000000000 ∷ 62000000000 ∷ 119000000000 ∷ []) limiter
    ≡ true ∷ true ∷ false ∷ []
unfolding lookup window_start_of first_allowed
answers-first_allowed_example =
    answers-first_allowed "192.0.2.7/32" 60000000000 1 0
      (61000000000 ∷ 62000000000 ∷ 119000000000 ∷ []) limiter refl refl refl
      (refl, (refl, (refl, tt)))

-- Two clients where one is tracked, and then a lower limit.
IsBounded-Reaches_example :
    IsBounded
      (hit "192.0.2.7/32" 63000000000 (
        set_limit 1
          (hit "192.0.2.8/32" 62000000000
            (hit "192.0.2.7/32" 61000000000 (new_limiter 2 1)).1).1)).1
IsBounded-Reaches_example = IsBounded-Reaches 2 1 (
    then_hit "192.0.2.7/32" 63000000000 (
      then_set_limit 1
        (then_hit "192.0.2.8/32" 62000000000 (then_hit "192.0.2.7/32" 61000000000 here))))

abbrev api : EndpointRef
api = record { key = codes "core_api"; name = codes "api"; group = codes "core" }

abbrev db : EndpointRef
db = record { key = codes "core_db"; name = codes "db"; group = codes "core" }

abbrev lab : EndpointRef
lab = record { key = codes "_lab"; name = codes "lab"; group = [] }

abbrev page : Page
page = record { featured = codes "core_db" ∷ []; groups = codes "core" ∷ []; endpoints = [] }

-- The page features one endpoint and lists one group; the third endpoint is not shown.
shown_refs : refs_of (select page (api ∷ db ∷ lab ∷ []) 5) ≡ db ∷ api ∷ []
unfolding refs_of select lookup insert bytes_beq trim_space
shown_refs = refl

-- The references have a key of the three.
HasKey : EndpointRef → Type 0
HasKey ref = contains (codes "core_api" ∷ codes "core_db" ∷ codes "_lab" ∷ []) ref.key ≡ true

select-Shown_example :
    All (Shown HasKey page) (refs_of (select page (api ∷ db ∷ lab ∷ []) 1))
    × (length (refs_of (select page (api ∷ db ∷ lab ∷ []) 1)) ≤ 1)
unfolding HasKey contains bytes_beq
select-Shown_example = select-Shown HasKey page (api ∷ db ∷ lab ∷ []) 1 (refl, (refl, (refl, tt)))
