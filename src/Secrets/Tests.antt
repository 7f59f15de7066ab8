-- ===== src/Secrets/Tests.antt =====
-- Runs of the forms for secrets, and their theorem at a concrete one.
use plugin_pocket.Base.{◌≡◌, refl, true, none, some, List, [], ◌∷◌, Text, codes}
use plugin_pocket.Settlement.{number}
use plugin_pocket.Secrets.{nothing, locked, create, answered, hide}
use plugin_pocket.Secrets.Tokens.{Page, opened, set_name, create_token, token_answered, hide_token}
use plugin_pocket.Secrets.Shown.{Desk, Event, press, answer, hide_it, events, IsKept, events-IsKept}

runs : Unit {0}
unfolding locked create answered hide set_name create_token token_answered hide_token
runs = tt

abbrev start : Desk Text
start = record { reveal = nothing; received = []; hidden = [] }

abbrev pressed : List (Event Text)
pressed =
    press true ∷ answer (some (codes "a")) ∷ press true ∷ hide_it ∷ press true ∷ answer none ∷ []

events_test : (events pressed start).hidden ≡ codes "a" ∷ []
unfolding runs
events_test = refl

events-IsKept_example : IsKept (events pressed start)
events-IsKept_example = events-IsKept pressed start (record { quiet = λ _. refl; kept = refl })

abbrev page : Page
page = set_name (codes "laptop") (opened (some (codes "7")))

create_test :
    (create_token number (record { id = codes "7"; name = codes "team" } ∷ []) page).1
    ≡ some (codes "laptop", some (number (codes "7")))
unfolding runs
create_test = refl

create_unknown_test : (create_token number [] page).1 ≡ none
unfolding runs
create_unknown_test = refl
