-- ===== src/Shell/Tests.antt =====
-- Runs of the shell of the console, and its theorems at concrete queries.
use plugin_pocket.Base.{List, ◌⊎◌, All, ◌≡◌, refl, true, false, none, [], ◌∷◌, ◌++◌, codes, inr}
use plugin_pocket.Shell.{
  Failure, clear_cache, go_to_login, plugins, admin_codes, pattern_of, layout_of, is_admin_only,
  Account, AccountQuery, framed, catalogue_alone, denied, is_admin, shell, view, links, in_group,
  group_links, api_error, no_error, Location, expired, check_all, report_all, session_events,
}
use plugin_pocket.Shell.Access.{view-admin, loaded}
use plugin_pocket.Shell.Ending.{Ends, IsEnding, session_events_lem}

runs : Unit {0}
unfolding pattern_of layout_of is_admin_only shell view links in_group group_links expired check_all
    report_all session_events
runs = tt

abbrev admin : Account
admin = record { is_admin = true }

abbrev member_of : Account
member_of = record { is_admin = false }

abbrev nobody : AccountQuery
nobody = record { data_of = none; is_pending = false; is_error = false }

view_public_test : view nobody nobody plugins ≡ catalogue_alone
unfolding runs
view_public_test = refl

view_denied_test : view (loaded member_of) nobody admin_codes ≡ framed denied
unfolding runs
view_denied_test = refl

view-admin_example : is_admin (loaded admin).data_of ≡ true
unfolding runs
view-admin_example = view-admin (loaded admin) nobody admin_codes refl (inr refl)

abbrev tokens_page : Location
tokens_page = record { pathname = codes "/tokens"; search = codes "?team_id=1" }

session_events_lem_example :
    (All (λ f. Ends f → ⊥) ((no_error ∷ []) ++ api_error 401 (codes "invalid_token") ∷ [])
      × (session_events tokens_page (no_error ∷ []) (api_error 401 (codes "invalid_token") ∷ [])
          ≡ []))
    ⊎ (((f : Failure) × (before : List Failure) × (after : List Failure) × Ends f
          × ((no_error ∷ []) ++ api_error 401 (codes "invalid_token") ∷ [] ≡ before ++ f ∷ after))
        × IsEnding tokens_page (
            session_events tokens_page
              (no_error ∷ [])
              (api_error 401 (codes "invalid_token") ∷ [])))
session_events_lem_example =
    session_events_lem tokens_page (no_error ∷ []) (api_error 401 (codes "invalid_token") ∷ [])

ending_test :
    session_events tokens_page (no_error ∷ []) (api_error 401 (codes "invalid_token") ∷ [])
    ≡ clear_cache ∷ go_to_login (codes "/tokens?team_id=1") ∷ []
unfolding runs
ending_test = refl
