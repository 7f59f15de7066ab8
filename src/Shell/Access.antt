-- ===== src/Shell/Access.antt =====
-- web/src/App.tsx: who sees the pages of the administration, and where the links lead.
use plugin_pocket.Base.{
  ◌≡◌, ◌≢◌, ◌⊎◌, inl, inr, refl, Bool, true, false, not, ◌&&◌, ◌||◌, some, Text, codes,
  if◌then◌else◌, if_cases, is_some, starts_with, All,
}
use plugin_pocket.Shell.{
  Route, landing, download, plugins, plugin, health, login, register, verify_email, overview,
  tokens, usage, tools, billing, teams, team, team_usage, device, devices, settings, admin_users,
  admin_marketplace, admin_settings, admin_ledger, admin_tools, admin_plans, admin_codes,
  admin_usage, unknown, dashboard, pattern_of, layout_of, is_admin_only, Account, AccountQuery,
  View, page, framed, denied, catalogue_alone, loading, error_notice, nothing, is_admin, shell,
  view, links,
}

-- A page is shown, with or without the frame.
abbrev pub Shows : View → Route → Type 0
Shows v r = (v ≡ page r) ⊎ (v ≡ framed (page r))

hidden_lem : (v : View) (r : Route) (A : Type 0) → v ≢ page r → v ≢ framed (page r) → Shows v r → A
hidden_lem v r A n m (inl e) = absurd (n e)
hidden_lem v r A n m (inr e) = absurd (m e)

framed-Shows : (outlet : View) (r : Route) → Shows (framed outlet) r → outlet ≡ page r
framed-Shows outlet r (inl e) = cc
framed-Shows outlet r (inr e) = cc

module _ (q p : AccountQuery) where
  -- A view of the shell shows a page only as its outlet.
  shell-Shows :
      (public : Bool) (outlet : View) (r : Route)
      → Shows (shell public q outlet) r
      → outlet ≡ page r
  unfolding shell
  shell-Shows public outlet r =
      let P = λ (v : View). Shows v r → outlet ≡ page r in
      if_cases P (public && (not (is_some q.data_of) || q.is_error))
        (λ _. hidden_lem catalogue_alone r (outlet ≡ page r) (λ e. cc) (λ e. cc))
        (λ _.
          if_cases P q.is_pending (λ _. hidden_lem loading r (outlet ≡ page r) (λ e. cc) (λ e. cc))
            (λ _.
              if_cases P q.is_error
                (λ _. hidden_lem error_notice r (outlet ≡ page r) (λ e. cc) (λ e. cc))
                (λ _.
                  if_cases P (is_some q.data_of) (λ _. framed-Shows outlet r)
                    (λ _. hidden_lem nothing r (outlet ≡ page r) (λ e. cc) (λ e. cc)))))

  guarded-admin :
      (r : Route)
      → (if is_admin q.data_of then page r else denied) ≡ page r
      → is_admin q.data_of ≡ true
  guarded-admin r =
      if_cases (λ (v : View). v ≡ page r → is_admin q.data_of ≡ true) (is_admin q.data_of)
        (λ yes _. yes) (λ _ e. cc)

  member-admin :
      (r : Route)
      → Shows (shell false q (if is_admin q.data_of then page r else denied)) r
      → is_admin q.data_of ≡ true
  member-admin r s =
      guarded-admin r (shell-Shows false (if is_admin q.data_of then page r else denied) r s)

  -- Whatever the queries report, a page whose route begins with `/admin` is shown to nobody but an
  -- administrator.
  pub view-admin :
      (r : Route)
      → starts_with (pattern_of r) (codes "/admin") ≡ true
      → Shows (view q p r) r
      → is_admin q.data_of ≡ true
  unfolding pattern_of view layout_of is_admin_only
  view-admin landing h s = cc
  view-admin download h s = cc
  view-admin plugins h s = cc
  view-admin plugin h s = cc
  view-admin health h s = cc
  view-admin login h s = cc
  view-admin register h s = cc
  view-admin verify_email h s = cc
  view-admin overview h s = cc
  view-admin tokens h s = cc
  view-admin usage h s = cc
  view-admin tools h s = cc
  view-admin billing h s = cc
  view-admin teams h s = cc
  view-admin team h s = cc
  view-admin team_usage h s = cc
  view-admin device h s = cc
  view-admin devices h s = cc
  view-admin settings h s = cc
  view-admin admin_users h s = member-admin admin_users s
  view-admin admin_marketplace h s = member-admin admin_marketplace s
  view-admin admin_settings h s = member-admin admin_settings s
  view-admin admin_ledger h s = member-admin admin_ledger s
  view-admin admin_tools h s = member-admin admin_tools s
  view-admin admin_plans h s = member-admin admin_plans s
  view-admin admin_codes h s = member-admin admin_codes s
  view-admin admin_usage h s = member-admin admin_usage s
  view-admin unknown h s = cc
  view-admin dashboard h s = cc

-- A link of an account leads to a route that shows its page in the frame.
abbrev pub Leads : AccountQuery → AccountQuery → Text → Type 0
Leads q p to = (r : Route) × (pattern_of r ≡ to) × (view q p r ≡ framed (page r))

abbrev pub loaded : Account → AccountQuery
loaded a = record { data_of = some a; is_pending = false; is_error = false }

loaded-Leads :
    (b : Bool) (c : Account)
    → All (Leads (loaded (record { is_admin = b })) (loaded c)) (links (record { is_admin = b }))
unfolding pattern_of view layout_of is_admin_only shell links
loaded-Leads true c = (
  (overview, refl, refl),
  (
    (tokens, refl, refl),
    (
      (usage, refl, refl),
      (
        (plugins, refl, refl),
        (
          (billing, refl, refl),
          (
            (teams, refl, refl),
            (
              (device, refl, refl),
              (
                (settings, refl, refl),
                (
                  (admin_users, refl, refl),
                  (
                    (admin_tools, refl, refl),
                    (
                      (admin_marketplace, refl, refl),
                      (
                        (admin_plans, refl, refl),
                        (
                          (admin_codes, refl, refl),
                          (
                            (admin_usage, refl, refl),
                            ((admin_ledger, refl, refl), ((admin_settings, refl, refl), tt)),
                          ),
                        ),
                      ),
                    ),
                  ),
                ),
              ),
            ),
          ),
        ),
      ),
    ),
  ),
)
loaded-Leads false c = (
  (overview, refl, refl),
  (
    (tokens, refl, refl),
    (
      (usage, refl, refl),
      (
        (plugins, refl, refl),
        (
          (billing, refl, refl),
          ((teams, refl, refl), ((device, refl, refl), ((settings, refl, refl), tt))),
        ),
      ),
    ),
  ),
)

-- With both queries loaded every link of the navigation leads to a route that shows its page in the
-- frame.
links-Leads : (a c : Account) → All (Leads (loaded a) (loaded c)) (links a)
links-Leads a c = loaded-Leads a.is_admin c
