-- ===== src/Shell/Ending.antt =====
-- web/src/App.tsx: what the errors of a run of the session's effect lead to.
use mathlib.Core.List.{append-nil}
use mathlib.Core.Bool.{true≢false}
use plugin_pocket.Base.{
  ℕ, ◌≡◌, ◌≢◌, ◌⊎◌, refl, sym, ap, ◌∙◌, Bool, true, false, ◌||◌, ◌==◌, ==_iff, List, [], ◌∷◌, ◌++◌,
  arith, if◌then◌else◌, Bool-cases, inl, inr, any, All, Text, codes, eq_text, eq_text_iff,
  starts_with, starts_with_split, drop, and_split, or_false, or_cases,
}
use plugin_pocket.Shell.{
  Failure, api_error, other_error, no_error, Location, Action, clear_cache, go_to_login, is_expiry,
  is_public_page, ending, expired, check_all, report_all, session_events,
}

module _ (l : Location) where
  report_all-handled : (fs : List Failure) → (report_all l fs true).1 ≡ []
  unfolding report_all expired
  report_all-handled [] = refl
  report_all-handled (f ∷ fs) = report_all-handled fs

  report_all_lem :
      (fs : List Failure) → (report_all l fs false).1 ≡ (if any is_expiry fs then ending l else [])
  unfolding report_all expired
  report_all_lem [] = refl
  report_all_lem (f ∷ fs) = elim (Bool-cases (is_expiry f)) [
    | inl e ↦ rw (e, report_all-handled fs) (append-nil (ending l))
    | inr e ↦ rw e (report_all_lem fs)
  ]

  check_all_lem :
      (fs : List Failure)
      → check_all l fs false ≡ (if any is_expiry fs then (true, ending l) else (false, []))
  unfolding check_all expired
  check_all_lem [] = refl
  check_all_lem (f ∷ fs) = elim (Bool-cases (is_expiry f)) [
    | inl e ↦ rw e refl
    | inr e ↦ rw e (check_all_lem fs)
  ]

  any-append :
      (fs gs : List Failure) → any is_expiry (fs ++ gs) ≡ (any is_expiry fs || any is_expiry gs)
  any-append [] gs = refl
  any-append (f ∷ fs) gs = ground (arith, any-append fs gs)

  session_actions :
      (there later : List Failure)
      → session_events l there later ≡ (if any is_expiry (there ++ later) then ending l else [])
  unfolding session_events
  session_actions there later = elim (Bool-cases (any is_expiry there)) [
    | inl e ↦
        rw (check_all_lem there, any-append there later, e, report_all-handled later)
          (append-nil (ending l))
    | inr e ↦ rw (check_all_lem there, any-append there later, e) (report_all_lem later)
  ]

-- An error says that the session has ended.
abbrev pub Ends : Failure → Type 0
Ends f = (code : Text) × (f ≡ api_error 401 code) × (code ≢ codes "invalid_credentials")

-- A page that shows itself without an account.
abbrev pub IsPublic : Location → Type 0
IsPublic l =
    (l.pathname ≡ codes "/")
    ⊎ (l.pathname ≡ codes "/login")
    ⊎ (l.pathname ≡ codes "/register")
    ⊎ (l.pathname ≡ codes "/health")
    ⊎ (l.pathname ≡ codes "/verify-email")
    ⊎ (l.pathname ≡ codes "/plugins")
    ⊎ ((rest : Text) × (l.pathname ≡ codes "/plugins/" ++ rest))

is_expiry-Ends : (f : Failure) → is_expiry f ≡ true → Ends f
is_expiry-Ends (api_error status code) h =
    let (unauthorized, other) = and_split (status == 401) _ h in
    (
      code,
      ap (λ (n : ℕ). api_error n code) ((==_iff status 401).0 unauthorized),
      λ e. ground (arith, other, (eq_text_iff code (codes "invalid_credentials")).1 e),
    )
is_expiry-Ends other_error h = cc
is_expiry-Ends no_error h = cc

Ends-is_expiry : (f : Failure) → Ends f → is_expiry f ≡ true
Ends-is_expiry f (code, e, other) = elim (Bool-cases (eq_text code (codes "invalid_credentials"))) [
  | inl same ↦ absurd (other ((eq_text_iff code (codes "invalid_credentials")).0 same))
  | inr differs ↦ rw (e, differs) refl
]

any-Ends :
    (fs : List Failure)
    → any is_expiry fs ≡ true
    → (f : Failure) × (before : List Failure) × (after : List Failure) × Ends f
      × (fs ≡ before ++ f ∷ after)
any-Ends [] h = cc
any-Ends (f ∷ fs) h = elim (Bool-cases (is_expiry f)) [
  | inl e ↦ (f, [], fs, is_expiry-Ends f e, refl)
  | inr e ↦
      let (g, before, after, ends, same) = any-Ends fs (rw e at h) in
      (g, f ∷ before, after, ends, ap (λ (xs : List Failure). f ∷ xs) same)
]

none-Ends : (fs : List Failure) → any is_expiry fs ≡ false → All (λ f. Ends f → ⊥) fs
none-Ends [] h = tt
none-Ends (f ∷ fs) h =
    let (here, more) = or_false (is_expiry f) (any is_expiry fs) h in
    ((λ ends. true≢false (sym (Ends-is_expiry f ends) ∙ here)), none-Ends fs more)

equal-or :
    (s t : Text) {A : Type 0} (b : Bool) → (eq_text s t || b) ≡ true → (b ≡ true → A) → (t ≡ s) ⊎ A
equal-or s t b h more = elim (or_cases (eq_text s t) b h) [
  | inl e ↦ inl (sym ((eq_text_iff s t).0 e))
  | inr e ↦ inr (more e)
]

below_plugins :
    (p : Text)
    → starts_with p (codes "/plugins/") ≡ true
    → (rest : Text) × (p ≡ codes "/plugins/" ++ rest)
below_plugins p e = (drop 9 p, starts_with_split p (codes "/plugins/") e)

is_public_page-IsPublic : (l : Location) → is_public_page l ≡ true → IsPublic l
is_public_page-IsPublic l h = elim (or_cases _ _ h) [
  | inr below ↦ inr (inr (inr (inr (inr (inr (below_plugins l.pathname below))))))
  | inl named ↦ equal-or (codes "/") l.pathname _ named (λ h.
      equal-or (codes "/login") l.pathname _ h (λ h.
        equal-or (codes "/register") l.pathname _ h (λ h.
          equal-or (codes "/health") l.pathname _ h (λ h.
            equal-or (codes "/verify-email") l.pathname _ h (λ h.
              equal-or (codes "/plugins") l.pathname _ h (λ h. absurd (true≢false (sym h))))))))
]

IsPublic-is_public_page : (l : Location) → IsPublic l → is_public_page l ≡ true
IsPublic-is_public_page l (inl e) = rw e refl
IsPublic-is_public_page l (inr (inl e)) = rw e refl
IsPublic-is_public_page l (inr (inr (inl e))) = rw e refl
IsPublic-is_public_page l (inr (inr (inr (inl e)))) = rw e refl
IsPublic-is_public_page l (inr (inr (inr (inr (inl e))))) = rw e refl
IsPublic-is_public_page l (inr (inr (inr (inr (inr (inl e)))))) = rw e refl
IsPublic-is_public_page l (inr (inr (inr (inr (inr (inr (rest, e))))))) = rw e refl

-- The end of a session: the caches are cleared, and the login is gone to unless the page is public.
abbrev pub IsEnding : Location → List Action → Type 0
IsEnding l done =
    (IsPublic l × (done ≡ clear_cache ∷ []))
    ⊎ ((IsPublic l → ⊥) × (done ≡ clear_cache ∷ go_to_login (l.pathname ++ l.search) ∷ []))

ending-IsEnding : (l : Location) → IsEnding l (ending l)
ending-IsEnding l = elim (Bool-cases (is_public_page l)) [
  | inl public ↦ inl (is_public_page-IsPublic l public, rw public refl)
  | inr private ↦
      inr ((λ shown. true≢false (sym (IsPublic-is_public_page l shown) ∙ private)), rw private refl)
]

-- In one run of the effect, at one location: either none of the errors that are there or come says
-- that the session has ended, by a status of 401 other than wrong credentials, and nothing is done;
-- or one of them does, and then the caches are cleared once and the login is gone to once, with the
-- place to come back to, unless the page is public.
pub session_events_lem :
    (l : Location) (there later : List Failure)
    → (All (λ f. Ends f → ⊥) (there ++ later) × (session_events l there later ≡ []))
      ⊎ (((f : Failure) × (before : List Failure) × (after : List Failure) × Ends f
            × (there ++ later ≡ before ++ f ∷ after))
          × IsEnding l (session_events l there later))
session_events_lem l there later = elim (Bool-cases (any is_expiry (there ++ later))) [
  | inl e ↦
      inr (any-Ends (there ++ later) e, rw (session_actions l there later, e) (ending-IsEnding l))
  | inr e ↦ inl (none-Ends (there ++ later) e, rw (session_actions l there later, e) refl)
]
