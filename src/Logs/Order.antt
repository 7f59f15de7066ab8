-- ===== src/Logs/Order.antt =====
-- desktop/ui/src/LogsPage.tsx: which entries are shown, and in which order.
use plugin_pocket.Base.{
  ℕ, ◌≡◌, ◌≤◌, refl, ◌∙◌, true, false, ◌==◌, List, [], ◌∷◌, arith, keep, ltb, if_cases, All,
}
use plugin_pocket.Logs.{
  Entry, Web, Query, Page, all_entries, insert_entry, newest_first, fits, visible,
}

-- Each entry is at least as new as those behind it.
abbrev pub AreNewestFirst : List Entry → Type 0
AreNewestFirst [] = Unit {0}
AreNewestFirst (e ∷ es) = All (λ x. x.timestamp ≤ e.timestamp) es × AreNewestFirst es

abbrev pub at_time : ℕ → List Entry → List Entry
at_time k es = keep (λ e. e.timestamp == k) es

All-insert_entry :
    (bound : ℕ) (e : Entry) (es : List Entry)
    → e.timestamp ≤ bound
    → All (λ x. x.timestamp ≤ bound) es
    → All (λ x. x.timestamp ≤ bound) (insert_entry e es)
unfolding insert_entry
All-insert_entry bound e [] h hs = (h, tt)
All-insert_entry bound e (x ∷ xs) h (hx, hs) =
    if_cases (All (λ x. x.timestamp ≤ bound)) (ltb e.timestamp x.timestamp)
      (λ _. (hx, All-insert_entry bound e xs h hs)) (λ _. (h, (hx, hs)))

All-weaken :
    (a b : ℕ) (es : List Entry)
    → a ≤ b
    → All (λ x. x.timestamp ≤ a) es
    → All (λ x. x.timestamp ≤ b) es
All-weaken a b [] h hs = tt
All-weaken a b (e ∷ es) h (he, hs) = (ground (arith, h, he), All-weaken a b es h hs)

insert_entry-AreNewestFirst :
    (e : Entry) (es : List Entry) → AreNewestFirst es → AreNewestFirst (insert_entry e es)
unfolding insert_entry
insert_entry-AreNewestFirst e [] h = (tt, tt)
insert_entry-AreNewestFirst e (x ∷ xs) (bounded, h) =
    if_cases AreNewestFirst (ltb e.timestamp x.timestamp)
      (λ (older : ltb e.timestamp x.timestamp ≡ true). (
        All-insert_entry x.timestamp e xs (ground (arith, older)) bounded,
        insert_entry-AreNewestFirst e xs h,
      ))
      (λ (newer : ltb e.timestamp x.timestamp ≡ false).
        let le : x.timestamp ≤ e.timestamp = ground (arith, newer) in
        ((le, All-weaken x.timestamp e.timestamp xs le bounded), (bounded, h)))

at_time-insert_entry :
    (k : ℕ) (e : Entry) (es : List Entry) → at_time k (insert_entry e es) ≡ at_time k (e ∷ es)
unfolding insert_entry
at_time-insert_entry k e [] = refl
at_time-insert_entry k e (x ∷ xs) = let rest = at_time-insert_entry k e xs in ground (arith, rest)

newest_first-AreNewestFirst : (es : List Entry) → AreNewestFirst (newest_first es)
unfolding newest_first
newest_first-AreNewestFirst [] = tt
newest_first-AreNewestFirst (e ∷ es) =
    insert_entry-AreNewestFirst e (newest_first es) (newest_first-AreNewestFirst es)

at_time-newest_first : (k : ℕ) (es : List Entry) → at_time k (newest_first es) ≡ at_time k es
unfolding newest_first
at_time-newest_first k [] = refl
at_time-newest_first k (e ∷ es) =
    let rest = at_time-newest_first k es in
    at_time-insert_entry k e (newest_first es) ∙ ground (arith, rest)

-- The entries on show are the newest first, and of each time they are exactly the entries of the log
-- that fit the filter, in the order in which the log has them.
pub visible_lem :
    (web : Web) (q : Query) (p : Page)
    → AreNewestFirst (visible web q p)
      × ((k : ℕ) → at_time k (visible web q p) ≡ at_time k (keep (fits web p) (all_entries q)))
unfolding visible
visible_lem web q p = (
  newest_first-AreNewestFirst (keep (fits web p) (all_entries q)),
  λ k. at_time-newest_first k (keep (fits web p) (all_entries q)),
)
