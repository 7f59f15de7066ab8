-- ===== src/Market/Syncing.antt =====
-- web/src/features/operations/MarketplacePanel.tsx: which skills a synchronisation asks for, and
-- what it reports.
use plugin_pocket.Base.{
  ℕ, ◌+◌, ◌≡◌, refl, ap, ◌∙◌, Bool, true, false, not, ◌&&◌, ◌||◌, Option, none, some, List, [], ◌∷◌,
  ◌++◌, arith, Text, eq_text, eq_text_iff, if◌then◌else◌, if_cases, is_some, any, keys, length,
  length-append, insert, mem_text, mem_text-keys-insert, AreDistinct, insert-AreDistinct,
}
use plugin_pocket.Market.{MarketplaceItem}
use plugin_pocket.Market.Panel.{
  Skill, recommendations, has_slug, recommended_of, is_github_skill, skill_of, add_skills,
  skills_to_sync, SyncResult, sync_skills, mcp_result, sync,
}

abbrev pub slugs : List Skill → List Text
slugs [] = []
slugs (entry ∷ rest) = entry.slug ∷ slugs rest

abbrev pub has_github_skill : Text → List MarketplaceItem → Bool
has_github_skill slug items = any (λ item. is_github_skill item && eq_text item.slug slug) items

mem_text-recommended_of :
    (slug : Text) (items : List MarketplaceItem) (entries : List Skill)
    → mem_text slug (keys (recommended_of items entries))
      ≡ (mem_text slug (slugs entries) && not (has_slug slug items))
mem_text-recommended_of slug items [] = refl
mem_text-recommended_of slug items (entry ∷ rest) = ground (
  arith,
  mem_text-recommended_of slug items rest,
  eq_text_iff entry.slug slug,
  λ (e : entry.slug ≡ slug). ap (λ (t : Text). has_slug t items) e,
)

recommended_of-AreDistinct :
    (items : List MarketplaceItem) (entries : List Skill)
    → AreDistinct (slugs entries)
    → AreDistinct (keys (recommended_of items entries))
recommended_of-AreDistinct items [] h = tt
recommended_of-AreDistinct items (entry ∷ rest) (one, more) =
    if_cases (λ (m : List (Text × Skill)). AreDistinct (keys m)) (has_slug entry.slug items)
      (λ _. recommended_of-AreDistinct items rest more)
      (λ _. (
        mem_text-recommended_of entry.slug items rest ∙ rw one refl,
        recommended_of-AreDistinct items rest more,
      ))

mem_text-add_skills :
    (slug : Text) (items : List MarketplaceItem) (skills : List (Text × Skill))
    → mem_text slug (keys (add_skills items skills))
      ≡ (has_github_skill slug items || mem_text slug (keys skills))
unfolding add_skills
mem_text-add_skills slug [] skills = refl
mem_text-add_skills slug (item ∷ rest) skills =
    mem_text-add_skills slug rest _ ∙ one_more (is_github_skill item)
  where
    one_more :
        (b : Bool)
        → (has_github_skill slug rest
            || mem_text slug (keys (if b then insert item.slug (skill_of item) skills else skills)))
          ≡ (((b && eq_text item.slug slug) || has_github_skill slug rest)
              || mem_text slug (keys skills))
    one_more true = ground (arith, mem_text-keys-insert slug item.slug (skill_of item) skills)
    one_more false = refl

add_skills-AreDistinct :
    (items : List MarketplaceItem) (skills : List (Text × Skill))
    → AreDistinct (keys skills)
    → AreDistinct (keys (add_skills items skills))
unfolding add_skills
add_skills-AreDistinct [] skills h = h
add_skills-AreDistinct (item ∷ rest) skills h = add_skills-AreDistinct rest _ (
    if_cases (λ (m : List (Text × Skill)). AreDistinct (keys m)) (is_github_skill item)
      (λ _. insert-AreDistinct item.slug (skill_of item) skills h) (λ _. h))

-- A synchronisation asks for no slug twice, and it asks for a slug exactly if a skill of the list
-- that came from GitHub has it, or a recommendation has it and no item of the list at all.
pub skills_to_sync-AreDistinct :
    (items : List MarketplaceItem)
    → AreDistinct (keys (skills_to_sync items))
      × ((slug : Text)
          → mem_text slug (keys (skills_to_sync items)) ≡ (
              has_github_skill slug items
              || (mem_text slug (slugs recommendations) && not (has_slug slug items))))
unfolding skills_to_sync
skills_to_sync-AreDistinct items = (
  add_skills-AreDistinct items (recommended_of items recommendations)
      (recommended_of-AreDistinct items recommendations (refl, (refl, (refl, tt)))),
  λ slug.
      mem_text-add_skills slug items (recommended_of items recommendations)
      ∙ ap (has_github_skill slug items ||◌) (mem_text-recommended_of slug items recommendations),
)

abbrev pub total : SyncResult → ℕ
total result = result.skills + length result.failed

total-answered :
    (b : Bool) (name : Text) (result : SyncResult)
    → total (
        if b
        then record result { skills = result.skills + 1 }
        else record result { failed = result.failed ++ name ∷ [] })
      ≡ total result + 1
total-answered true name result = omega arith
total-answered false name result = omega (arith, length-append result.failed (name ∷ []))

total-sync_skills :
    (answer : Skill → Bool) (skills : List (Text × Skill)) (result : SyncResult)
    → total (sync_skills answer skills result) ≡ total result + length skills
unfolding sync_skills
total-sync_skills answer [] result = omega arith
total-sync_skills answer ((slug, entry) ∷ rest) result =
    let now = total-answered (answer entry) entry.name result in
    let later = total-sync_skills answer rest (
      if answer entry
      then record result { skills = result.skills + 1 }
      else record result { failed = result.failed ++ entry.name ∷ [] }) in
    omega (arith, now, later)

-- Every request of a synchronisation is reported once: the skills that came through and the failures
-- make up the skills that were asked for, and one failure more if the request of the servers failed.
pub total-sync :
    (servers : Option ℕ) (answer : Skill → Bool) (items : List MarketplaceItem)
    → total (sync servers answer items)
      ≡ length (skills_to_sync items) + (if is_some servers then 0 else 1)
unfolding sync
total-sync none answer items =
    omega (arith, total-sync_skills answer (skills_to_sync items) (mcp_result none))
total-sync (some n) answer items =
    omega (arith, total-sync_skills answer (skills_to_sync items) (mcp_result (some n)))
