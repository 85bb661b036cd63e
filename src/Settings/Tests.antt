-- ===== src/Settings/Tests.antt =====
-- Concrete settings.
use adp_pro.Prelude.{◌≡◌, refl, string_eq, true, false, some, [], ◌∷◌}
use adp_pro.Settings.Store.{boolean, text, object, Members, member, no_members, lookup, load, holds}
use adp_pro.Settings.Merged.{loaded_at, load-effective, AreDeep}

abbrev defaults : Members
defaults = member "theme" (text "dark") (
    member "jackett"
      (object (member "enabled" (boolean false) (member "indexer" (text "all") no_members)))
      no_members)

abbrev stored : Members
stored = member "jackett" (object (member "enabled" (boolean true) no_members)) no_members

-- The indexer of the defaults stays beside the stored `enabled`.
load-effective_example :
    loaded_at ("jackett" ∷ "indexer" ∷ []) (load defaults (holds (object stored)))
    ≡ some (text "all")
load-effective_example =
    load-effective ("jackett" ∷ "indexer" ∷ []) stored defaults (text "all")
      (unfold AreDeep lookup in (refl, (refl, tt, tt), tt)) refl (unfold lookup in refl)
