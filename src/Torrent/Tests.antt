-- ===== src/Torrent/Tests.antt =====
-- Concrete priorities.
use adp_pro.Prelude.{◌≡◌, refl, [], ◌∷◌}
use adp_pro.Torrent.Engine.{all_normal, set_all, set_at}

three_files : set_all ((2, 7) ∷ (0, 0) ∷ []) (all_normal 3) ≡ 0 ∷ 4 ∷ 7 ∷ []
unfolding set_all set_at all_normal
three_files = refl
