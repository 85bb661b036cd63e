-- ===== src/Panel/Reserve.antt =====
-- Two managers that are not finished do not write to one file: the property of a dictionary.
use adp_pro.Prelude.{
  ◌≡◌, refl, sym, subst, ◌∙◌, ◌⊎◌, inl, inr, String, ◌==◌, string_eq, Bool, false, not, ◌&&◌, ◌||◌,
  Bool-cases, Option, none, some, [], ◌∷◌, arith,
}
use adp_pro.Prelude.Dict.{Dict, get, put, remove, get-put, get-remove}
use adp_pro.Core.Models.{is_terminal}
use adp_pro.Downloader.State.{Manager}
use adp_pro.Downloader.Frame.{IsTame}
use adp_pro.Panel.State.{Outside, find_path_conflict}

module _ (o : Outside) where
  -- Both are unfinished, and their paths name one file.
  unfoldable pub blocks : Manager → Manager → Bool
  blocks a b =
      not (is_terminal a.status)
      && not (is_terminal b.status)
      && o.normalise a.save_path == o.normalise b.save_path

  unfoldable pub blocks_any : Manager → Dict String Manager → Bool
  blocks_any m [] = false
  blocks_any m ((id, n) ∷ d) = blocks m n || blocks_any m d

  -- Each manager is kept under its own id, once, and none blocks a later one.
  abbrev pub IsReserved : Dict String Manager → Type 0
  IsReserved [] = Unit
  IsReserved ((id, m) ∷ d) =
      (m.download_id ≡ id) × (get d id ≡ none) × (blocks_any m d ≡ false) × IsReserved d

  blocks-weaken : (m n a : Manager) → IsTame m n → blocks a m ≡ false → blocks a n ≡ false
  unfolding blocks
  blocks-weaken m n a t h = ground (arith, t.same, t.lasting)

  blocks_left-weaken : (m n a : Manager) → IsTame m n → blocks m a ≡ false → blocks n a ≡ false
  unfolding blocks
  blocks_left-weaken m n a t h = ground (arith, t.same, t.lasting)

  blocks_any-weaken :
      (m n : Manager) (d : Dict String Manager)
      → IsTame m n
      → blocks_any m d ≡ false
      → blocks_any n d ≡ false
  unfolding blocks_any
  blocks_any-weaken m n [] t h = refl
  blocks_any-weaken m n ((id, a) ∷ d) t h =
      ground (arith, blocks_left-weaken m n a t, blocks_any-weaken m n d t)

  blocks_any-put :
      (a m n : Manager) (id : String) (d : Dict String Manager)
      → get d id ≡ some m
      → IsTame m n
      → blocks_any a d ≡ false
      → blocks_any a (put d id n) ≡ false
  unfolding blocks_any get put
  blocks_any-put a m n id [] e t h = cc
  blocks_any-put a m n id ((j, w) ∷ d) e t h =
      ground (arith, blocks-weaken m n a t, blocks_any-put a m n id d)

  put_absent :
      (j id : String) (n : Manager) (d : Dict String Manager)
      → (j == id) ≡ false
      → get d j ≡ none
      → get (put d id n) j ≡ none
  put_absent j id n d miss e =
      ground (arith, get-put d id j n, string_eq.is_same_iff id j, string_eq.is_same_iff j id)

  replace_head :
      (w m n : Manager) (j : String) (d : Dict String Manager)
      → some w ≡ some m
      → IsTame m n
      → IsReserved ((j, w) ∷ d)
      → IsReserved ((j, n) ∷ d)
  replace_head w m n j d e t h =
      (ground (arith, t.same), h.1, ground (arith, blocks_any-weaken m n d t), h.3)

  -- Replacing a manager by what it has become.
  pub put_tame-IsReserved :
      (m n : Manager) (id : String) (d : Dict String Manager)
      → get d id ≡ some m
      → IsTame m n
      → IsReserved d
      → IsReserved (put d id n)
  unfolding get put
  put_tame-IsReserved m n id [] e t h = cc
  put_tame-IsReserved m n id ((j, w) ∷ d) e t h = elim (Bool-cases (j == id)) [
    | inl hit ↦ rw hit (replace_head w m n j d (rw hit at e) t h)
    | inr miss ↦
        let e' = rw miss at e in
        rw miss (
          h.0,
          put_absent j id n d miss h.1,
          blocks_any-put w m n id d e' t h.2,
          put_tame-IsReserved m n id d e' t h.3,
        )
  ]

  -- Neither of the two blocks the other, for every manager but the one under `id`.
  abbrev IsClear : String → Manager → Dict String Manager → Type 0
  IsClear id n [] = Unit
  IsClear id n ((j, w) ∷ d) =
      ((j ≡ id) ⊎ ((blocks w n ≡ false) × (blocks n w ≡ false))) × IsClear id n d

  IsClear-absent :
      (id : String) (n : Manager) (d : Dict String Manager)
      → get d id ≡ none
      → IsClear id n d
      → blocks_any n d ≡ false
  unfolding get blocks_any
  IsClear-absent id n [] e c = refl
  IsClear-absent id n ((j, w) ∷ d) e c =
      ground (arith, string_eq.is_same_iff j id, IsClear-absent id n d)

  blocks_any-put_clear :
      (a n : Manager) (id : String) (d : Dict String Manager)
      → blocks a n ≡ false
      → blocks_any a d ≡ false
      → blocks_any a (put d id n) ≡ false
  unfolding blocks_any put
  blocks_any-put_clear a n id [] b h = ground arith
  blocks_any-put_clear a n id ((j, w) ∷ d) b h = ground (arith, blocks_any-put_clear a n id d)

  -- Storing a manager that is clear of the others.
  pub put_clear-IsReserved :
      (n : Manager) (id : String) (d : Dict String Manager)
      → n.download_id ≡ id
      → IsClear id n d
      → IsReserved d
      → IsReserved (put d id n)
  unfolding put
  put_clear-IsReserved n id [] e c h = (e, unfold get in refl, unfold blocks_any in refl, tt)
  put_clear-IsReserved n id ((j, w) ∷ d) e c h = elim (Bool-cases (j == id)) [
    | inl hit ↦
        let same = (string_eq.is_same_iff j id).0 hit in
        rw hit
          (e ∙ sym same, h.1, IsClear-absent id n d (subst (λ k. get d k ≡ none) same h.1) c.1, h.3)
    | inr miss ↦ rw miss (
      h.0,
      put_absent j id n d miss h.1,
      blocks_any-put_clear w n id d (ground (arith, string_eq.is_same_iff j id)) h.2,
      put_clear-IsReserved n id d e c.1 h.3,
    )
  ]

  blocks_any-remove :
      (a : Manager) (id : String) (d : Dict String Manager)
      → blocks_any a d ≡ false
      → blocks_any a (remove d id) ≡ false
  unfolding blocks_any remove
  blocks_any-remove a id [] h = refl
  blocks_any-remove a id ((j, w) ∷ d) h = ground (arith, blocks_any-remove a id d)

  pub remove-IsReserved :
      (id : String) (d : Dict String Manager) → IsReserved d → IsReserved (remove d id)
  unfolding remove
  remove-IsReserved id [] h = tt
  remove-IsReserved id ((j, w) ∷ d) h = elim (Bool-cases (j == id)) [
    | inl hit ↦ rw hit (remove-IsReserved id d h.3)
    | inr miss ↦ rw miss (
      h.0,
      ground (arith, get-remove d id j),
      blocks_any-remove w id d h.2,
      remove-IsReserved id d h.3,
    )
  ]

  -- The search of the source finds nothing only if the path is clear.
  pub conflict_free-IsClear :
      (n : Manager) (path id : String) (exclude : Option String) (d : Dict String Manager)
      → n.save_path ≡ path
      → (exclude ≡ none) ⊎ (exclude ≡ some id)
      → find_path_conflict o path exclude d ≡ none
      → IsReserved d
      → IsClear id n d
  unfolding find_path_conflict blocks
  conflict_free-IsClear n path id exclude [] s x f h = tt
  conflict_free-IsClear n path id exclude ((j, w) ∷ d) s x f h = (
    ground (
      arith,
      string_eq.is_same_iff (o.normalise w.save_path) (o.normalise n.save_path),
      string_eq.is_same_iff (o.normalise n.save_path) (o.normalise w.save_path),
      string_eq.is_same_iff w.download_id id,
    ),
    conflict_free-IsClear n path id exclude d s x (ground arith) h.3,
  )

  -- A manager is found under its own id.
  pub get-IsReserved :
      (id : String) (m : Manager) (d : Dict String Manager)
      → get d id ≡ some m
      → IsReserved d
      → m.download_id ≡ id
  unfolding get
  get-IsReserved id m [] e h = cc
  get-IsReserved id m ((j, w) ∷ d) e h =
      ground (arith, string_eq.is_same_iff j id, get-IsReserved id m d)
