-- ===== src/Downloader/Rounds.antt =====
-- The loop of a worker is a sequence of rounds: the run of the workers together refines it.
use adp_pro.Prelude.{
  ℕ, ◌+◌, ◌-◌, ◌≡◌, refl, subst, ◌==◌, nat_eq, Bool, true, false, List, [], ◌∷◌, length, take,
  length-take, arith, sum, if_rule, Bool-cases, inl, inr,
}
use adp_pro.Downloader.State.{Worker}
use adp_pro.Downloader.Worker.{Bytes, Arrival, Transfer, commit, Ending, finishes, retires, consume}
use adp_pro.Downloader.Fetched.{Agrees, IsBody, commit-rest, skip-rest}
use adp_pro.Downloader.Assembly.{
  Assembly, progress_of, write_chunk, IsIn, Step, writes, Reaches, here, next,
}
use adp_pro.Downloader.Together.{progress_of-write_self}

-- The loop variables of the worker stand for its part of the shared state.
pub record IsView (w : Worker) (s : Assembly) (t : Transfer) : Type 0 where
  pub file : t.file ≡ s.file
  pub position : t.position ≡ w.start + progress_of w s
  pub remaining : t.remaining ≡ w.stop - (w.start + progress_of w s)
  pub progress : t.progress ≡ progress_of w s

Reaches-begin :
    {resource : Bytes} {ws : List Worker} {s t u : Assembly}
    → Step resource ws s t
    → Reaches resource ws t u
    → Reaches resource ws s u
Reaches-begin st here = next here st
Reaches-begin st (next r last) = next (Reaches-begin st r) last

write-IsView :
    (w : Worker) (content : List ℕ) (s : Assembly) (t : Transfer)
    → IsView w s t
    → IsView w (write_chunk w content s) (commit (take t.remaining content) t)
unfolding commit
write-IsView w content s t v =
    let e = progress_of-write_self w content s in
    let k : ℕ = w.stop - (w.start + progress_of w s) in
    record {
      file = unfold write_chunk in rw (v.file, v.position, v.remaining) refl;
      position = rw v.remaining (omega (arith, v.position, e));
      remaining = rw v.remaining (omega (arith, e, length-take k content));
      progress = rw v.remaining (omega (arith, v.progress, e));
    }

write-counts :
    (w : Worker) (content : List ℕ) (s : Assembly) (t : Transfer)
    → IsView w s t
    → (write_chunk w content s).downloaded_size + sum t.emitted
      ≡ s.downloaded_size + sum (commit (take t.remaining content) t).emitted
unfolding write_chunk commit
write-counts w content s t v = rw v.remaining (omega arith)

-- Where a shared state and the count of it go when the worker's loop goes to a transfer.
Simulates : Bytes → List Worker → Worker → Assembly → Transfer → Transfer × Ending → Type 0
Simulates resource ws w s t r =
    (u : Assembly) × Reaches resource ws s u
    × IsView w u r.0
    × (u.downloaded_size + sum t.emitted ≡ s.downloaded_size + sum r.0.emitted)

-- The five ways on of one round of the loop.
consume-cases :
    (P : Transfer × Ending → Type 0) (breaks : Bool) (a : Arrival) (rest : List Arrival)
    (t : Transfer)
    → P (t, retires)
    → P (t, finishes)
    → ((length a.content == 0) ≡ true → P (consume breaks rest t))
    → P (commit (take t.remaining a.content) t, finishes)
    → (((commit (take t.remaining a.content) t).remaining == 0) ≡ false
        → P (consume breaks rest (commit (take t.remaining a.content) t)))
    → P (consume breaks (a ∷ rest) t)
unfolding consume
consume-cases P breaks a rest t stale done skip last more =
    let t' : Transfer = commit (take t.remaining a.content) t in
    if_rule P a.stale_before _ _ (λ h. stale)
      λ h. elim (Bool-cases (length a.content == 0)) [
        | inl e ↦ rw e (skip e)
        | inr e ↦ rw e (
            if_rule P (length (take t.remaining a.content) == 0) _ _ (λ k. done)
              λ k.
                if_rule P a.stale_after _ _ (λ l. stale)
                  λ l. if_rule P (t'.remaining == 0) _ _ (λ full. last) more)
      ]

-- What a worker's loop does with a body of bytes of the resource, whatever interrupts it, is a
-- sequence of rounds on the shared state: file, progress and count end as the loop says.
pub consume-refines :
    (resource : Bytes) (ws : List Worker) (w : Worker) (breaks : Bool) (arrivals : List Arrival)
    (s : Assembly) (t : Transfer)
    → IsIn w ws
    → IsView w s t
    → IsBody resource t.position arrivals
    → (u : Assembly) × Reaches resource ws s u
      × IsView w u (consume breaks arrivals t).0
      × (u.downloaded_size + sum t.emitted
          ≡ s.downloaded_size + sum (consume breaks arrivals t).0.emitted)
unfolding Simulates
consume-refines resource ws w breaks [] s t i v b = unfold consume in (s, here, v, refl)
consume-refines resource ws w breaks (a ∷ rest) s t i v b =
    let t' : Transfer = commit (take t.remaining a.content) t in
    let st = writes w a.content s i (subst (λ pos. Agrees resource pos a.content) v.position b.0) in
    let v' = write-IsView w a.content s t v in
    let counts = write-counts w a.content s t v in
    consume-cases (Simulates resource ws w s t) breaks a rest t (s, here, v, refl)
      (s, here, v, refl)
      (λ e.
        consume-refines resource ws w breaks rest s t i v
          (skip-rest resource a.content rest t b.1 e))
      (write_chunk w a.content s, next here st, v', counts)
      λ e.
        let r =
          consume-refines resource ws w breaks rest (write_chunk w a.content s) t' i v'
            (commit-rest resource a.content rest t b.1 e) in
        (r.0, Reaches-begin st r.1, r.2, omega (arith, r.3, counts))
