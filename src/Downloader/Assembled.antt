-- ===== src/Downloader/Assembled.antt =====
-- All the workers of a run: their ranges together are the resource.
use adp_pro.Prelude.{
  ℕ, ◌+◌, ◌-◌, ◌≤◌, ◌<◌, ◌≡◌, refl, inl, inr, nat_eq, List, [], ◌∷◌, All, length, take, arith,
}
use adp_pro.Prelude.Dict.{get}
use adp_pro.Downloader.State.{Manager, Worker}
use adp_pro.Downloader.Spawn.{start_chunks}
use adp_pro.Downloader.Worker.{Bytes}
use adp_pro.Downloader.Fetched.{Agrees}
use adp_pro.Downloader.Tiling.{Tiles, start_chunks-covers}
use adp_pro.Downloader.Assembly.{
  Assembly, progress_of, write_chunk, IsIn, first, later, Step, writes, Reaches, here, next,
  untouched,
}
use adp_pro.Downloader.Together.{
  IsSound, progress_of-write_self, leb-cases, AreApart, progress_of_apart, write-IsSound,
  write_apart-IsSound,
}

-- The bytes done in all of the ranges.
abbrev total_progress : List Worker → Assembly → ℕ
total_progress [] s = 0
total_progress (w ∷ ws) s = progress_of w s + total_progress ws s

-- What a single round does to the workers of a tiling after it, none of which made it.
after-IsSound :
    (resource : Bytes) (w : Worker) (content : List ℕ) (s : Assembly) (ws : List Worker) (a b : ℕ)
    → Tiles ws a b
    → w.stop ≤ a
    → IsSound resource s w
    → All (IsSound resource s) ws
    → All (IsSound resource (write_chunk w content s)) ws
      × (total_progress ws (write_chunk w content s) ≡ total_progress ws s)
after-IsSound resource w content s [] a b t l g h = (tt, refl)
after-IsSound resource w content s (v ∷ ws) a b t l g h =
    let apart : AreApart v w = inr (omega (arith, t.0)) in
    let rest = after-IsSound resource w content s ws v.stop b t.2 (omega (arith, t.0, t.1)) g h.1 in
    (
      (write_apart-IsSound resource v w content s apart g h.0, rest.0),
      omega (arith, rest.1, progress_of_apart v w content s apart g.proper h.0.proper),
    )

IsIn-bounds : (w : Worker) (ws : List Worker) (a b : ℕ) → IsIn w ws → Tiles ws a b → a ≤ w.start
IsIn-bounds w [] a b i t = elim i [ ]
IsIn-bounds w (v ∷ ws) a b first t = omega (arith, t.0)
IsIn-bounds w (v ∷ ws) a b (later i) t = omega (arith, t.0, t.1, IsIn-bounds w ws v.stop b i t.2)

IsSound-IsIn :
    (resource : Bytes) (s : Assembly) (w : Worker) (ws : List Worker)
    → IsIn w ws
    → All (IsSound resource s) ws
    → IsSound resource s w
IsSound-IsIn resource s w [] i h = elim i [ ]
IsSound-IsIn resource s w (v ∷ ws) first h = h.0
IsSound-IsIn resource s w (v ∷ ws) (later i) h = IsSound-IsIn resource s w ws i h.1

-- And to all the workers of a tiling, one of which made it.
write_crew-IsSound :
    (resource : Bytes) (w : Worker) (content : List ℕ) (s : Assembly) (ws : List Worker) (a b : ℕ)
    → IsIn w ws
    → Tiles ws a b
    → Agrees resource (w.start + progress_of w s) content
    → All (IsSound resource s) ws
    → All (IsSound resource (write_chunk w content s)) ws
      × (total_progress ws (write_chunk w content s)
          ≡ total_progress ws s + length (take (w.stop - (w.start + progress_of w s)) content))
write_crew-IsSound resource w content s [] a b i t g h = elim i [ ]
write_crew-IsSound resource w content s (v ∷ ws) a b first t g h =
    let rest = after-IsSound resource w content s ws w.stop b t.2 (omega arith) h.0 h.1 in
    (
      (write-IsSound resource w content s g h.0, rest.0),
      omega (arith, rest.1, progress_of-write_self w content s),
    )
write_crew-IsSound resource w content s (v ∷ ws) a b (later i) t g h =
    let mine : IsSound resource s w = IsSound-IsIn resource s w ws i h.1 in
    let apart : AreApart v w = inl (IsIn-bounds w ws v.stop b i t.2) in
    let rest = write_crew-IsSound resource w content s ws v.stop b i t.2 g h.1 in
    (
      (write_apart-IsSound resource v w content s apart mine h.0, rest.0),
      omega (arith, rest.1, progress_of_apart v w content s apart mine.proper h.0.proper),
    )

-- The invariant of a run: every range is right so far, and the count is the sum of them.
pub record IsFaithful (resource : Bytes) (ws : List Worker) (s : Assembly) : Type 0 where
  pub sound : All (IsSound resource s) ws
  pub counted : s.downloaded_size ≡ total_progress ws s

Step-IsFaithful :
    (resource : Bytes) (ws : List Worker) (a b : ℕ) {s t : Assembly}
    → Tiles ws a b
    → Step resource ws s t
    → IsFaithful resource ws s
    → IsFaithful resource ws t
unfolding write_chunk
Step-IsFaithful resource ws a b tiles (writes w content s i g) h =
    let after = write_crew-IsSound resource w content s ws a b i tiles g h.sound in
    record { sound = after.0; counted = omega (arith, h.counted, after.1) }

Reaches-IsFaithful :
    (resource : Bytes) (ws : List Worker) (a b : ℕ) {s t : Assembly}
    → Tiles ws a b
    → IsFaithful resource ws s
    → Reaches resource ws s t
    → IsFaithful resource ws t
Reaches-IsFaithful resource ws a b tiles h here = h
Reaches-IsFaithful resource ws a b tiles h (next r st) =
    Step-IsFaithful resource ws a b tiles st (Reaches-IsFaithful resource ws a b tiles h r)

untouched-IsSound :
    (resource file : Bytes) (ws : List Worker) (a b : ℕ)
    → Tiles ws a b
    → All (IsSound resource (untouched file)) ws × (total_progress ws (untouched file) ≡ 0)
unfolding progress_of get
untouched-IsSound resource file [] a b t = (tt, refl)
untouched-IsSound resource file (w ∷ ws) a b t =
    let rest = untouched-IsSound resource file ws w.stop b t.2 in
    (
      (
        record {
          proper = t.1;
          bounded = omega (arith, t.1);
          right = λ x l u. absurd (omega arith);
        },
        rest.0,
      ),
      omega (arith, rest.1),
    )

total-le :
    (resource : Bytes) (s : Assembly) (ws : List Worker) (a b : ℕ)
    → Tiles ws a b
    → All (IsSound resource s) ws
    → a + total_progress ws s ≤ b
total-le resource s [] a b t h = omega (arith, t)
total-le resource s (w ∷ ws) a b t h =
    omega (arith, t.0, h.0.bounded, total-le resource s ws w.stop b t.2 h.1)

-- Where all bytes of a tiling are done, each of them is right.
crew_done :
    (resource : Bytes) (s : Assembly) (x : ℕ) (ws : List Worker) (a b : ℕ)
    → Tiles ws a b
    → All (IsSound resource s) ws
    → a + total_progress ws s ≡ b
    → a ≤ x
    → x < b
    → s.file x ≡ resource x
crew_done resource s x [] a b t h e l u = absurd (omega (arith, t))
crew_done resource s x (w ∷ ws) a b t h e l u =
    let rest = total-le resource s ws w.stop b t.2 h.1 in
    elim (leb-cases w.stop x) [
      | inl after ↦
          crew_done resource s x ws w.stop b t.2 h.1 (omega (arith, e, t.0, h.0.bounded, rest))
            after u
      | inr mine ↦ h.0.right x (omega (arith, t.0)) (omega (arith, e, t.0, h.0.bounded, rest, mine))
    ]

-- The workers that a manager without progress starts, sent bytes of the resource in any order of
-- their chunks, have together written the whole resource once as many bytes are counted as it has:
-- then every byte of the file is the resource's.
pub assembled :
    (resource file : Bytes) (m : Manager) (s : Assembly) (x : ℕ)
    → m.workers ≡ []
    → m.chunk_progress ≡ []
    → 0 < m.num_threads
    → Reaches resource (start_chunks m.num_threads 0 m).workers (untouched file) s
    → s.downloaded_size ≡ m.total_size
    → x < m.total_size
    → s.file x ≡ resource x
assembled resource file m s x none_yet fresh n r full l =
    let ws : List Worker = (start_chunks m.num_threads 0 m).workers in
    let tiles = (start_chunks-covers m x none_yet fresh n l).0 in
    let begun = untouched-IsSound resource file ws 0 m.total_size tiles in
    let run =
      Reaches-IsFaithful resource ws 0 m.total_size tiles
        (record { sound = begun.0; counted = omega (arith, begun.1) }) r in
    crew_done resource s x ws 0 m.total_size tiles run.sound (omega (arith, full, run.counted))
      (omega arith) l
