-- ===== src/Downloader/Together.antt =====
-- What a round of one worker does to its own range, and to one apart from it.
use adp_pro.Prelude.{
  ℕ, ◌+◌, ◌-◌, ◌≤◌, ◌<◌, ◌≡◌, ◌∙◌, ◌⊎◌, inl, inr, ◌==◌, nat_eq, beq_refl, List, length, take,
  length-take, arith, if◌then◌else◌,
}
use adp_pro.Prelude.Dict.{get-put}
use adp_pro.Downloader.State.{Worker}
use adp_pro.Downloader.Worker.{Bytes, commit}
use adp_pro.Downloader.Fetched.{Agrees, write-outside, commit-inside}
use adp_pro.Downloader.Assembly.{Assembly, progress_of, transfer_of, write_chunk}

-- The worker's range is not empty, and is right as far as it is done.
pub record IsSound (resource : Bytes) (s : Assembly) (w : Worker) : Type 0 where
  pub proper : w.start < w.stop
  pub bounded : w.start + progress_of w s ≤ w.stop
  pub right : (x : ℕ) → w.start ≤ x → x < w.start + progress_of w s → s.file x ≡ resource x

progress_of-write :
    (v w : Worker) (content : List ℕ) (s : Assembly)
    → progress_of v (write_chunk w content s) ≡ (
        if w.start == v.start
        then progress_of w s + length (take (w.stop - (w.start + progress_of w s)) content)
        else progress_of v s)
unfolding write_chunk progress_of commit
progress_of-write v w content s = ground (
  arith,
  get-put s.chunk_progress w.start v.start
      (progress_of w s + length (take (w.stop - (w.start + progress_of w s)) content)),
)

file-write :
    (w : Worker) (content : List ℕ) (s : Assembly) (x : ℕ)
    → (x < w.start + progress_of w s) ⊎ (w.stop ≤ x)
    → w.start + progress_of w s ≤ w.stop
    → (write_chunk w content s).file x ≡ s.file x
unfolding write_chunk commit
file-write w content s x h b =
    let k : ℕ = w.stop - (w.start + progress_of w s) in
    ground (
      arith,
      length-take k content,
      write-outside (w.start + progress_of w s) x (take k content) s.file,
    )

pub progress_of-write_self :
    (w : Worker) (content : List ℕ) (s : Assembly)
    → progress_of w (write_chunk w content s)
      ≡ progress_of w s + length (take (w.stop - (w.start + progress_of w s)) content)
progress_of-write_self w content s = simp (progress_of-write, beq_refl)

file-write_inside :
    (resource : Bytes) (w : Worker) (content : List ℕ) (s : Assembly) (x : ℕ)
    → Agrees resource (w.start + progress_of w s) content
    → w.start + progress_of w s ≤ x
    → x < w.start + progress_of w (write_chunk w content s)
    → (write_chunk w content s).file x ≡ resource x
unfolding write_chunk commit
file-write_inside resource w content s x a l u =
    commit-inside resource x content (transfer_of w s) a l
      (omega (arith, u, progress_of-write_self w content s))

pub leb-cases : (a b : ℕ) → (a ≤ b) ⊎ (b < a)
leb-cases a b = ground arith

-- One range ends before the other starts.
abbrev pub AreApart : Worker → Worker → Type 0
AreApart v w = (v.stop ≤ w.start) ⊎ (w.stop ≤ v.start)

pub progress_of_apart :
    (v w : Worker) (content : List ℕ) (s : Assembly)
    → AreApart v w
    → w.start < w.stop
    → v.start < v.stop
    → progress_of v (write_chunk w content s) ≡ progress_of v s
progress_of_apart v w content s apart p q = ground (arith, progress_of-write v w content s)

outside :
    (v w : Worker) (s : Assembly) (x : ℕ)
    → AreApart v w
    → v.start + progress_of v s ≤ v.stop
    → v.start ≤ x
    → x < v.start + progress_of v s
    → (x < w.start + progress_of w s) ⊎ (w.stop ≤ x)
outside v w s x apart b l u = ground arith

pub write-IsSound :
    (resource : Bytes) (w : Worker) (content : List ℕ) (s : Assembly)
    → Agrees resource (w.start + progress_of w s) content
    → IsSound resource s w
    → IsSound resource (write_chunk w content s) w
write-IsSound resource w content s a h = record {
  proper = h.proper;
  bounded = omega (
    arith,
    h.bounded,
    progress_of-write_self w content s,
    length-take (w.stop - (w.start + progress_of w s)) content,
  );
  right = λ x l u. elim (leb-cases (w.start + progress_of w s) x) [
    | inl new ↦ file-write_inside resource w content s x a new u
    | inr old ↦ file-write w content s x (inl old) h.bounded ∙ h.right x l old
  ];
}

pub write_apart-IsSound :
    (resource : Bytes) (v w : Worker) (content : List ℕ) (s : Assembly)
    → AreApart v w
    → IsSound resource s w
    → IsSound resource s v
    → IsSound resource (write_chunk w content s) v
write_apart-IsSound resource v w content s apart g h =
    let same = progress_of_apart v w content s apart g.proper h.proper in
    record {
      proper = h.proper;
      bounded = omega (arith, h.bounded, same);
      right = λ x l u.
          file-write w content s x (outside v w s x apart h.bounded l (omega (arith, u, same)))
            g.bounded
          ∙ h.right x l (omega (arith, u, same));
    }
