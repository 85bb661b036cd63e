-- ===== src/Downloader/Fetched.antt =====
-- What a worker leaves in the file: only bytes of its range, the right ones, and as many as it says.
use adp_pro.Prelude.{
  ℕ, zero, suc, ◌+◌, ◌≤◌, ◌<◌, ◌≡◌, refl, ◌⊎◌, ◌==◌, nat_eq, Bool, true, false, List, [], ◌∷◌,
  length, take, length-take, sum, arith, subst,
}
use adp_pro.Downloader.Worker.{Arrival, Bytes, write, Transfer, commit, consume}

-- The chunk is what the resource has from that position on.
abbrev pub Agrees : Bytes → ℕ → List ℕ → Type 0
Agrees resource pos [] = Unit
Agrees resource pos (b ∷ chunk) = (b ≡ resource pos) × Agrees resource (pos + 1) chunk

-- So are the chunks of a body.
abbrev pub IsBody : Bytes → ℕ → List Arrival → Type 0
IsBody resource pos [] = Unit
IsBody resource pos (a ∷ rest) =
    Agrees resource pos a.content × IsBody resource (pos + length a.content) rest

pub write-outside :
    (pos x : ℕ) (chunk : List ℕ) (file : Bytes)
    → (x < pos) ⊎ (pos + length chunk ≤ x)
    → write pos chunk file x ≡ file x
unfolding write
write-outside pos x [] file h = refl
write-outside pos x (b ∷ chunk) file h = ground (arith, write-outside (pos + 1) x chunk file)

write-inside :
    (resource : Bytes) (pos x : ℕ) (chunk : List ℕ) (file : Bytes)
    → Agrees resource pos chunk
    → pos ≤ x
    → x < pos + length chunk
    → write pos chunk file x ≡ resource x
unfolding write
write-inside resource pos x [] file a l u = omega arith
write-inside resource pos x (b ∷ chunk) file a l u =
    ground (arith, a.0, write-inside resource (pos + 1) x chunk file a.1)

Agrees-take :
    (resource : Bytes) (pos n : ℕ) (chunk : List ℕ)
    → Agrees resource pos chunk
    → Agrees resource pos (take n chunk)
Agrees-take resource pos zero chunk a = tt
Agrees-take resource pos (suc n) [] a = tt
Agrees-take resource pos (suc n) (b ∷ chunk) a = (a.0, Agrees-take resource (pos + 1) n chunk a.1)

-- The loop variables fit together: what was there before, the bytes done and the bytes left.
pub record IsAt (stop start done : ℕ) (t : Transfer) : Type 0 where
  pub position : t.position ≡ start + t.progress
  pub remaining : t.position + t.remaining ≡ stop
  pub counted : t.progress ≡ done + sum t.emitted

commit-IsAt :
    (stop start done : ℕ) (content : List ℕ) (t : Transfer)
    → IsAt stop start done t
    → IsAt stop start done (commit (take t.remaining content) t)
unfolding commit
commit-IsAt stop start done content t h = record {
  position = omega (arith, h.position);
  remaining = omega (arith, h.remaining, length-take t.remaining content);
  counted = omega (arith, h.counted);
}

pub consume-IsAt :
    (stop start done : ℕ) (breaks : Bool) (arrivals : List Arrival) (t : Transfer)
    → IsAt stop start done t
    → IsAt stop start done (consume breaks arrivals t).0
unfolding consume
consume-IsAt stop start done breaks [] t h = h
consume-IsAt stop start done breaks (a ∷ rest) t h =
    let t' : Transfer = commit (take t.remaining a.content) t in
    ground (
      arith,
      commit-IsAt stop start done a.content t h,
      consume-IsAt stop start done breaks rest t,
      consume-IsAt stop start done breaks rest t',
    )

pub consume-outside :
    (breaks : Bool) (arrivals : List Arrival) (x : ℕ) (t : Transfer)
    → (x < t.position) ⊎ (t.position + t.remaining ≤ x)
    → (consume breaks arrivals t).0.file x ≡ t.file x
unfolding consume commit
consume-outside breaks [] x t h = refl
consume-outside breaks (a ∷ rest) x t h =
    let chunk : List ℕ = take t.remaining a.content in
    ground (
      arith,
      length-take t.remaining a.content,
      write-outside t.position x chunk t.file,
      consume-outside breaks rest x t,
      consume-outside breaks rest x (commit chunk t),
    )

pub commit-inside :
    (resource : Bytes) (x : ℕ) (content : List ℕ) (t : Transfer)
    → Agrees resource t.position content
    → t.position ≤ x
    → x < (commit (take t.remaining content) t).position
    → (commit (take t.remaining content) t).file x ≡ resource x
unfolding commit
commit-inside resource x content t a l u =
    write-inside resource t.position x (take t.remaining content) t.file
      (Agrees-take resource t.position t.remaining content a) l u

-- A chunk that leaves bytes to fetch was written whole.
pub commit-rest :
    (resource : Bytes) (content : List ℕ) (rest : List Arrival) (t : Transfer)
    → IsBody resource (t.position + length content) rest
    → ((commit (take t.remaining content) t).remaining == 0) ≡ false
    → IsBody resource (commit (take t.remaining content) t).position rest
unfolding commit
commit-rest resource content rest t b h =
    subst (λ pos. IsBody resource pos rest) (ground (arith, length-take t.remaining content)) b

pub skip-rest :
    (resource : Bytes) (content : List ℕ) (rest : List Arrival) (t : Transfer)
    → IsBody resource (t.position + length content) rest
    → (length content == 0) ≡ true
    → IsBody resource t.position rest
skip-rest resource content rest t b h = subst (λ pos. IsBody resource pos rest) (ground arith) b

pub consume-inside :
    (resource : Bytes) (breaks : Bool) (arrivals : List Arrival) (x : ℕ) (t : Transfer)
    → IsBody resource t.position arrivals
    → t.position ≤ x
    → x < (consume breaks arrivals t).0.position
    → (consume breaks arrivals t).0.file x ≡ resource x
unfolding consume
consume-inside resource breaks [] x t b l u = omega arith
consume-inside resource breaks (a ∷ rest) x t b l u =
    let t' : Transfer = commit (take t.remaining a.content) t in
    ground (
      arith,
      commit-inside resource x a.content t b.0 l,
      consume-outside breaks rest x t',
      consume-inside resource breaks rest x t,
      consume-inside resource breaks rest x t',
      commit-rest resource a.content rest t b.1,
      skip-rest resource a.content rest t b.1,
    )
