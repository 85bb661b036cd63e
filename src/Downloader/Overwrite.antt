-- ===== src/Downloader/Overwrite.antt =====
-- A file that ADP did not make is not overwritten without leave.
use adp_pro.Prelude.{
  if◌then◌else◌, ℕ, ◌≡◌, refl, ◌⊎◌, inl, inr, nat_eq, string_eq, beq_refl, Bool, true, false,
  String, Option, none, some, arith, Bool-cases,
}
use adp_pro.Core.Models.{stopped, error}
use adp_pro.Downloader.State.{
  Manager, Env, Sidecar, SidecarFile, missing, unreadable, odd, holds, truthy,
}
use adp_pro.Downloader.Sidecar.{option_eq, is_usable, load_progress, load_from, escapes}
use adp_pro.Downloader.Lifecycle.{handle_metadata_fetched, handle_metadata_error, claim_file}
use adp_pro.Downloader.Finish.{fail}

-- The sidecar belongs to this download of the resource that the server now offers.
pub record IsMatching (m : Manager) (s : Sidecar) : Type 0 where
  pub url : s.url ≡ m.url
  pub save_path : s.save_path ≡ m.save_path
  pub etag : (truthy m.server_etag ≡ false) ⊎ (s.etag ≡ m.server_etag)
  pub total_size : (m.total_size ≡ 0) ⊎ (s.total_size ≡ m.total_size)

option_eq→eq : (a b : Option String) → option_eq a b ≡ true → a ≡ b
unfolding option_eq
option_eq→eq none none h = refl
option_eq→eq none (some b) h = ground arith
option_eq→eq (some a) none h = ground arith
option_eq→eq (some a) (some b) h = ground (arith, string_eq.is_same_iff a b)

option_eq_refl : (a : Option String) → option_eq a a ≡ true
unfolding option_eq
option_eq_refl none = refl
option_eq_refl (some a) = beq_refl a

-- The sidecar is adopted exactly when it belongs to this download.
pub is_usable_iff :
    (m : Manager) (s : Sidecar)
    → (is_usable m s ≡ true → IsMatching m s) × (IsMatching m s → is_usable m s ≡ true)
unfolding is_usable
is_usable_iff m s = (
  λ h. ground (
    arith,
    string_eq.is_same_iff s.url m.url,
    string_eq.is_same_iff s.save_path m.save_path,
    option_eq→eq s.etag m.server_etag,
  ),
  λ h. ground (
    arith,
    h.url,
    h.save_path,
    h.etag,
    string_eq.is_same_iff s.url m.url,
    string_eq.is_same_iff s.save_path m.save_path,
    option_eq_refl m.server_etag,
  ),
)

-- The manager as the answer of the server describes the resource.
abbrev pub informed : ℕ → Option String → Manager → Manager
informed total etag m = record m { total_size = total; server_etag = etag }

load_progress_foreign :
    (m : Manager)
    → ((s : Sidecar) → m.sidecar ≡ holds s → ¬ IsMatching m s)
    → load_progress m ≡ (m, false)
unfolding load_progress
load_progress_foreign m h = go m.sidecar refl
  where
    go : (c : SidecarFile) → m.sidecar ≡ c → load_from m c ≡ (m, false)
    go missing e = unfold load_from in refl
    go unreadable e = unfold load_from in refl
    go odd e = unfold load_from in refl
    go (holds s) e = elim (Bool-cases (is_usable m s)) [
      | inl u ↦ absurd (h s e ((is_usable_iff m s).0 u))
      | inr n ↦ unfold load_from in rw n
    ]

-- Where a file lies at the destination, overwriting was not allowed and no sidecar belongs to this
-- download of this resource, the metadata leads to nothing: the file and the sidecar stay and no
-- worker is started. The download is stopped or failed then, or its status is as before: a sidecar
-- whose reading raises what nothing handles ends the call.
pub refuses_foreign_file :
    (env : Env) (total : ℕ) (ranges : Bool) (etag modified : Option String) (m : Manager) (size : ℕ)
    → m.file ≡ some size
    → m.allow_overwrite ≡ false
    → ((s : Sidecar) → m.sidecar ≡ holds s → ¬ IsMatching (informed total etag m) s)
    → let r = handle_metadata_fetched env total ranges etag modified m in
      (r.file ≡ some size)
      × (r.sidecar ≡ m.sidecar)
      × (r.tasks ≡ m.tasks)
      × ((r.status ≡ stopped) ⊎ (r.status ≡ error) ⊎ ((m.sidecar ≡ odd) × (r.status ≡ m.status)))
unfolding handle_metadata_fetched claim_file handle_metadata_error fail escapes
refuses_foreign_file env total ranges etag modified m size f o h =
    let m'' : Manager = record m {
      total_size = total;
      server_etag = etag;
      server_last_modified = modified;
      metadata_initialized = true;
      num_threads = if ranges then m.num_threads else 1;
      ranges_supported = ranges;
    } in
    ground (
      arith,
      load_progress_foreign m'' (λ s e k. h s e (record {
        url = k.url;
        save_path = k.save_path;
        etag = k.etag;
        total_size = k.total_size;
      })),
    )
