-- ===== src/Api/Tests.antt =====
-- Concrete calls.
use adp_pro.Prelude.{string_eq, true, false, none, [], ◌∷◌}
use adp_pro.Downloader.State.{missing, allocated, init}
use adp_pro.Panel.State.{Panel, Outside}

abbrev outside : Outside
outside = record {
  env = record {
    now = 5000;
    allocation = allocated;
    can_write_sidecar = true;
    can_remove_sidecar = true;
    can_stat = true;
  };
  new_id = "d9";
  file_at = λ path. none;
  sidecar_at = λ path. missing;
  normalise = λ path. path;
  basename = λ path. path;
}

abbrev panel : Panel
panel = record {
  downloads =
      ("a", init "a" "http://host/a.zip" "/tmp/a" 4 none "Archives" 0 true false none missing) ∷ [];
  download_queue = "a" ∷ [];
  slot_holders = [];
  schedule = [];
  max_active = 2;
  verify_tls = true;
  session = [];
}
