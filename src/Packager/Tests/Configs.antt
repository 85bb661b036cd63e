-- ===== src/Packager/Tests/Configs.antt =====
-- A configuration with one banned path.
use mathlib.Core.List.{Memᴰ}
use adp_pro.Prelude.{inl, ◌≡◌, refl, Bool, true}
use adp_pro.Files.Names.{Text}
use adp_pro.Packager.Paths.{codes}
use adp_pro.Packager.Config.{
  list_str, string, integer, array, table, nil, cons, Table, empty, with_key, find_section,
  find_key, check_type, check_key, check_keys, check_section, check_sections, declared,
  is_understood, validate_check_config,
}
use adp_pro.Packager.Typed.{HasType}
use adp_pro.Packager.Reads.{read_at, reads, validate_check_config-HasType}

abbrev banned : Table
banned =
    with_key (codes "banned")
      (table (with_key (codes "paths") (array (cons (string (codes "x")) nil)) empty)) empty

abbrev compiles : Text → Bool
compiles p = true

banned-accepted : validate_check_config compiles banned ≡ true
unfolding validate_check_config is_understood declared check_sections check_section find_section
    check_keys check_key find_key check_type
banned-accepted = refl

banned_paths : Memᴰ (read_at (codes "banned") (codes "paths") list_str) reads
banned_paths =
    Memᴰ.tail
      (Memᴰ.tail (Memᴰ.tail (Memᴰ.tail (Memᴰ.tail (Memᴰ.tail (Memᴰ.tail (Memᴰ.head refl)))))))

validate_check_config-HasType_example :
    (declared banned ≡ integer 1)
    × HasType compiles list_str (array (cons (string (codes "x")) nil))
validate_check_config-HasType_example =
    validate_check_config-HasType compiles banned
      (with_key (codes "paths") (array (cons (string (codes "x")) nil)) empty)
      (read_at (codes "banned") (codes "paths") list_str) (array (cons (string (codes "x")) nil))
      banned-accepted banned_paths (inl (refl, refl)) (inl (refl, refl))
