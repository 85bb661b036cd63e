-- ===== src/Packager/Excluded.antt =====
-- project_packager.py: the names and patterns that each profile excludes, a set as a list of its elements.
use adp_pro.Prelude.{List, [], ◌∷◌}
use adp_pro.Files.Names.{Text}
use adp_pro.Packager.Paths.{codes}

abbrev pub debris_file_patterns : List Text
debris_file_patterns =
    codes "*.bak"
    ∷ codes "*.bak.*"
    ∷ codes "*.tmp"
    ∷ codes "*.old"
    ∷ codes "*.orig"
    ∷ codes "patch_*.py"
    ∷ codes "patch_*.bat"
    ∷ codes "fix_*.py"
    ∷ codes "fix_*.bat"
    ∷ codes "add_*.py"
    ∷ codes "add_*.bat"
    ∷ codes "*New Text Document*"
    ∷ []

abbrev pub default_exclude_dir_names : List Text
default_exclude_dir_names =
    codes ".git"
    ∷ codes ".vscode"
    ∷ codes ".idea"
    ∷ codes "__pycache__"
    ∷ codes ".pytest_cache"
    ∷ codes ".mypy_cache"
    ∷ codes ".ruff_cache"
    ∷ codes ".tox"
    ∷ codes ".venv"
    ∷ codes "venv"
    ∷ codes "env"
    ∷ codes "build"
    ∷ codes "dist"
    ∷ codes "htmlcov"
    ∷ codes "node_modules"
    ∷ codes "scripts"
    ∷ []

abbrev pub default_exclude_dir_patterns : List Text
default_exclude_dir_patterns = codes "*.egg-info" ∷ []

abbrev pub default_exclude_file_patterns : List Text
default_exclude_file_patterns =
    codes "*.pyc"
    ∷ codes "*.pyo"
    ∷ codes ".coverage"
    ∷ codes "*.db"
    ∷ codes "*.sqlite"
    ∷ codes "*.sqlite3"
    ∷ codes ".DS_Store"
    ∷ codes "Thumbs.db"
    ∷ codes "desktop.ini"
    ∷ codes "*.zip"
    ∷ debris_file_patterns

abbrev pub strict_exclude_dir_names : List Text
strict_exclude_dir_names = codes "secrets" ∷ codes "secret" ∷ codes "private" ∷ codes "keys" ∷ []

abbrev pub strict_exclude_file_patterns : List Text
strict_exclude_file_patterns =
    codes ".env"
    ∷ codes ".env.*"
    ∷ codes "*.key"
    ∷ codes "*.pem"
    ∷ codes "*.crt"
    ∷ codes "*.token"
    ∷ codes "*.secret"
    ∷ codes "config.local.*"
    ∷ codes "secrets.json"
    ∷ codes "secret.json"
    ∷ codes "credentials.json"
    ∷ codes "*.keystore"
    ∷ codes "id_rsa*"
    ∷ codes "id_ed25519*"
    ∷ []

abbrev pub backup_exclude_dir_names : List Text
backup_exclude_dir_names =
    codes ".git"
    ∷ codes "__pycache__"
    ∷ codes ".pytest_cache"
    ∷ codes ".mypy_cache"
    ∷ codes ".ruff_cache"
    ∷ []
