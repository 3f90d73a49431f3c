-- ===== src/MountSecurity.antt =====
-- The mounts that a group may add to its container (`src/modules/mount-security/index.ts`). Paths are
-- texts; node's `path` and the file system are parameters.
pub mod Safe
use lfontes_nanoclaw.Prelude.{
  ltb, leb, ◌==◌, ◌===◌, if◌then◌else◌, ltb→lt, leb→le, ==_iff, ===_iff, ===_refl, Bool-cases,
  Option-cases, &&-true, is_some, opt_eq, opt_eq_refl, opt_eq_iff, or_else, length, take, drop, any,
  all, All, All-imp, All-and, All-append, All-take, length-append, length-take-le, In, All-In,
  In-All, any-In, In-append_left, In-append_right, In-map, select, first, update, delete, max_of,
  insert_by, order_by, All-select, All-delete, All-update, All-insert_by, All-order_by,
  select_holds, In-select, delete-append, select-delete, select-delete_inside, delete_none,
  any-delete, any-none, delete_fails, le-max_of, any-false, first-some, first-All, first_added,
  some_injective, some≢none, true≢false, first-none, first-none_of, select-update_outside,
  map-update, update_twice, update_clears, select-append, any-append, any-update, length-update,
  update_congr, update_idempotent, select_none, update_union, update_same, ℕ, zero, suc, ◌+◌, ◌-◌,
  ◌*◌, ◌/◌, ◌%◌, ◌^◌, ◌≤◌, ◌<◌, min, max, String, ◌≡◌, refl, sym, ap, ◌∙◌, ◌≢◌, ◌↔◌, ◌⊎◌, inl, inr,
  Bool, true, false, ◌&&◌, ◌||◌, not, Option, none, some, List, [], ◌∷◌, ◌++◌, map, reverse, arith,
}
use lfontes_nanoclaw.Text.{Text, codes, text_eq, contains_text, starts_with, trim}

pub record AdditionalMount : Type 0 where
  pub host_path : Text
  pub container_path : Option Text
  pub readonly : Option Bool

pub record AllowedRoot : Type 0 where
  pub path : Text
  pub allow_read_write : Bool
  pub description : Option Text

pub record MountAllowlist : Type 0 where
  pub allowed_roots : List AllowedRoot
  pub blocked_patterns : List Text

-- The allowlist's file: missing, not of the right form, or what it says.
pub data AllowlistFile : Type 0 where
  missing invalid : AllowlistFile
  valid : MountAllowlist → AllowlistFile

-- The two module variables; the error is kept as whether there is one.
pub record AllowlistCache : Type 0 where
  pub cached_allowlist : Option MountAllowlist
  pub load_error : Bool

-- The parameters: the home directory, `path.join`, `path.resolve`, `path.relative`,
-- `path.isAbsolute`, `path.basename` and `fs.realpathSync` (`none` where it throws).
pub record PathEnv : Type 0 where
  pub home : Text
  pub join : Text → Text → Text
  pub resolve : Text → Text
  pub relative : Text → Text → Text
  pub is_absolute : Text → Bool
  pub basename : Text → Text
  pub realpath : Text → Option Text

abbrev pub default_blocked_patterns : List Text
default_blocked_patterns =
    codes ".ssh"
    ∷ codes ".gnupg"
    ∷ codes ".gpg"
    ∷ codes ".aws"
    ∷ codes ".azure"
    ∷ codes ".gcloud"
    ∷ codes ".kube"
    ∷ codes ".docker"
    ∷ codes "credentials"
    ∷ codes ".env"
    ∷ codes ".netrc"
    ∷ codes ".npmrc"
    ∷ codes ".pypirc"
    ∷ codes "id_rsa"
    ∷ codes "id_ed25519"
    ∷ codes "private_key"
    ∷ codes ".secret"
    ∷ []

-- `[...new Set(xs)]` after the elements that were seen.
unfoldable pub distinct_after : List Text → List Text → List Text
unfolding contains_text
distinct_after seen [] = []
distinct_after seen (x ∷ xs) =
    let rest = distinct_after (x ∷ seen) xs in
    if contains_text seen x then distinct_after seen xs else x ∷ rest

unfoldable pub merged : MountAllowlist → MountAllowlist
unfolding distinct_after
merged allowlist = record allowlist {
  blocked_patterns = distinct_after [] (default_blocked_patterns ++ allowlist.blocked_patterns);
}

abbrev pub read_allowlist : AllowlistCache → AllowlistFile → AllowlistCache × Option MountAllowlist
read_allowlist cache missing = (cache, none)
read_allowlist cache invalid = (record cache { load_error = true }, none)
read_allowlist cache (valid allowlist) =
    (record cache { cached_allowlist = some (merged allowlist) }, some (merged allowlist))

abbrev pub load_from :
    AllowlistFile
    → AllowlistCache
    → Option MountAllowlist
    → Bool
    → AllowlistCache × Option MountAllowlist
load_from file cache (some allowlist) load_error = (cache, some allowlist)
load_from file cache none true = (cache, none)
load_from file cache none false = read_allowlist cache file

unfoldable pub load_mount_allowlist :
    AllowlistFile → AllowlistCache → AllowlistCache × Option MountAllowlist
unfolding merged
load_mount_allowlist file cache = load_from file cache cache.cached_allowlist cache.load_error

unfoldable pub expand_path : PathEnv → Text → Text
unfolding starts_with text_eq
expand_path env p =
    if starts_with p (codes "~/")
    then env.join env.home (drop 2 p)
    else if text_eq p (codes "~")
    then env.home
    else env.resolve p

-- `s.includes(t)`
unfoldable pub includes : Text → Text → Bool
unfolding starts_with
includes [] t = starts_with [] t
includes (c ∷ s) t = starts_with (c ∷ s) t || includes s t

-- The parts of a split: the part that a character is put in front of is the first.
abbrev pub put_first : ℕ → List Text → List Text
put_first c [] = (c ∷ []) ∷ []
put_first c (part ∷ parts) = (c ∷ part) ∷ parts

-- `s.split('/')`
unfoldable pub path_parts : Text → List Text
path_parts [] = [] ∷ []
path_parts (c ∷ s) = if c == b'/' then [] ∷ path_parts s else put_first c (path_parts s)

abbrev pub is_blocked_by : Text → Text → Bool
is_blocked_by real_path pattern =
    any (λ (part : Text). text_eq part pattern || includes part pattern) (path_parts real_path)
    || includes real_path pattern

unfoldable pub matches_blocked_pattern : Text → List Text → Option Text
unfolding text_eq includes path_parts
matches_blocked_pattern real_path patterns = first (is_blocked_by real_path) patterns

abbrev pub is_under : PathEnv → Text → Text → Bool
is_under env real_root real_path =
    let relative = env.relative real_root real_path in
    not (starts_with relative (codes "..")) && not (env.is_absolute relative)

abbrev pub is_root_of : PathEnv → Text → AllowedRoot → Bool
is_root_of env real_path root = elim (env.realpath (expand_path env root.path)) [
  | none ↦ false
  | some real_root ↦ is_under env real_root real_path
]

unfoldable pub find_allowed_root : PathEnv → Text → List AllowedRoot → Option AllowedRoot
unfolding expand_path starts_with
find_allowed_root env real_path roots = first (is_root_of env real_path) roots

abbrev pub is_empty : Text → Bool
is_empty [] = true
is_empty (c ∷ s) = false

unfoldable pub is_valid_container_path : Text → Bool
unfolding includes starts_with trim
is_valid_container_path p =
    if includes p (codes "..")
    then false
    else if starts_with p (codes "/")
    then false
    else if is_empty p || is_empty (trim p)
    then false
    else not (includes p (codes ":"))

pub record ValidatedMount : Type 0 where
  pub host_path : Text
  pub container_path : Text
  pub readonly : Bool

-- `mount.containerPath || path.basename(mount.hostPath)`
abbrev pub container_path_of : PathEnv → AdditionalMount → Text
container_path_of env mount = elim mount.container_path [
  | none ↦ env.basename mount.host_path
  | some p ↦ if is_empty p then env.basename mount.host_path else p
]

abbrev pub requested_read_write : Option Bool → Bool
requested_read_write (some false) = true
requested_read_write _ = false

-- A mount against an allowlist: `none` where it is refused. Reasons are for the log only.
abbrev pub checked : PathEnv → MountAllowlist → AdditionalMount → Option ValidatedMount
checked env allowlist mount =
    let container_path = container_path_of env mount in
    if not (is_valid_container_path container_path)
    then none
    else elim (env.realpath (expand_path env mount.host_path)) [
      | none ↦ none
      | some real_path ↦ elim (matches_blocked_pattern real_path allowlist.blocked_patterns) [
        | some pattern ↦ none
        | none ↦ elim (find_allowed_root env real_path allowlist.allowed_roots) [
          | none ↦ none
          | some root ↦ some (record {
            host_path = real_path;
            container_path = container_path;
            readonly = not (requested_read_write mount.readonly && root.allow_read_write);
          })
        ]
      ]
    ]

unfoldable pub validate_mount :
    PathEnv
    → AllowlistFile
    → AllowlistCache
    → AdditionalMount
    → AllowlistCache × Option ValidatedMount
unfolding load_mount_allowlist is_valid_container_path expand_path matches_blocked_pattern
    find_allowed_root
validate_mount env file cache mount =
    let loaded = load_mount_allowlist file cache in
    elim loaded.1 [
      | none ↦ (loaded.0, none)
      | some allowlist ↦ (loaded.0, checked env allowlist mount)
    ]

abbrev pub mounted : Option ValidatedMount → List ValidatedMount → List ValidatedMount
mounted none rest = rest
mounted (some m) rest =
    record m { container_path = codes "/workspace/extra/" ++ m.container_path } ∷ rest

unfoldable pub validate_additional_mounts :
    PathEnv
    → AllowlistFile
    → AllowlistCache
    → List AdditionalMount
    → AllowlistCache × List ValidatedMount
unfolding validate_mount
validate_additional_mounts env file cache [] = (cache, [])
validate_additional_mounts env file cache (mount ∷ mounts) =
    let result = validate_mount env file cache mount in
    let rest = validate_additional_mounts env file result.0 mounts in
    (rest.0, mounted result.1 rest.1)
