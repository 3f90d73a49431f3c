-- ===== src/Tests/Mounts.antt =====
-- Mounts below one allowed root, in a file system without links.
use lfontes_nanoclaw.Prelude.{
  if◌then◌else◌, length, drop, All, first, String, ◌≡◌, refl, inl, true, false, none, some, List,
  [], ◌∷◌, ◌++◌,
}
use lfontes_nanoclaw.Text.{codes, starts_with}
use lfontes_nanoclaw.MountSecurity.{
  AdditionalMount, MountAllowlist, valid, AllowlistCache, PathEnv, validate_additional_mounts,
}
use lfontes_nanoclaw.MountSecurity.Safe.{
  IsSafe, validate_additional_mounts-IsSafe, validate_additional_mounts-refused,
}

abbrev env : PathEnv
env = record {
  home = codes "/home/u";
  join = λ a b. a ++ codes "/" ++ b;
  resolve = λ p. p;
  relative = λ root p. if starts_with p root then drop (length root) p else codes "..";
  is_absolute = λ p. false;
  basename = λ p. codes "work";
  realpath = λ p. some p;
}

abbrev allowlist : MountAllowlist
allowlist = record {
  allowed_roots = record { path = codes "/w"; allow_read_write = true; description = none } ∷ [];
  blocked_patterns = codes "token" ∷ [];
}

abbrev fresh : AllowlistCache
fresh = record { cached_allowlist = none; load_error = false }

abbrev mount : String → AdditionalMount
mount host_path = record {
  host_path = codes host_path;
  container_path = none;
  readonly = some false;
}

abbrev mounts : List AdditionalMount
mounts = mount "/w/a" ∷ mount "/w/.ssh" ∷ mount "/x" ∷ mount "/w/tokens" ∷ []

-- One of the four is let through.
one_mount : length (validate_additional_mounts env (valid allowlist) fresh mounts).1 ≡ 1
unfolding validate_additional_mounts first
one_mount = refl

validate_additional_mounts-IsSafe_example :
    All (IsSafe env allowlist) (validate_additional_mounts env (valid allowlist) fresh mounts).1
validate_additional_mounts-IsSafe_example =
    validate_additional_mounts-IsSafe env allowlist fresh mounts (inl refl)

validate_additional_mounts-refused_example :
    (validate_additional_mounts env
      (valid allowlist)
      (record fresh { load_error = true })
      (mount "/w/a" ∷ [])).1
    ≡ []
validate_additional_mounts-refused_example =
    validate_additional_mounts-refused env (valid allowlist) (record fresh { load_error = true })
      (mount "/w/a" ∷ []) refl (inl refl)
