-- ===== src/MountSecurity/Safe.antt =====
-- What every mount that is let through satisfies.
use lfontes_nanoclaw.Prelude.{
  Bool-cases, Option-cases, All, All-imp, In, first-In, first-some, some_injective, some≢none,
  true≢false, first-none, ◌≡◌, refl, sym, ap, ◌∙◌, ◌⊎◌, inl, inr, Bool, true, false, ◌&&◌, not,
  Option, none, some, List, [], ◌∷◌, ◌++◌, arith,
}
use lfontes_nanoclaw.Text.{Text, codes, text_eq, text_eq_iff, contains_text}
use lfontes_nanoclaw.MountSecurity.{
  AdditionalMount, AllowedRoot, MountAllowlist, AllowlistFile, missing, invalid, valid,
  AllowlistCache, PathEnv, default_blocked_patterns, distinct_after, merged, read_allowlist,
  load_from, load_mount_allowlist, expand_path, includes, is_blocked_by, matches_blocked_pattern,
  is_root_of, find_allowed_root, is_valid_container_path, ValidatedMount, container_path_of,
  requested_read_write, checked, validate_mount, mounted, validate_additional_mounts,
}

-- The real path lies under an allowed root, which allows writing if the mount does.
abbrev pub IsUnder : PathEnv → MountAllowlist → Text → Bool → Type 0
IsUnder env allowlist real_path readonly =
    (root : AllowedRoot) × In root allowlist.allowed_roots
    × (is_root_of env real_path root ≡ true)
    × ((not readonly && not root.allow_read_write) ≡ false)

-- The path in the container stays below /workspace/extra/.
abbrev pub IsInside : Text → Type 0
IsInside container_path =
    (p : Text) × (container_path ≡ codes "/workspace/extra/" ++ p)
    × (includes p (codes "..") ≡ false)
    × (includes p (codes ":") ≡ false)

abbrev pub IsUnblocked : List Text → Text → Type 0
IsUnblocked patterns real_path = All (λ (p : Text). includes real_path p ≡ false) patterns

abbrev pub IsSafe : PathEnv → MountAllowlist → ValidatedMount → Type 0
IsSafe env allowlist m =
    IsUnder env allowlist m.host_path m.readonly
    × IsInside m.container_path
    × IsUnblocked default_blocked_patterns m.host_path
    × IsUnblocked allowlist.blocked_patterns m.host_path

contains_text-All :
    (P : Text → Type 0) (seen : List Text) (x : Text)
    → contains_text seen x ≡ true
    → All P seen
    → P x
unfolding contains_text
contains_text-All P [] x h k = absurd (true≢false (sym h))
contains_text-All P (y ∷ seen) x h k = elim (Bool-cases (text_eq x y)) [
  | inl b ↦ rw ((text_eq_iff x y).0 b) k.0
  | inr b ↦ (let h' : contains_text seen x ≡ true = rw b at h in contains_text-All P seen x h' k.1)
]

-- No element is lost where the doubles are left out.
All-distinct_after :
    (P : Text → Type 0) (seen xs : List Text)
    → All P seen
    → All P (distinct_after seen xs)
    → All P xs
unfolding distinct_after
All-distinct_after P seen [] h k = tt
All-distinct_after P seen (x ∷ xs) h k = elim (Bool-cases (contains_text seen x)) [
  | inl b ↦ (contains_text-All P seen x b h, All-distinct_after P seen xs h (rw b at k))
  | inr b ↦
      let k' : All P (x ∷ distinct_after (x ∷ seen) xs) = rw b at k in
      (k'.0, All-distinct_after P (x ∷ seen) xs (k'.0, h) k'.1)
]

All-append_split :
    {A : Type 0} (P : A → Type 0) (xs ys : List A) → All P (xs ++ ys) → All P xs × All P ys
All-append_split P [] ys h = (tt, h)
All-append_split P (x ∷ xs) ys h = let r = All-append_split P xs ys h.1 in ((h.0, r.0), r.1)

matches_blocked_pattern-none :
    (real_path : Text) (patterns : List Text)
    → matches_blocked_pattern real_path patterns ≡ none
    → IsUnblocked patterns real_path
unfolding matches_blocked_pattern
matches_blocked_pattern-none real_path patterns e =
    All-imp (λ (p : Text). is_blocked_by real_path p ≡ false)
      (λ (p : Text). includes real_path p ≡ false) patterns (λ p h. ground arith)
      (first-none (is_blocked_by real_path) patterns e)

unblocked :
    (allowlist : MountAllowlist) (real_path : Text)
    → matches_blocked_pattern real_path (merged allowlist).blocked_patterns ≡ none
    → IsUnblocked default_blocked_patterns real_path
      × IsUnblocked allowlist.blocked_patterns real_path
unfolding merged
unblocked allowlist real_path e =
    let P = λ (p : Text). includes real_path p ≡ false in
    All-append_split P default_blocked_patterns allowlist.blocked_patterns (
      All-distinct_after P [] (default_blocked_patterns ++ allowlist.blocked_patterns) tt
        (matches_blocked_pattern-none real_path (merged allowlist).blocked_patterns e))

is_valid_container_path-parts :
    (p : Text)
    → is_valid_container_path p ≡ true
    → (includes p (codes "..") ≡ false) × (includes p (codes ":") ≡ false)
unfolding is_valid_container_path
is_valid_container_path-parts p h = ground arith

merged-allowed_roots :
    (allowlist : MountAllowlist) → (merged allowlist).allowed_roots ≡ allowlist.allowed_roots
unfolding merged
merged-allowed_roots allowlist = refl

writable :
    (readonly : Option Bool) (allowed : Bool)
    → (not (not (requested_read_write readonly && allowed)) && not allowed) ≡ false
writable readonly allowed = ground arith

checked-IsSafe :
    (env : PathEnv) (allowlist : MountAllowlist) (mount : AdditionalMount) (m : ValidatedMount)
    → checked env (merged allowlist) mount ≡ some m
    → IsSafe env allowlist
        (record m { container_path = codes "/workspace/extra/" ++ m.container_path })
unfolding find_allowed_root
checked-IsSafe env allowlist mount m e =
    let container_path = container_path_of env mount in
    elim (Bool-cases (is_valid_container_path container_path)) [
      | inr b ↦ absurd (some≢none (sym e ∙ rw b refl))
      | inl b ↦ elim (Option-cases (env.realpath (expand_path env mount.host_path))) [
        | inl n ↦ absurd (some≢none (sym e ∙ rw (b, n) refl))
        | inr (real_path, r) ↦
            elim (Option-cases
              (matches_blocked_pattern real_path (merged allowlist).blocked_patterns)) [
                | inr (pattern, p) ↦ absurd (some≢none (sym e ∙ rw (b, r, p) refl))
                | inl p ↦
                    elim (Option-cases
                      (find_allowed_root env real_path (merged allowlist).allowed_roots)) [
                        | inl n ↦ absurd (some≢none (sym e ∙ rw (b, r, p, n) refl))
                        | inr (root, k) ↦
                            let made : ValidatedMount = record {
                              host_path = real_path;
                              container_path = container_path;
                              readonly =
                                  not
                                    (requested_read_write mount.readonly && root.allow_read_write);
                            } in
                            let q : made ≡ m =
                              some_injective made m (sym (rw (b, r, p, k) refl) ∙ e) in
                            rw (← q) (
                              (
                                root,
                                rw (merged-allowed_roots allowlist) at (
                                    first-In (is_root_of env real_path)
                                      (merged allowlist).allowed_roots root k),
                                first-some (is_root_of env real_path)
                                    (merged allowlist).allowed_roots root k,
                                writable mount.readonly root.allow_read_write,
                              ),
                              (
                                container_path,
                                refl,
                                (is_valid_container_path-parts container_path b).0,
                                (is_valid_container_path-parts container_path b).1,
                              ),
                              (unblocked allowlist real_path p).0,
                              (unblocked allowlist real_path p).1,
                            )
                      ]
              ]
      ]
    ]

-- Nothing is cached yet, or the allowlist is.
abbrev pub IsCacheOf : MountAllowlist → AllowlistCache → Type 0
IsCacheOf allowlist cache =
    (cache.cached_allowlist ≡ none) ⊎ (cache.cached_allowlist ≡ some (merged allowlist))

load_mount_allowlist-cached :
    (file : AllowlistFile) (cache : AllowlistCache) (a : MountAllowlist)
    → cache.cached_allowlist ≡ some a
    → load_mount_allowlist file cache ≡ (cache, some a)
unfolding load_mount_allowlist
load_mount_allowlist-cached file cache a e = ap (λ c. load_from file cache c cache.load_error) e

load_mount_allowlist-failed :
    (file : AllowlistFile) (cache : AllowlistCache)
    → cache.cached_allowlist ≡ none
    → cache.load_error ≡ true
    → load_mount_allowlist file cache ≡ (cache, none)
unfolding load_mount_allowlist
load_mount_allowlist-failed file cache e b =
    ap (λ c. load_from file cache c cache.load_error) e ∙ ap (load_from file cache none) b

load_mount_allowlist-reads :
    (file : AllowlistFile) (cache : AllowlistCache)
    → cache.cached_allowlist ≡ none
    → cache.load_error ≡ false
    → load_mount_allowlist file cache ≡ read_allowlist cache file
unfolding load_mount_allowlist
load_mount_allowlist-reads file cache e b =
    ap (λ c. load_from file cache c cache.load_error) e ∙ ap (load_from file cache none) b

load_mount_allowlist-merged :
    (allowlist : MountAllowlist) (cache : AllowlistCache)
    → IsCacheOf allowlist cache
    → ((load_mount_allowlist (valid allowlist) cache).1 ≡ none
        ⊎ (load_mount_allowlist (valid allowlist) cache).1 ≡ some (merged allowlist))
      × IsCacheOf allowlist (load_mount_allowlist (valid allowlist) cache).0
load_mount_allowlist-merged allowlist cache (inr e) =
    rw (load_mount_allowlist-cached (valid allowlist) cache (merged allowlist) e) (inr refl, inr e)
load_mount_allowlist-merged allowlist cache (inl e) = elim (Bool-cases cache.load_error) [
  | inl b ↦ rw (load_mount_allowlist-failed (valid allowlist) cache e b) (inl refl, inl e)
  | inr b ↦ rw (load_mount_allowlist-reads (valid allowlist) cache e b) (inr refl, inr refl)
]

mounted-IsSafe :
    (env : PathEnv) (allowlist : MountAllowlist) (o : Option ValidatedMount)
    (rest : List ValidatedMount)
    → ((m : ValidatedMount)
        → o ≡ some m
        → IsSafe env allowlist
            (record m { container_path = codes "/workspace/extra/" ++ m.container_path }))
    → All (IsSafe env allowlist) rest
    → All (IsSafe env allowlist) (mounted o rest)
mounted-IsSafe env allowlist none rest f h = h
mounted-IsSafe env allowlist (some m) rest f h = (f m refl, h)

validate_mount-IsSafe :
    (env : PathEnv) (allowlist : MountAllowlist) (cache : AllowlistCache) (mount : AdditionalMount)
    (m : ValidatedMount)
    → IsCacheOf allowlist cache
    → (validate_mount env (valid allowlist) cache mount).1 ≡ some m
    → IsSafe env allowlist
        (record m { container_path = codes "/workspace/extra/" ++ m.container_path })
unfolding validate_mount
validate_mount-IsSafe env allowlist cache mount m h e =
    elim (load_mount_allowlist-merged allowlist cache h).0 [
      | inl n ↦ absurd (some≢none (sym e ∙ rw (validate_mount, n) refl))
      | inr k ↦ checked-IsSafe env allowlist mount m (sym (rw (validate_mount, k) refl) ∙ e)
    ]

validate_mount-cache :
    (env : PathEnv) (file : AllowlistFile) (cache : AllowlistCache) (mount : AdditionalMount)
    → (validate_mount env file cache mount).0 ≡ (load_mount_allowlist file cache).0
unfolding validate_mount
validate_mount-cache env file cache mount =
    elim (Option-cases (load_mount_allowlist file cache).1) [
      | inl n ↦ rw (validate_mount, n) refl
      | inr (a, n) ↦ rw (validate_mount, n) refl
    ]

-- Every mount that is let through has a real path below an allowed root of the allowlist, one that
-- allows writing if the mount may write; the path contains no blocked pattern, neither a default one
-- nor one of the allowlist; and the path in the container is below /workspace/extra/, without `..`
-- and `:` behind that. The allowlist is what the file says, read now or cached before.
pub validate_additional_mounts-IsSafe :
    (env : PathEnv) (allowlist : MountAllowlist) (cache : AllowlistCache)
    (mounts : List AdditionalMount)
    → IsCacheOf allowlist cache
    → All (IsSafe env allowlist) (validate_additional_mounts env (valid allowlist) cache mounts).1
unfolding validate_additional_mounts validate_mount
validate_additional_mounts-IsSafe env allowlist cache [] h = tt
validate_additional_mounts-IsSafe env allowlist cache (mount ∷ mounts) h =
    mounted-IsSafe env allowlist (validate_mount env (valid allowlist) cache mount).1 _
      (λ m e. validate_mount-IsSafe env allowlist cache mount m h e)
      (validate_additional_mounts-IsSafe env allowlist
        (validate_mount env (valid allowlist) cache mount).0 mounts
        (rw (validate_mount-cache env (valid allowlist) cache mount)
          (load_mount_allowlist-merged allowlist cache h).1))

load_mount_allowlist-refused :
    (file : AllowlistFile) (cache : AllowlistCache)
    → cache.cached_allowlist ≡ none
    → (cache.load_error ≡ true) ⊎ (file ≡ missing) ⊎ (file ≡ invalid)
    → ((load_mount_allowlist file cache).1 ≡ none)
      × ((load_mount_allowlist file cache).0.cached_allowlist ≡ none)
      × (((load_mount_allowlist file cache).0.load_error ≡ true)
          ⊎ (file ≡ missing)
          ⊎ (file ≡ invalid))
load_mount_allowlist-refused file cache n h = elim (Bool-cases cache.load_error) [
  | inl b ↦ rw (load_mount_allowlist-failed file cache n b) (refl, n, inl b)
  | inr b ↦ elim h [
    | inl t ↦ absurd (true≢false (sym t ∙ b))
    | inr (inl m) ↦ rw (load_mount_allowlist-reads file cache n b, m) (refl, n, inr (inl refl))
    | inr (inr m) ↦ rw (load_mount_allowlist-reads file cache n b, m) (refl, n, inr (inr refl))
  ]
]

-- Without an allowlist nothing is let through: where the file is missing or not of the right form,
-- and, once it was not of the right form, whatever the file says later.
pub validate_additional_mounts-refused :
    (env : PathEnv) (file : AllowlistFile) (cache : AllowlistCache) (mounts : List AdditionalMount)
    → cache.cached_allowlist ≡ none
    → (cache.load_error ≡ true) ⊎ (file ≡ missing) ⊎ (file ≡ invalid)
    → (validate_additional_mounts env file cache mounts).1 ≡ []
unfolding validate_additional_mounts validate_mount load_mount_allowlist
validate_additional_mounts-refused env file cache [] n h = refl
validate_additional_mounts-refused env file cache (mount ∷ mounts) n h =
    let k = load_mount_allowlist-refused file cache n h in
    rw (validate_mount-cache env file cache mount, validate_mount, k.0)
      (validate_additional_mounts-refused env file (load_mount_allowlist file cache).0 mounts k.1
        k.2)
