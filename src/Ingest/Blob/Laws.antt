-- ===== src/Ingest/Blob/Laws.antt =====
-- Where the paths of blobs lie.
use interview_analytics_agen.Common.{
  ℕ, zero, suc, ◌≡◌, ◌≢◌, refl, ap, ◌∙◌, starts_with, lstrip_slashes, inl, inr, String, true, false,
  ◌||◌, Option, none, some, List, [], ◌∷◌, ◌==◌, contains, is_empty, split_slashes, eq_iff,
  if◌then◌else◌, arith,
}
use interview_analytics_agen.Common.Exec.{ok, Result-cases}
use interview_analytics_agen.Settings.{Settings}
use interview_analytics_agen.Ingest.Blob.{key_path, is_prod, storage_mode, base_dir, key_to_path}

-- Walking the parts of a relative path from a depth below the directory, as a file system does: `none`
-- where the walk leaves the directory.
pub walk : List String → ℕ → Option ℕ
walk [] depth = some depth
walk (part ∷ parts) zero =
    let here = walk parts zero in
    let below = walk parts 1 in
    if part == ".." then none else if part == "." || is_empty part then here else below
walk (part ∷ parts) (suc depth) =
    let up = walk parts depth in
    let here = walk parts (suc depth) in
    let below = walk parts (suc (suc depth)) in
    if part == ".." then up else if part == "." || is_empty part then here else below

-- Joining a path to the directory and walking it: an absolute path replaces the directory, so it leaves
-- it at once.
pub walk_path : String → Option ℕ
unfolding walk split_slashes
walk_path path = if starts_with path "/" then none else walk (split_slashes path) 0

lstrip_slashes-relative : (s : String) → starts_with (lstrip_slashes s) "/" ≡ false
unfolding lstrip_slashes
lstrip_slashes-relative String.[] = refl
lstrip_slashes-relative (String.◌∷◌ c s) = ground (arith, lstrip_slashes-relative s)

relative : (key path : String) → key_path key ≡ ok path → starts_with path "/" ≡ false
unfolding key_path
relative key path h =
    let same : lstrip_slashes key ≡ path = ground arith in rw (← same) (lstrip_slashes-relative key)

walk_below :
    (parts : List String) (depth : ℕ) → contains parts ".." ≡ false → walk parts depth ≢ none
unfolding walk contains
walk_below [] depth h = λ e. absurd (ground arith)
walk_below (part ∷ parts) zero h =
    λ e. absurd (ground (arith, walk_below parts zero, walk_below parts 1))
walk_below (part ∷ parts) (suc depth) h =
    λ e. absurd (ground (arith, walk_below parts (suc depth), walk_below parts (suc (suc depth))))

accepted_parts :
    (key path : String) → key_path key ≡ ok path → contains (split_slashes path) ".." ≡ false
unfolding key_path
accepted_parts key path h = ground arith

module _ (s : Settings) (env : String) where
  key_to_path-key_path :
      (key root path : String)
      → key_to_path s env key ≡ ok (root, path)
      → (key_path key ≡ ok path) × (base_dir s env ≡ ok root)
  unfolding key_to_path
  key_to_path-key_path key root path h = ground arith

  -- A key that is accepted names a path that is relative, and that never leaves the storage directory
  -- on its way, however its parts are walked.
  pub stays_below :
      (key root path : String) → key_to_path s env key ≡ ok (root, path) → walk_path path ≢ none
  unfolding walk_path
  stays_below key root path h =
      let accepted = (key_to_path-key_path key root path h).0 in
      rw (relative key path accepted)
        (walk_below (split_slashes path) 0 (accepted_parts key path accepted))

  shared_mode :
      (mode : String)
      → is_prod s ≡ true
      → s.storage_require_shared_in_prod ≡ true
      → storage_mode s ≡ ok mode
      → mode ≡ "shared_fs"
  unfolding storage_mode
  shared_mode mode p r h = ground (arith, eq_iff mode "shared_fs")

  -- In production with shared storage required, a blob is only kept in the shared mode.
  pub prod_shared :
      (key root path : String)
      → is_prod s ≡ true
      → s.storage_require_shared_in_prod ≡ true
      → key_to_path s env key ≡ ok (root, path)
      → storage_mode s ≡ ok "shared_fs"
  unfolding base_dir
  prod_shared key root path p r h =
      let b = (key_to_path-key_path key root path h).1 in
      elim (Result-cases (storage_mode s)) [
        | inl (mode, e) ↦ e ∙ ap ok (shared_mode mode p r e)
        | inr (x, e) ↦ absurd (ground arith)
      ]
