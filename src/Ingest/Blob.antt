-- ===== src/Ingest/Blob.antt =====
-- src/interview_analytics_agent/storage/blob.py: where a blob is kept. The file system is a
-- parameter of the ingest; `Path.resolve` and the environment's CHUNKS_DIR are arguments here.
pub mod Laws
use interview_analytics_agen.Common.{
  ℕ, String, Bool, true, false, ◌&&◌, ◌||◌, not, List, [], ◌∷◌, ◌==◌, contains, normalize, strip,
  is_empty, lstrip_slashes, split_slashes, if◌then◌else◌,
}
use interview_analytics_agen.Common.Exec.{Result, ok, raised}
use interview_analytics_agen.Settings.{Settings}

-- The exceptions of an ingest; a ProviderError has its message.
pub data Exc : Type 0 where
  invalid_key decode_failed : Exc
  provider_error other_exception : String → Exc

-- The part of a key that is joined to the directory; `".." in key.split("/")` is refused.
unfoldable pub key_path : String → Result Exc String
unfolding lstrip_slashes split_slashes contains
key_path key =
    if contains (split_slashes (lstrip_slashes key)) ".."
    then raised invalid_key
    else ok (lstrip_slashes key)

module _ (s : Settings) where
  pub is_prod : Bool
  unfolding normalize
  is_prod = normalize s.app_env == "prod" || normalize s.app_env == "production"

  -- `_storage_mode`
  unfoldable pub storage_mode : Result Exc String
  unfolding is_prod normalize
  storage_mode =
      let mode = normalize (if is_empty s.storage_mode then "local_fs" else s.storage_mode) in
      if not (mode == "local_fs" || mode == "shared_fs")
      then raised (provider_error "unknown STORAGE_MODE")
      else if is_prod && (s.storage_require_shared_in_prod && not (mode == "shared_fs"))
      then raised (provider_error "STORAGE_MODE=shared_fs is required in APP_ENV=prod")
      else ok mode

  or_else : String → String → String
  or_else a b = if is_empty a then b else a

  root_of : String → Result Exc String → Result Exc String
  unfolding or_else strip
  root_of chunks_dir_env (raised e) = raised e
  root_of chunks_dir_env (ok mode) =
      let root =
        if mode == "shared_fs"
        then strip (or_else s.storage_shared_fs_dir s.chunks_dir)
        else strip (or_else s.chunks_dir chunks_dir_env) in
      ok (or_else root "./data/chunks")

  -- `_base_dir`, before `Path.resolve`.
  unfoldable pub base_dir : String → Result Exc String
  unfolding storage_mode root_of
  base_dir chunks_dir_env = root_of chunks_dir_env storage_mode

  path_under : String → Result Exc String → Result Exc (String × String)
  path_under path (raised e) = raised e
  path_under path (ok root) = ok (root, path)

  path_of : String → Result Exc String → Result Exc (String × String)
  unfolding base_dir path_under
  path_of chunks_dir_env (raised e) = raised e
  path_of chunks_dir_env (ok path) = path_under path (base_dir chunks_dir_env)

  -- `_key_to_path`: the directory, and the path under it.
  unfoldable pub key_to_path : String → String → Result Exc (String × String)
  unfolding key_path path_of
  key_to_path chunks_dir_env key = path_of chunks_dir_env (key_path key)
