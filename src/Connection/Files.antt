-- ===== src/Connection/Files.antt =====
-- src/internal/connection/atomic.go, and the installation of a configuration (service.go). The
-- package os is the parameter `Os`: each call changes the machine and has an error or not.
use blacktemple_kn.Prelude.{
  Bool, ◌||◌, if◌then◌else◌, Option, none, some, is_some, ◌++◌, Text, codes,
}
use blacktemple_kn.Strings.{to_lower, contains, trim_suffix}
use blacktemple_kn.Connection.Errors.{Error, missing_xray, validate, other}

-- An error of the validation, and whether it is `os.ErrNotExist`.
pub record Failure : Type 0 where
  pub text : Text
  pub not_exist : Bool

pub record Os (W : Type 0) : Type 0 where
  pub make_dir : Text → W → W × Option Text
  pub open_file : Text → W → W × Option Text
  pub write : Text → Text → W → W × Option Text
  pub sync : Text → W → W × Option Text
  pub close : Text → W → W × Option Text
  pub remove : Text → W → W × Option Text
  pub rename : Text → Text → W → W × Option Text
  pub stat : Text → W → Option Text

unfoldable pub missing_executable : Failure → Bool
unfolding to_lower contains
missing_executable f =
    let msg = to_lower f.text in
    contains msg (codes "executable path is empty")
    || contains msg (codes "executable:")
    || f.not_exist

unfoldable pub temporary : Text → Text
unfolding trim_suffix
temporary path = trim_suffix path (codes ".json") ++ codes ".new.json"

abbrev pub backup_of : Text → Text
backup_of dest = dest ++ codes ".bak"

module _ {W : Type 0} (os : Os W) where
  -- The file is closed and removed after an error.
  abbrev given_up : Text → W → Option Text → W × Option Text
  given_up path w e = ((os.remove path (os.close path w).0).0, e)

  unfoldable pub synced : Text → W × Option Text → W × Option Text
  synced path (w, some e) = given_up path w (some e)
  synced path (w, none) = os.close path w

  unfoldable pub wrote : Text → W × Option Text → W × Option Text
  unfolding synced
  wrote path (w, some e) = given_up path w (some e)
  wrote path (w, none) = synced path (os.sync path w)

  unfoldable pub opened : Text → Text → W × Option Text → W × Option Text
  unfolding wrote
  opened path data_ (w, some e) = (w, some e)
  opened path data_ (w, none) = wrote path (os.write path data_ w)

  unfoldable pub made_dir : Text → Text → W × Option Text → W × Option Text
  unfolding opened
  made_dir path data_ (w, some e) = (w, some e)
  made_dir path data_ (w, none) = opened path data_ (os.open_file path w)

  -- `make_dir` takes the path of the file.
  unfoldable pub write_file_sync : Text → Text → W → W × Option Text
  unfolding made_dir
  write_file_sync path data_ w = made_dir path data_ (os.make_dir path w)

  unfoldable pub put_back : Text → W × Option Text → W × Option Text
  put_back dest (w, none) = (w, none)
  put_back dest (w, some e) = (
    if is_some (os.stat (backup_of dest) w) then w else (os.rename (backup_of dest) dest w).0,
    some e,
  )

  unfoldable pub backed_up : Text → Text → W × Option Text → W × Option Text
  unfolding put_back
  backed_up tmp dest (w, some e) = (w, some e)
  backed_up tmp dest (w, none) = put_back dest (os.rename tmp dest w)

  unfoldable pub replace_file : Text → Text → W → W × Option Text
  unfolding backed_up
  replace_file tmp dest w =
      let bak = backup_of dest in
      if is_some (os.stat dest w)
      then backed_up tmp dest (w, none)
      else backed_up tmp dest (os.rename dest bak (os.remove bak w).0)

  unfoldable pub restore_backup : Text → W → W × Option Text
  restore_backup dest w = elim (os.stat (backup_of dest) w) [
    | some e ↦ (w, some e)
    | none ↦ os.rename (backup_of dest) dest (os.remove dest w).0
  ]

  unfoldable pub replaced : Text → W × Option Text → W × Option Error
  replaced tmp (w, none) = (w, none)
  replaced tmp (w, some e) = ((os.remove tmp w).0, some (other e))

  unfoldable pub validated : Text → Text → W → Option Failure → W × Option Error
  unfolding missing_executable replaced replace_file
  validated path tmp w none = replaced tmp (replace_file tmp path w)
  validated path tmp w (some f) = (
    (os.remove tmp w).0,
    some (if missing_executable f then missing_xray f.text else validate f.text),
  )

  unfoldable pub wrote_config :
      (Text → W → Option Failure) → Text → W × Option Text → W × Option Error
  unfolding temporary validated
  wrote_config check path (w, some e) = (w, some (other e))
  wrote_config check path (w, none) = validated path (temporary path) w (check (temporary path) w)

  -- `installConfigLocked`; `check` is the engine's ValidateConfig.
  unfoldable pub install_config : (Text → W → Option Failure) → Text → Text → W → W × Option Error
  unfolding temporary wrote_config write_file_sync
  install_config check path raw w = wrote_config check path (write_file_sync (temporary path) raw w)
