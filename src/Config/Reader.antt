-- ===== src/Config/Reader.antt =====
-- config/file_reader.go: the server configs of a folder, read and then verified.
pub mod Accepted
use ipojknm.Prelude.{
  Bool, true, false, not, ℕ, Option, none, some, List, [], ◌∷◌, ◌++◌, if◌then◌else◌,
}
use ipojknm.Prelude.Text.{GoString, bytes_of, str_eq}
use ipojknm.Errors.{GoError, other, Outcome, ok, err, fault, continue}
use ipojknm.Config.{ServerConfig, default_server_config}
use ipojknm.Config.Verify.{verify_configs, VerifyError}

-- One call of the function that filepath.Walk is given: its path, os.FileInfo's name and whether it is
-- a folder; or the error that Walk passes on.
pub data Visit : Type 0 where
  visit_error : GoError → Visit
  visit : (path name : GoString) (is_dir : Bool) → Visit

-- The code outside the repository: ioutil.ReadFile, json.Unmarshal over the defaults, filepath.Ext.
pub record Disk : Type 0 where
  pub read_file : GoString → Outcome (List ℕ)
  pub unmarshal : List ℕ → ServerConfig → Outcome ServerConfig
  pub ext : GoString → GoString

abbrev pub main_config_file_name : GoString
main_config_file_name = bytes_of "ultraviolet.json"

-- ErrNoConfigFiles, and what VerifyConfigs returns where it has collected errors
abbrev pub no_config_files : GoError
no_config_files = other 6

abbrev pub not_verified : GoError
not_verified = other 7

-- The function that ReadServerConfigs gives to Walk keeps this path.
unfoldable pub is_server_file : Disk → GoString → GoString → Bool → Bool
is_server_file disk path name is_dir =
    if is_dir
    then false
    else if not (str_eq (disk.ext path) (bytes_of ".json"))
    then false
    else not (str_eq name main_config_file_name)

-- The paths that were kept, and the error that ended the walk.
unfoldable pub walk : Disk → List Visit → List GoString → List GoString × Option GoError
walk disk [] paths = (paths, none)
walk disk (visit_error e ∷ visits) paths = (paths, some e)
walk disk (visit path name is_dir ∷ visits) paths =
    walk disk visits (if is_server_file disk path name is_dir then paths ++ path ∷ [] else paths)

-- LoadServerCfgFromPath
unfoldable pub load_server_cfg_from_path : Disk → GoString → Outcome ServerConfig
load_server_cfg_from_path disk path = continue (disk.read_file path) (λ bb.
    continue (disk.unmarshal bb default_server_config)
      (λ cfg. ok (record cfg { file_path = path })))

-- The second loop of ReadServerConfigs.
unfoldable pub load_each : Disk → List GoString → List ServerConfig → Outcome (List ServerConfig)
load_each disk [] cfgs = ok cfgs
load_each disk (path ∷ paths) cfgs =
    continue (load_server_cfg_from_path disk path) (λ cfg. load_each disk paths (cfgs ++ cfg ∷ []))

walked : Disk → List GoString × Option GoError → Outcome (List ServerConfig)
walked disk ([], e) = err no_config_files
walked disk (path ∷ paths, some e) = err e
walked disk (path ∷ paths, none) = load_each disk (path ∷ paths) []

-- ReadServerConfigs
unfoldable pub read_server_configs : Disk → List Visit → Outcome (List ServerConfig)
unfolding walked
read_server_configs disk visits = walked disk (walk disk visits [])

accept : List ServerConfig → List VerifyError → Outcome (List ServerConfig)
accept cfgs [] = ok cfgs
accept cfgs (e ∷ es) = err not_verified

-- backendConfigFileReader.Read with VerifyConfigs as its verifier
unfoldable pub read : Disk → List Visit → Outcome (List ServerConfig)
unfolding accept
read disk visits =
    continue (read_server_configs disk visits) (λ cfgs. accept cfgs (verify_configs cfgs))
