-- ===== src/V2/Config/Files.antt =====
-- src/config.go: which files of a folder are configs, and how they are loaded.
use ipojknm.Prelude.{
  Bool, true, false, not, ◌||◌, ℕ, Option, none, some, List, [], ◌∷◌, ◌++◌, if◌then◌else◌,
}
use ipojknm.Prelude.Text.{GoString, bytes_of, str_eq}
use ipojknm.Prelude.Text.Digits.{atoi}
use ipojknm.Prelude.Split.{cut, found}
use ipojknm.Errors.{GoError, other, Outcome, ok, err, fault, continue}
use ipojknm.V2.Config.{
  JavaConfig, BedrockServerConfig, default_java_config, default_bedrock_server_config,
}

-- One call of the function that filepath.Walk is given: its path and what os.FileInfo says, or the
-- error that Walk passes on.
pub data Visit : Type 0 where
  visit_error : GoError → Visit
  visit : (path name : GoString) (is_dir : Bool) → Visit

-- The code outside the repository: os.ReadFile, json.Unmarshal into a config that holds the defaults,
-- filepath.Ext, and rand.Int63 for the config of a path.
pub record System : Type 0 where
  pub read_file : GoString → Outcome (List ℕ)
  pub parse_java : List ℕ → JavaConfig → Outcome JavaConfig
  pub parse_bedrock : List ℕ → BedrockServerConfig → Outcome BedrockServerConfig
  pub ext : GoString → GoString
  pub random : GoString → ℕ

abbrev pub main_config_file_name : GoString
main_config_file_name = bytes_of "ultraviolet.json"

abbrev pub bedrock_config_file_suffix : GoString
bedrock_config_file_suffix = bytes_of "_bedrock.json"

abbrev pub is_empty : GoString → Bool
is_empty [] = true
is_empty (c ∷ s) = false

-- The tests in the function that ReadBedrockConfigs gives to Walk, and in that of ReadJavaConfigs.
unfoldable pub is_bedrock_file : GoString → GoString → Bool → Bool
is_bedrock_file path name is_dir = if is_dir then false else found bedrock_config_file_suffix path

unfoldable pub is_java_file : System → GoString → GoString → Bool → Bool
is_java_file sys path name is_dir =
    if is_dir
    then false
    else if found bedrock_config_file_suffix path
    then false
    else if not (str_eq (sys.ext path) (bytes_of ".json"))
    then false
    else not (str_eq name main_config_file_name)

-- filepath.Walk with such a function: the paths that it keeps, up to the first error.
unfoldable pub walk :
    (GoString → GoString → Bool → Bool) → List Visit → List GoString → Outcome (List GoString)
walk keeps [] paths = ok paths
walk keeps (visit_error e ∷ visits) paths = err e
walk keeps (visit path name is_dir ∷ visits) paths =
    walk keeps visits (if keeps path name is_dir then paths ++ path ∷ [] else paths)

-- errors.New and fmt.Errorf in this file
abbrev pub must_be_set : GoError
must_be_set = other 2

abbrev pub bad_port : GoError
bad_port = other 3

-- LoadJavaServerConfig
unfoldable pub load_java_server_config : System → GoString → Outcome JavaConfig
load_java_server_config sys path = continue (sys.read_file path) (λ bb.
    continue (sys.parse_java bb default_java_config) (λ cfg.
      if is_empty cfg.base.listen_to || is_empty cfg.base.proxy_to
      then err must_be_set
      else ok cfg))

-- The element 1 of strings.SplitAfter(s, ":"): the text from the first colon to the next, with that
-- one. Without a colon there is none, and the index panics.
unfoldable pub second_part : GoString → Option GoString
second_part s = elim (cut (b':' ∷ []) s) [
  | none ↦ none
  | some (_, rest) ↦ elim (cut (b':' ∷ []) rest) [
    | none ↦ some rest
    | some (port, _) ↦ some (port ++ b':' ∷ [])
  ]
]

-- The port behind the tests of LoadBedrockServerConfig
unfoldable pub with_port : BedrockServerConfig → Option GoString → Outcome BedrockServerConfig
with_port cfg none = fault
with_port cfg (some port) =
    let (n, good) = atoi port in
    if good
    then ok (record cfg {
      server_status = record cfg.server_status {
        port = record cfg.server_status.port { ipv4 = n };
      };
    })
    else err bad_port

-- LoadBedrockServerConfig
unfoldable pub load_bedrock_server_config : System → GoString → Outcome BedrockServerConfig
unfolding with_port
load_bedrock_server_config sys path = continue (sys.read_file path) (λ bb.
    continue (sys.parse_bedrock bb (default_bedrock_server_config (sys.random path))) (λ cfg.
      if is_empty cfg.base.listen_to || is_empty cfg.base.proxy_to
      then err must_be_set
      else with_port cfg (second_part cfg.base.listen_to)))

-- The second loop of the two readers: the first file that does not load ends it.
unfoldable pub load_each {ℓ} :
    {A : Type ℓ} → (GoString → Outcome A) → List GoString → List A → Outcome (List A)
load_each load [] cfgs = ok cfgs
load_each load (path ∷ paths) cfgs =
    continue (load path) (λ cfg. load_each load paths (cfgs ++ cfg ∷ []))

-- ReadBedrockConfigs, ReadJavaConfigs
unfoldable pub read_bedrock_configs : System → List Visit → Outcome (List BedrockServerConfig)
unfolding walk load_each
read_bedrock_configs sys visits =
    continue (walk is_bedrock_file visits [])
      (λ paths. load_each (load_bedrock_server_config sys) paths [])

unfoldable pub read_java_configs : System → List Visit → Outcome (List JavaConfig)
unfolding walk load_each
read_java_configs sys visits =
    continue (walk (is_java_file sys) visits [])
      (λ paths. load_each (load_java_server_config sys) paths [])
