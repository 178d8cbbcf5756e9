-- ===== src/Config/Startup.antt =====
-- config/file.go and config/file_reader.go: the main config, read from its file or written there on
-- the first run, and how two configs are combined. encoding/json is a parameter.
pub mod Again
use ipojknm.Prelude.{Option, none, some, ◌≡◌}
use ipojknm.Prelude.Text.{GoString}
use ipojknm.Errors.{GoError, Outcome, ok, err, fault}
use ipojknm.Config.{ServerConfig}
use ipojknm.Config.Keys.{FileError, absent, failed, Content, found, missed}
use ipojknm.Config.Reader.{main_config_file_name}
use ipojknm.Config.Ultraviolet.{UltravioletConfig, default_ultraviolet_config}

-- json.Marshal of a config, none for an error, and json.Unmarshal into a config that has values.
pub record Json (A : Type 0) : Type 0 where
  pub marshal : A → Option GoString
  pub unmarshal : GoString → A → Outcome A

-- os.Stat, ReadFile, MkdirAll and WriteFile, and filepath.Join; none where a write fails.
pub record ConfigFolder (S : Type 0) : Type 0 where
  pub stat : GoString → S → Option FileError
  pub read_file : GoString → S → Content
  pub mkdir_all : GoString → S → Option S
  pub write_file : GoString → GoString → S → Option S
  pub join : GoString → GoString → GoString

-- The errors of json.Marshal and os.WriteFile, ErrCantCombineConfigs, and os.ErrNotExist
abbrev pub not_encoded : GoError
not_encoded = GoError.other 11

abbrev pub not_written : GoError
not_written = GoError.other 12

abbrev pub cant_combine_configs : GoError
cant_combine_configs = GoError.other 13

abbrev pub no_such_file : GoError
no_such_file = GoError.other 14

-- os.MkdirAll where there is no folder; its error is fatal, which is none here.
made_folder : {S : Type 0} → ConfigFolder S → GoString → S → Option FileError → Option S
made_folder folder path s (some absent) = folder.mkdir_all path s
made_folder folder path s (some (failed e)) = some s
made_folder folder path s none = some s

unfoldable pub main_config_path : {S : Type 0} → ConfigFolder S → GoString → GoString
main_config_path folder path = folder.join path main_config_file_name

-- The file is written; what a failed write leaves is not looked at again.
saved : {S : Type 0} → S → Option S → Outcome UltravioletConfig × S
saved s none = (err not_written, s)
saved s (some s') = (ok default_ultraviolet_config, s')

written :
    {S : Type 0} → ConfigFolder S → GoString → S → Option GoString → Outcome UltravioletConfig × S
unfolding saved
written folder path s none = (err not_encoded, s)
written folder path s (some bb) = saved s (folder.write_file (main_config_path folder path) bb s)

-- The first run: log.Fatal, which ends the process, stands as a fault.
first_run :
    {S : Type 0}
    → ConfigFolder S
    → Json UltravioletConfig
    → GoString
    → S
    → Option S
    → Outcome UltravioletConfig × S
unfolding written
first_run folder json path s none = (fault, s)
first_run folder json path s (some s') =
    written folder path s' (json.marshal default_ultraviolet_config)

decode : Json UltravioletConfig → Content → Outcome UltravioletConfig
decode json (found bb) = json.unmarshal bb default_ultraviolet_config
decode json (missed absent) = err no_such_file
decode json (missed (failed e)) = err e

-- Only a file that is not there is written; another failure of Stat is left to ReadFile.
stat_or_read :
    {S : Type 0}
    → ConfigFolder S
    → Json UltravioletConfig
    → GoString
    → S
    → Option FileError
    → Outcome UltravioletConfig × S
unfolding first_run made_folder decode
stat_or_read folder json path s (some absent) =
    first_run folder json path s (made_folder folder path s (folder.stat path s))
stat_or_read folder json path s (some (failed e)) =
    (decode json (folder.read_file (main_config_path folder path) s), s)
stat_or_read folder json path s none =
    (decode json (folder.read_file (main_config_path folder path) s), s)

-- ReadUltravioletConfig, which uvConfigFileReader.Read calls with its path
unfoldable pub read_ultraviolet_config :
    {S : Type 0}
    → ConfigFolder S
    → Json UltravioletConfig
    → GoString
    → S
    → Outcome UltravioletConfig × S
unfolding stat_or_read
read_ultraviolet_config folder json path s =
    stat_or_read folder json path s (folder.stat (main_config_path folder path) s)

-- NewUVReader: the function that gives a config that the caller has.
unfoldable pub new_uv_reader : UltravioletConfig → Outcome UltravioletConfig
new_uv_reader cfg = ok cfg

overlaid : {A : Type 0} → Outcome A → Outcome A
overlaid (ok cfg) = ok cfg
overlaid (err e) = err cant_combine_configs
overlaid fault = fault

-- The new config is written over the old one.
combine_configs : {A : Type 0} → Json A → A → A → Outcome A
unfolding overlaid
combine_configs json old new = elim (json.marshal new) [
  | none ↦ err cant_combine_configs
  | some bb ↦ overlaid (json.unmarshal bb old)
]

unfoldable pub combine_ultraviolet_configs :
    Json UltravioletConfig → UltravioletConfig → UltravioletConfig → Outcome UltravioletConfig
unfolding combine_configs
combine_ultraviolet_configs json old new = combine_configs json old new

unfoldable pub combine_server_configs :
    Json ServerConfig → ServerConfig → ServerConfig → Outcome ServerConfig
unfolding combine_configs
combine_server_configs json old new = combine_configs json old new
