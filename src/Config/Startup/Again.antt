-- ===== src/Config/Startup/Again.antt =====
-- config/file.go: the main config, read twice.
use ipojknm.Prelude.{Option, none, some, ◌≡◌, refl}
use ipojknm.Prelude.Text.{GoString}
use ipojknm.Errors.{ok}
use ipojknm.Config.Keys.{FileError, absent, failed, found}
use ipojknm.Config.Ultraviolet.{UltravioletConfig, default_ultraviolet_config}
use ipojknm.Config.Startup.{
  Json, ConfigFolder, main_config_path, made_folder, saved, written, first_run, decode,
  stat_or_read, read_ultraviolet_config,
}

-- A file that was written is there and holds what was written.
pub record WritesFiles {S : Type 0} (folder : ConfigFolder S) : Type 0 where
  pub is_there :
      (path bb : GoString) (s s' : S)
      → folder.write_file path bb s ≡ some s'
      → folder.stat path s' ≡ none
  pub reads_back :
      (path bb : GoString) (s s' : S)
      → folder.write_file path bb s ≡ some s'
      → folder.read_file path s' ≡ found bb

module _ {S : Type 0} (folder : ConfigFolder S) (json : Json UltravioletConfig) (path : GoString)
    (laws : WritesFiles folder)
    (survives : (bb : GoString)
      → json.marshal default_ultraviolet_config ≡ some bb
      → json.unmarshal bb default_ultraviolet_config ≡ ok default_ultraviolet_config) where
  reads_default :
      (bb : GoString) (s s' : S)
      → json.marshal default_ultraviolet_config ≡ some bb
      → folder.write_file (main_config_path folder path) bb s ≡ some s'
      → read_ultraviolet_config folder json path s' ≡ (ok default_ultraviolet_config, s')
  unfolding read_ultraviolet_config stat_or_read decode
  reads_default bb s s' m w =
      simp (laws.is_there _ bb s s' w, laws.reads_back _ bb s s' w, survives bb m) refl

  saved_again :
      (bb : GoString) (s : S) (o : Option S) (cfg : UltravioletConfig) (s' : S)
      → json.marshal default_ultraviolet_config ≡ some bb
      → folder.write_file (main_config_path folder path) bb s ≡ o
      → saved s o ≡ (ok cfg, s')
      → read_ultraviolet_config folder json path s' ≡ (ok cfg, s')
  unfolding saved
  saved_again bb s none cfg s' m w e = cc
  saved_again bb s (some s'') cfg s' m w e = cc (reads_default bb s s'' m w)

  written_again :
      (s : S) (o : Option GoString) (cfg : UltravioletConfig) (s' : S)
      → json.marshal default_ultraviolet_config ≡ o
      → written folder path s o ≡ (ok cfg, s')
      → read_ultraviolet_config folder json path s' ≡ (ok cfg, s')
  unfolding written
  written_again s none cfg s' m e = cc
  written_again s (some bb) cfg s' m e = saved_again bb s _ cfg s' m refl e

  first_again :
      (s : S) (o : Option S) (cfg : UltravioletConfig) (s' : S)
      → first_run folder json path s o ≡ (ok cfg, s')
      → read_ultraviolet_config folder json path s' ≡ (ok cfg, s')
  unfolding first_run
  first_again s none cfg s' e = cc
  first_again s (some s'') cfg s' e = written_again s'' _ cfg s' refl e

  read_again :
      (s : S) (o : Option FileError) (cfg : UltravioletConfig) (s' : S)
      → folder.stat (main_config_path folder path) s ≡ o
      → stat_or_read folder json path s o ≡ (ok cfg, s')
      → read_ultraviolet_config folder json path s' ≡ (ok cfg, s')
  unfolding stat_or_read read_ultraviolet_config
  read_again s (some absent) cfg s' there e =
      first_again s (made_folder folder path s (folder.stat path s)) cfg s' e
  read_again s (some (failed x)) cfg s' there e = cc
  read_again s none cfg s' there e = cc

  -- Whatever stands on the disk, and whether the folder and the file of the main config are there or
  -- are made by this run: where a read of the main config gives a config, a second read in the state
  -- that the first leaves gives the same config and changes nothing more. This wants that a file that
  -- was written holds what was written, and that the default config survives JSON.
  pub read_ultraviolet_config_again :
      (s : S) (cfg : UltravioletConfig) (s' : S)
      → read_ultraviolet_config folder json path s ≡ (ok cfg, s')
      → read_ultraviolet_config folder json path s' ≡ (ok cfg, s')
  read_ultraviolet_config_again s cfg s' e =
      read_again s (folder.stat (main_config_path folder path) s) cfg s' refl
        (unfold read_ultraviolet_config in e)
