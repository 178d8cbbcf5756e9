-- ===== src/Config/Keys.antt =====
-- config/file.go: the RealIP keys on the disk, and ServerToBackendConfig where it reads and writes
-- them. The disk is a state that only its operations look into; crypto/ecdsa and crypto/x509 are
-- parameters.
pub mod Kept
use ipojknm.Prelude.{Option, none, some, ◌≡◌, List, [], ◌∷◌, ◌++◌, if◌then◌else◌}
use ipojknm.Prelude.Text.{GoString, bytes_of}
use ipojknm.Errors.{GoError, Outcome, ok, err, fault, continue}
use ipojknm.Config.{ServerConfig, BackendWorkerConfig, PrivateKey}
use ipojknm.Config.Convert.{Outside, KeyFile, key, not_exist, unreadable, server_to_backend_config}

-- What os.IsNotExist and errors.Is(err, os.ErrNotExist) tell apart.
pub data FileError : Type 0 where
  absent : FileError
  failed : GoError → FileError

pub data Content : Type 0 where
  found : GoString → Content
  missed : FileError → Content

-- The packages os, ioutil and filepath. `create` is os.Create, Write and Close: none where the file
-- was not made, since the calls on the nil *os.File only give errors, which are logged.
pub record FileSystem (S : Type 0) : Type 0 where
  pub stat : GoString → S → Option FileError
  pub read_file : GoString → S → Content
  pub create : GoString → GoString → S → Option S
  pub dir : GoString → GoString
  pub join : GoString → GoString → GoString

-- ecdsa.GenerateKey, which gives one key or an error here; x509's encodings of a key and of its
-- public part, and ParseECPrivateKey.
pub record Crypto : Type 0 where
  pub generate_key : Option PrivateKey
  pub marshal_private_key : PrivateKey → Option GoString
  pub marshal_public_key : PrivateKey → Option GoString
  pub parse_private_key : GoString → Option PrivateKey

-- An error of x509
abbrev pub not_a_key : GoError
not_a_key = GoError.other 10

parsed : Option PrivateKey → KeyFile
parsed (some k) = key k
parsed none = unreadable not_a_key

key_in : Crypto → Content → KeyFile
unfolding parsed
key_in crypto (found bb) = parsed (crypto.parse_private_key bb)
key_in crypto (missed absent) = not_exist
key_in crypto (missed (failed e)) = unreadable e

-- ReadPrivateKey
unfoldable pub read_private_key : {S : Type 0} → FileSystem S → Crypto → GoString → S → KeyFile
unfolding key_in
read_private_key fs crypto path s = key_in crypto (fs.read_file path s)

-- `filepath.Join(dir, fmt.Sprintf("%s-%s", cfg.Domains[0], suffix))`; no domain is a panic.
unfoldable pub key_file_name :
    {S : Type 0} → FileSystem S → ServerConfig → List GoString → GoString → Outcome GoString
key_file_name fs cfg [] suffix = fault
key_file_name fs cfg (d ∷ ds) suffix =
    ok (fs.join (fs.dir cfg.file_path) (d ++ (bytes_of "-" ++ suffix)))

-- A key that cannot be read is logged, and there is none.
usable_key : KeyFile → Option PrivateKey
usable_key (key k) = some k
usable_key not_exist = none
usable_key (unreadable e) = none

-- A Stat that fails for another reason does not stop the read.
key_at : {S : Type 0} → FileSystem S → Crypto → GoString → S → Option FileError → Option PrivateKey
unfolding usable_key read_private_key
key_at fs crypto path s (some absent) = none
key_at fs crypto path s (some (failed e)) = usable_key (read_private_key fs crypto path s)
key_at fs crypto path s none = usable_key (read_private_key fs crypto path s)

-- CheckExistingGeneratedKey
unfoldable pub check_existing_generated_key :
    {S : Type 0} → FileSystem S → Crypto → ServerConfig → S → Outcome (Option PrivateKey)
unfolding key_at
check_existing_generated_key fs crypto cfg s =
    continue (key_file_name fs cfg cfg.domains (bytes_of "private.key"))
      (λ path. ok (key_at fs crypto path s (fs.stat path s)))

-- The bytes that are written; a failed encoding gives none.
unfoldable pub bytes_or_none : Option GoString → GoString
bytes_or_none none = []
bytes_or_none (some bb) = bb

-- One of the two blocks of GenerateKeys that save a key.
unfoldable pub save_key : {S : Type 0} → FileSystem S → GoString → Option GoString → S → S
save_key fs path encoded s = elim (fs.create path (bytes_or_none encoded) s) [
  | none ↦ s
  | some s' ↦ s'
]

generated :
    {S : Type 0}
    → FileSystem S
    → Crypto
    → ServerConfig
    → S
    → Option PrivateKey
    → Outcome (Option PrivateKey × S)
unfolding save_key
generated fs crypto cfg s none = ok (none, s)
generated fs crypto cfg s (some k) =
    continue (key_file_name fs cfg cfg.domains (bytes_of "private.key")) (λ private.
      continue (key_file_name fs cfg cfg.domains (bytes_of "public.key")) (λ public. ok (
        some k,
        save_key fs public (crypto.marshal_public_key k)
            (save_key fs private (crypto.marshal_private_key k) s),
      )))

-- GenerateKeys
unfoldable pub generate_keys :
    {S : Type 0} → FileSystem S → Crypto → ServerConfig → S → Outcome (Option PrivateKey × S)
unfolding generated
generate_keys fs crypto cfg s = generated fs crypto cfg s crypto.generate_key

-- What the conversion sees of a disk that stands.
unfoldable pub outside_on : {S : Type 0} → FileSystem S → Crypto → Outside → S → Outside
outside_on fs crypto out s = record out {
  read_private_key = λ path. read_private_key fs crypto path s;
  existing_key = λ cfg. check_existing_generated_key fs crypto cfg s;
  generate_keys = λ cfg. continue (generate_keys fs crypto cfg s) (λ r. ok r.0);
}

-- The disk behind the conversion: only a key that is neither configured nor kept is generated.
disk_after_check :
    {S : Type 0} → FileSystem S → Crypto → ServerConfig → S → Option PrivateKey → Outcome S
disk_after_check fs crypto cfg s (some k) = ok s
disk_after_check fs crypto cfg s none = continue (generate_keys fs crypto cfg s) (λ r. ok r.1)

disk_after_read : {S : Type 0} → FileSystem S → Crypto → ServerConfig → S → KeyFile → Outcome S
unfolding disk_after_check
disk_after_read fs crypto cfg s (key k) = ok s
disk_after_read fs crypto cfg s (unreadable e) = err e
disk_after_read fs crypto cfg s not_exist =
    continue (check_existing_generated_key fs crypto cfg s)
      (λ known. disk_after_check fs crypto cfg s known)

unfoldable pub disk_after : {S : Type 0} → FileSystem S → Crypto → ServerConfig → S → Outcome S
unfolding disk_after_read
disk_after fs crypto cfg s =
    if cfg.new_real_ip
    then disk_after_read fs crypto cfg s (read_private_key fs crypto cfg.real_ip_key s)
    else ok s

-- ServerToBackendConfig with the disk before and behind it
unfoldable pub server_to_backend_config_on :
    {S : Type 0}
    → FileSystem S
    → Crypto
    → Outside
    → ServerConfig
    → S
    → Outcome (BackendWorkerConfig × S)
server_to_backend_config_on fs crypto out cfg s =
    continue (server_to_backend_config (outside_on fs crypto out s) cfg)
      (λ w. continue (disk_after fs crypto cfg s) (λ s'. ok (w, s')))
