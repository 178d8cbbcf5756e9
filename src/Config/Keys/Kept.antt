-- ===== src/Config/Keys/Kept.antt =====
-- config/file.go: a generated key is found again.
use ipojknm.Prelude.{true, Option, none, some, ◌≡◌, refl, List, [], ◌∷◌, ◌++◌}
use ipojknm.Prelude.Text.{GoString, bytes_of}
use ipojknm.Errors.{ok}
use ipojknm.Config.{ServerConfig, BackendWorkerConfig, PrivateKey}
use ipojknm.Config.Convert.{
  Outside, not_exist, key, server_to_backend_config, converted, name_of, key_of, real_ip_key_of,
}
use ipojknm.Config.Keys.{
  FileSystem, Crypto, absent, found, missed, read_private_key, key_file_name,
  check_existing_generated_key, key_at, usable_key, key_in, parsed, save_key, bytes_or_none,
  generated, generate_keys, outside_on, disk_after, disk_after_read, disk_after_check,
  server_to_backend_config_on,
}

-- What is written to a file is what the file then holds, and the files that a path names apart from
-- it stay as they are. `Apart` says of two paths that they name different files: two spellings of one
-- path do not.
pub record KeepsFiles {S : Type 0} (fs : FileSystem S) (Apart : GoString → GoString → Type 0)
    : Type 0 where
  pub reads_back :
      (path bb : GoString) (s s' : S)
      → fs.create path bb s ≡ some s'
      → fs.read_file path s' ≡ found bb
  pub is_there :
      (path bb : GoString) (s s' : S) → fs.create path bb s ≡ some s' → fs.stat path s' ≡ none
  pub others_stay :
      (path bb other : GoString) (s s' : S)
      → fs.create path bb s ≡ some s'
      → Apart path other
      → (fs.read_file other s' ≡ fs.read_file other s) × (fs.stat other s' ≡ fs.stat other s)

has_name :
    (name d : GoString) (ds : List GoString) → (n : GoString) × (name_of name (d ∷ ds) ≡ ok n)
unfolding name_of
has_name [] d ds = (d, refl)
has_name (c ∷ name) d ds = (c ∷ name, refl)

-- The second file of GenerateKeys leaves the others alone, also where it is not made.
saved_apart :
    {S : Type 0} (fs : FileSystem S) (Apart : GoString → GoString → Type 0) (path other : GoString)
    (encoded : Option GoString) (s : S)
    → KeepsFiles fs Apart
    → Apart path other
    → (fs.read_file other (save_key fs path encoded s) ≡ fs.read_file other s)
      × (fs.stat other (save_key fs path encoded s) ≡ fs.stat other s)
unfolding save_key
saved_apart fs Apart path other encoded s laws apart =
    by_created (fs.create path (bytes_or_none encoded) s) refl
  where
    by_created :
        (o : Option _)
        → fs.create path (bytes_or_none encoded) s ≡ o
        → (fs.read_file other (save_key fs path encoded s) ≡ fs.read_file other s)
          × (fs.stat other (save_key fs path encoded s) ≡ fs.stat other s)
    by_created none e = rw (save_key, e) (refl, refl)
    by_created (some s') e =
        rw (save_key, e) (laws.others_stay path (bytes_or_none encoded) other s s' e apart)

abbrev pub private_path : {S : Type 0} → FileSystem S → ServerConfig → GoString → GoString
private_path fs cfg d =
    fs.join (fs.dir cfg.file_path) (d ++ (bytes_of "-" ++ bytes_of "private.key"))

abbrev pub public_path : {S : Type 0} → FileSystem S → ServerConfig → GoString → GoString
public_path fs cfg d = fs.join (fs.dir cfg.file_path) (d ++ (bytes_of "-" ++ bytes_of "public.key"))

module _ {S : Type 0} (fs : FileSystem S) (crypto : Crypto) (next : Option PrivateKey)
    (out : Outside) (cfg : ServerConfig) (d : GoString) (ds : List GoString) (k : PrivateKey)
    (bb : GoString) (s s1 : S) (Apart : GoString → GoString → Type 0) (laws : KeepsFiles fs Apart)
    (named : cfg.domains ≡ d ∷ ds) (wanted : cfg.new_real_ip ≡ true)
    (unset : fs.read_file cfg.real_ip_key s ≡ missed absent)
    (fresh : fs.stat (private_path fs cfg d) s ≡ some absent) (made : crypto.generate_key ≡ some k)
    (encoded : crypto.marshal_private_key k ≡ some bb)
    (decoded : crypto.parse_private_key bb ≡ some k)
    (created : fs.create (private_path fs cfg d) bb s ≡ some s1)
    (paths_apart : Apart (public_path fs cfg d) (private_path fs cfg d))
    (elsewhere : Apart (private_path fs cfg d) cfg.real_ip_key)
    (elsewhere' : Apart (public_path fs cfg d) cfg.real_ip_key) where
  abbrev s2 : S
  s2 = save_key fs (public_path fs cfg d) (crypto.marshal_public_key k) s1

  abbrev again : Crypto
  again = record crypto { generate_key = next }

  reads_key : read_private_key fs again (private_path fs cfg d) s2 ≡ key k
  unfolding read_private_key key_in parsed
  reads_key =
      rw
        (
          (saved_apart fs Apart _ (private_path fs cfg d) (crypto.marshal_public_key k) s1 laws
              paths_apart).0,
          laws.reads_back _ bb s s1 created,
          decoded,
        )
        refl

  first_reads : real_ip_key_of (outside_on fs crypto out s) cfg cfg.new_real_ip ≡ ok (some k)
  unfolding real_ip_key_of key_of outside_on read_private_key key_in check_existing_generated_key
      key_file_name key_at generate_keys generated
  first_reads = rw (wanted, unset, named, fresh, made, named) refl

  saved_first : save_key fs (private_path fs cfg d) (crypto.marshal_private_key k) s ≡ s1
  unfolding save_key bytes_or_none
  saved_first = rw (encoded, save_key, created) refl

  first_leaves : disk_after fs crypto cfg s ≡ ok s2
  unfolding disk_after disk_after_read disk_after_check read_private_key key_in
      check_existing_generated_key key_file_name key_at generate_keys generated
  first_leaves = simp (wanted, unset, named, fresh, made, saved_first) refl

  still_unset : read_private_key fs again cfg.real_ip_key s2 ≡ not_exist
  unfolding read_private_key key_in
  still_unset =
      rw
        (
          (saved_apart fs Apart _ cfg.real_ip_key (crypto.marshal_public_key k) s1 laws
              elsewhere').0,
          (laws.others_stay _ bb cfg.real_ip_key s s1 created elsewhere).0,
          unset,
        )
        refl

  is_known : check_existing_generated_key fs again cfg s2 ≡ ok (some k)
  unfolding check_existing_generated_key key_file_name key_at usable_key
  is_known =
      rw
        (
          named,
          (saved_apart fs Apart _ (private_path fs cfg d) (crypto.marshal_public_key k) s1 laws
              paths_apart).1,
          laws.is_there _ bb s s1 created,
          reads_key,
        )
        refl

  second_reads : real_ip_key_of (outside_on fs again out s2) cfg cfg.new_real_ip ≡ ok (some k)
  unfolding real_ip_key_of key_of outside_on
  second_reads = simp (wanted, still_unset, is_known) refl

  second_leaves : disk_after fs again cfg s2 ≡ ok s2
  unfolding disk_after disk_after_read disk_after_check
  second_leaves = simp (wanted, still_unset, is_known) refl

  abbrev key_name : GoString
  key_name = (has_name cfg.name d ds).0

  -- What both conversions give.
  abbrev with_key : BackendWorkerConfig
  with_key = converted out cfg key_name (some k)

  first_converts : server_to_backend_config (outside_on fs crypto out s) cfg ≡ ok with_key
  unfolding server_to_backend_config converted outside_on
  first_converts = simp (first_reads, named, (has_name cfg.name d ds).1) refl

  second_converts : server_to_backend_config (outside_on fs again out s2) cfg ≡ ok with_key
  unfolding server_to_backend_config converted outside_on
  second_converts = simp (second_reads, named, (has_name cfg.name d ds).1) refl

  -- Where a server with a domain and the newer RealIP has no key yet, neither a configured one nor one
  -- beside its config, the file of the private key can be made, and the key survives its encoding, the
  -- conversion of the config succeeds with the key that is generated; and a conversion on the disk
  -- that it leaves gives the same settings with that same key, whatever key would be generated then,
  -- and leaves the disk as it is. This wants a disk that keeps what is written, and that the configured
  -- path and those of the two files name three different files.
  pub server_to_backend_config_on-again :
      (w : BackendWorkerConfig) × (s' : S) × (server_to_backend_config_on fs crypto out cfg s
        ≡ ok (w, s'))
      × (w.real_ip_key ≡ some k)
      × (server_to_backend_config_on fs again out cfg s' ≡ ok (w, s'))
  unfolding server_to_backend_config_on converted
  server_to_backend_config_on-again = (
    with_key,
    s2,
    rw (first_converts, first_leaves) refl,
    refl,
    rw (second_converts, second_leaves) refl,
  )
