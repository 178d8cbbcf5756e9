-- ===== src/Mc/RealIp.antt =====
-- mc/packet_login.go: the server address of a handshake, with the suffixes of Forge and RealIP.
pub mod Upgrade
use ipojknm.Prelude.{
  Bool, true, false, ℕ, zero, suc, ◌+◌, ◌<◌, ◌≤◌, ◌≡◌, ◌≢◌, refl, ap, ◌∙◌, sym, Option, none, some,
  List, [], ◌∷◌, ◌++◌, length, ltb, if◌then◌else◌, arith, All, All-append,
}
use ipojknm.Prelude.Text.{GoString, bytes_of, decimal, decimal-IsDigit}
use ipojknm.Prelude.Split.{
  split, split_n, first, before, found, first-split, first-split_n, split_many, cut, cut-append,
  cut_absent, before-lacks,
}
use ipojknm.Mc.Handshake.{ServerBoundHandshake}

abbrev pub forge_separator : GoString
forge_separator = 0x00 ∷ []

abbrev pub real_ip_separator : GoString
real_ip_separator = bytes_of "///"

-- IsForgeAddress
unfoldable pub is_forge_address : ServerBoundHandshake → Bool
is_forge_address hs = ltb 1 (length (split forge_separator hs.server_address))

-- IsRealIPAddress
unfoldable pub is_real_ip_address : ServerBoundHandshake → Bool
is_real_ip_address hs = ltb 1 (length (split real_ip_separator hs.server_address))

-- ParseServerAddress
unfoldable pub parse_server_address : ServerBoundHandshake → GoString
parse_server_address hs =
    let addr = first (split forge_separator hs.server_address) in
    first (split real_ip_separator addr)

-- fmt.Sprintf("%s\x00%s\x00", addr, addrWithForge[1]), where there is such a part
with_forge : GoString → List GoString → GoString
with_forge addr (host ∷ forge ∷ parts) = addr ++ (forge_separator ++ (forge ++ forge_separator))
with_forge addr _ = addr

-- UpgradeToOldRealIP_WithTime; `stamp` is stamp.Unix().
unfoldable pub upgrade_to_old_real_ip : GoString → ℕ → ServerBoundHandshake → ServerBoundHandshake
unfolding with_forge
upgrade_to_old_real_ip client_addr stamp hs =
    let parts = split_n 2 forge_separator hs.server_address in
    let addr =
      first parts ++ (real_ip_separator ++ (client_addr ++ (real_ip_separator ++ decimal stamp))) in
    if is_real_ip_address hs then hs else record hs { server_address = with_forge addr parts }

-- UpgradeToNewRealIP; `sign` is the base64 text of the signature of the hash of a text, or none
-- where signing fails (then the old suffix stays on the handshake).
unfoldable pub upgrade_to_new_real_ip :
    (GoString → Option GoString) → GoString → ℕ → ServerBoundHandshake → ServerBoundHandshake
upgrade_to_new_real_ip sign client_addr stamp hs =
    let old = upgrade_to_old_real_ip client_addr stamp hs in
    elim (sign old.server_address) [
      | none ↦ old
      | some encoded ↦ record old {
        server_address = old.server_address ++ (real_ip_separator ++ encoded);
      }
    ]
