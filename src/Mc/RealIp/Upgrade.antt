-- ===== src/Mc/RealIp/Upgrade.antt =====
-- What the RealIP upgrade keeps of a server address. The host is what stands before the first NUL.
use mathlib.Core.List.{append_assoc}
use ipojknm.Prelude.{
  true, false, Option, none, some, ℕ, ◌≡◌, ◌≢◌, ◌∙◌, sym, [], ◌∷◌, ◌++◌, arith, All, All-append,
  Option-cases, Bool-cases, inl, inr,
}
use ipojknm.Prelude.Text.{GoString, bytes_of, decimal, decimal-IsDigit, IsDigit}
use ipojknm.Prelude.Split.{
  before, found, first-split, split_many, split_n_absent, split_n_present, split_n-cons, cut,
  cut-append, cut_absent, before-lacks, before_absent, found_absent, before_present, found_present,
}
use ipojknm.Mc.Handshake.{ServerBoundHandshake}
use ipojknm.Mc.RealIp.{
  forge_separator, real_ip_separator, is_forge_address, is_real_ip_address, parse_server_address,
  upgrade_to_old_real_ip,
}

abbrev pub Lacks : ℕ → GoString → Type 0
Lacks z = All (λ c. c ≢ z)

abbrev suffix : GoString → ℕ → GoString
suffix client stamp = real_ip_separator ++ (client ++ (real_ip_separator ++ decimal stamp))

digits-Lacks : (s : GoString) → All IsDigit s → Lacks 0 s
digits-Lacks [] h = tt
digits-Lacks (c ∷ s) h = (omega (arith, h.0), digits-Lacks s h.1)

suffix-Lacks : (client : GoString) (stamp : ℕ) → Lacks 0 client → Lacks 0 (suffix client stamp)
suffix-Lacks client stamp h =
    All-append (λ c. c ≢ 0) real_ip_separator _ (omega arith)
      (All-append (λ c. c ≢ 0) client _ h
        (All-append (λ c. c ≢ 0) real_ip_separator _ (omega arith)
          (digits-Lacks _ (decimal-IsDigit stamp))))

parse-before :
    (hs : ServerBoundHandshake)
    → parse_server_address hs ≡ before real_ip_separator (before forge_separator hs.server_address)
unfolding parse_server_address
parse-before hs = rw (first-split forge_separator hs.server_address, first-split)

module _ (client : GoString) (stamp : ℕ) (hs : ServerBoundHandshake) (lacks : Lacks 0 client)
    (plain : is_real_ip_address hs ≡ false) where
  upgraded_plain :
      cut forge_separator hs.server_address ≡ none
      → (upgrade_to_old_real_ip client stamp hs).server_address
        ≡ hs.server_address ++ suffix client stamp
  unfolding upgrade_to_old_real_ip
  upgraded_plain e = rw (plain, split_n_absent 1 forge_separator hs.server_address e)

  upgraded_forge :
      {b a : GoString}
      → cut forge_separator hs.server_address ≡ some (b, a)
      → (rest : GoString) × ((upgrade_to_old_real_ip client stamp hs).server_address
          ≡ (b ++ suffix client stamp) ++ (forge_separator ++ rest))
  unfolding upgrade_to_old_real_ip
  upgraded_forge {a = a} e =
      let (forge, ps, p) = split_n-cons 1 forge_separator a in
      (
        forge ++ forge_separator,
        rw (plain, split_n_present 1 forge_separator hs.server_address e, p),
      )

  -- What stands before the first NUL gets the suffix, and a NUL is there exactly if it was before.
  cut_upgraded :
      (before forge_separator (upgrade_to_old_real_ip client stamp hs).server_address
        ≡ before forge_separator hs.server_address ++ suffix client stamp)
      × (found forge_separator (upgrade_to_old_real_ip client stamp hs).server_address
          ≡ found forge_separator hs.server_address)
  cut_upgraded =
      let host : GoString = before forge_separator hs.server_address in
      let whole : Lacks 0 (host ++ suffix client stamp) =
        All-append (λ c. c ≢ 0) host (suffix client stamp) (before-lacks 0 hs.server_address)
          (suffix-Lacks client stamp lacks) in
      elim (Option-cases (cut forge_separator hs.server_address)) [
        | inl e ↦
            let none' : cut forge_separator (hs.server_address ++ suffix client stamp) ≡ none =
              cut_absent 0 [] _ (rw (before_absent forge_separator hs.server_address e) at whole) in
            (
              rw (upgraded_plain e, before_absent _ _ none', before_absent _ _ e),
              rw (upgraded_plain e, found_absent _ _ none', found_absent _ _ e),
            )
        | inr ((b, a), e) ↦
            let (rest, p) = upgraded_forge e in
            let some' : cut forge_separator
                  ((b ++ suffix client stamp) ++ (forge_separator ++ rest))
                ≡ some (b ++ suffix client stamp, rest) =
              cut-append 0 [] (b ++ suffix client stamp) rest
                (rw (before_present forge_separator hs.server_address e) at whole) in
            (
              rw (p, before_present _ _ some', before_present _ _ e),
              rw (p, found_present _ _ some', found_present _ _ e),
            )
      ]

abbrev slashes : GoString → GoString → Option (GoString × GoString)
slashes h r = cut real_ip_separator (h ++ (real_ip_separator ++ r))

cut_slashes : (h r : GoString) → Lacks b'/' h → slashes h r ≡ some (h, r)
cut_slashes h r l = cut-append b'/' (bytes_of "//") h r l

cut_no_slash : (h : GoString) → Lacks b'/' h → cut real_ip_separator h ≡ none
cut_no_slash h l = cut_absent b'/' (bytes_of "//") h l

-- The upgrade leaves the address that the proxy looks servers up by: for a host without '/' and a
-- client address without NUL, ParseServerAddress gives the same before and after.
pub parse_server_address-upgrade :
    (client : GoString) (stamp : ℕ) (hs : ServerBoundHandshake)
    → Lacks 0 client
    → Lacks b'/' (before forge_separator hs.server_address)
    → parse_server_address (upgrade_to_old_real_ip client stamp hs) ≡ parse_server_address hs
parse_server_address-upgrade client stamp hs lacks host =
    elim (Bool-cases (is_real_ip_address hs)) [
      | inl already ↦ unfold upgrade_to_old_real_ip in rw already
      | inr plain ↦
          let h : GoString = before forge_separator hs.server_address in
          rw
            (
              parse-before (upgrade_to_old_real_ip client stamp hs),
              (cut_upgraded client stamp hs lacks plain).0,
            )
            (before_present _ _
                (cut_slashes h (client ++ (real_ip_separator ++ decimal stamp)) host)
              ∙ sym (parse-before hs ∙ before_absent _ _ (cut_no_slash h host)))
    ]

-- The upgraded address is seen as a RealIP address.
pub upgrade-is_real_ip_address :
    (client : GoString) (stamp : ℕ) (hs : ServerBoundHandshake)
    → Lacks 0 client
    → Lacks b'/' (before forge_separator hs.server_address)
    → is_real_ip_address (upgrade_to_old_real_ip client stamp hs) ≡ true
upgrade-is_real_ip_address client stamp hs lacks host = elim (Bool-cases (is_real_ip_address hs)) [
  | inl already ↦ unfold upgrade_to_old_real_ip in rw already already
  | inr plain ↦ unfold is_real_ip_address in rw split_many (seen plain)
]
  where
    rest' : GoString
    rest' = client ++ (real_ip_separator ++ decimal stamp)

    seen :
        is_real_ip_address hs ≡ false
        → found real_ip_separator (upgrade_to_old_real_ip client stamp hs).server_address ≡ true
    seen plain = elim (Option-cases (cut forge_separator hs.server_address)) [
      | inl e ↦ rw (upgraded_plain client stamp hs lacks plain e) (
          found_present _ _
            (cut_slashes hs.server_address rest' (rw (before_absent _ _ e) at host)))
      | inr ((b, a), e) ↦
          let (tail, p) = upgraded_forge client stamp hs lacks plain e in
          rw (p, append_assoc b (suffix client stamp) (forge_separator ++ tail))
            (found_present _ _ (
              cut_slashes b (rest' ++ (forge_separator ++ tail))
                (rw (before_present _ _ e) at host)))
    ]

-- A second upgrade, by any client at any time, changes nothing.
pub upgrade_to_old_real_ip_idem :
    (client : GoString) (stamp : ℕ) (hs : ServerBoundHandshake) (client' : GoString) (stamp' : ℕ)
    → Lacks 0 client
    → Lacks b'/' (before forge_separator hs.server_address)
    → upgrade_to_old_real_ip client' stamp' (upgrade_to_old_real_ip client stamp hs)
      ≡ upgrade_to_old_real_ip client stamp hs
upgrade_to_old_real_ip_idem client stamp hs client' stamp' lacks host =
    unchanged (upgrade_to_old_real_ip client stamp hs)
      (upgrade-is_real_ip_address client stamp hs lacks host)
  where
    unchanged :
        (u : ServerBoundHandshake)
        → is_real_ip_address u ≡ true
        → upgrade_to_old_real_ip client' stamp' u ≡ u
    unchanged u e = unfold upgrade_to_old_real_ip in rw e

-- The upgrade neither makes nor loses a Forge address.
pub is_forge_address-upgrade :
    (client : GoString) (stamp : ℕ) (hs : ServerBoundHandshake)
    → Lacks 0 client
    → is_forge_address (upgrade_to_old_real_ip client stamp hs) ≡ is_forge_address hs
unfolding is_forge_address
is_forge_address-upgrade client stamp hs lacks = elim (Bool-cases (is_real_ip_address hs)) [
  | inl already ↦ unfold upgrade_to_old_real_ip in rw already
  | inr plain ↦
      split_many forge_separator _
      ∙ (cut_upgraded client stamp hs lacks plain).1
      ∙ sym (split_many forge_separator hs.server_address)
]
