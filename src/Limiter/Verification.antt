-- ===== src/Limiter/Verification.antt =====
-- The bot filter: who is let through, who has to reconnect, who is blocked.
use ipojknm.Prelude.{
  ◌++◌, ◌∙◌, All, Bool, true, false, ℕ, none, some, ◌+◌, ◌<◌, ◌≡◌, [], ◌∷◌, ltb, leb, if◌then◌else◌,
  ◌||◌, arith, ◌≢◌,
}
use ipojknm.Prelude.Text.{GoString, bytes_of, str_eq_iff, str_eq_self}
use ipojknm.Prelude.Split.{first-split, cut-append, before_present}
use ipojknm.Prelude.Table.{Table, lookup, delete, lookup-insert, lookup-delete}
use ipojknm.Core.{RequestData}
use ipojknm.Limiter.{
  since, is_status, filter_ip_from_addr, BotFilter, new_window, check_name, verify, allow,
}

-- The address is not on the black list.
abbrev pub IsFree : GoString → BotFilter → Type 0
IsFree ip l = lookup ip l.black_list ≡ none

-- What `Allow` does to the window before it looks at the client.
abbrev pub counted : (ℕ → ℕ) → BotFilter → BotFilter
counted clock l = record (new_window clock l) {
  rate_counter = (new_window clock l).rate_counter + 1;
}

-- The filter demands verification at this call.
abbrev pub limits : (ℕ → ℕ) → BotFilter → Bool
limits clock l = (counted clock l).limiting || ltb l.rate_limit (counted clock l).rate_counter

-- A status request is always let through and changes nothing.
pub allow_status :
    (clock : ℕ → ℕ) (req : RequestData) (addr : GoString) (l : BotFilter)
    → is_status req.type ≡ true
    → allow clock req addr l ≡ (true, l)
unfolding allow
allow_status clock req addr l h = rw h

new_window_keeps :
    (clock : ℕ → ℕ) (l : BotFilter)
    → ((new_window clock l).rate_limit ≡ l.rate_limit)
      × ((new_window clock l).list_clear_time ≡ l.list_clear_time)
      × ((new_window clock l).black_list ≡ l.black_list)
      × ((new_window clock l).names_list ≡ l.names_list)
unfolding new_window
new_window_keeps clock l = ground arith

-- A blocked client is refused until the list's clear time has passed, and the lists stay.
pub allow_blocked :
    (clock : ℕ → ℕ) (req : RequestData) (addr : GoString) (l : BotFilter) (t : ℕ)
    → is_status req.type ≡ false
    → lookup (filter_ip_from_addr addr) l.black_list ≡ some t
    → since (clock 3) t < l.list_clear_time
    → ((allow clock req addr l).0 ≡ false)
      × ((allow clock req addr l).1.black_list ≡ l.black_list)
      × ((allow clock req addr l).1.names_list ≡ l.names_list)
unfolding allow
allow_blocked clock req addr l t login b h = ground (arith, new_window_keeps clock l)

-- The black list once a client that is not on it has been looked up.
cleared : (ℕ → ℕ) → GoString → BotFilter → Table ℕ
cleared clock ip l =
    if leb l.list_clear_time (since (clock 3) 0) then delete ip l.black_list else l.black_list

lookup-cleared :
    (clock : ℕ → ℕ) (ip : GoString) (l : BotFilter)
    → IsFree ip l
    → lookup ip (cleared clock ip l) ≡ none
unfolding cleared
lookup-cleared clock ip l free = ground (arith, lookup-delete ip ip l.black_list)

new_window-IsFree :
    (clock : ℕ → ℕ) (ip : GoString) (l : BotFilter) → IsFree ip l → IsFree ip (new_window clock l)
new_window-IsFree clock ip l free = rw (new_window_keeps clock l).2 free

-- A client that is not blocked is checked by name.
allow_free :
    (clock : ℕ → ℕ) (req : RequestData) (addr : GoString) (l : BotFilter)
    → is_status req.type ≡ false
    → IsFree (filter_ip_from_addr addr) l
    → allow clock req addr l
      ≡ verify (clock 4) (filter_ip_from_addr addr) req.username (record (counted clock l) {
        black_list = cleared clock (filter_ip_from_addr addr) (new_window clock l);
      })
unfolding allow cleared
allow_free clock req addr l login free =
    rw (login, new_window-IsFree clock (filter_ip_from_addr addr) l free) (ground arith)

-- Below the limit, and with no verification going on, a client that is not blocked is let through
-- and leaves the list of names as it was.
pub allow_below_limit :
    (clock : ℕ → ℕ) (req : RequestData) (addr : GoString) (l : BotFilter)
    → is_status req.type ≡ false
    → IsFree (filter_ip_from_addr addr) l
    → limits clock l ≡ false
    → ((allow clock req addr l).0 ≡ true) × ((allow clock req addr l).1.names_list ≡ l.names_list)
unfolding verify
allow_below_limit clock req addr l login free low =
    rw (allow_free clock req addr l login free) (ground (arith, new_window_keeps clock l, low))

-- While the filter demands verification, the first call from an address is refused; its name is
-- remembered, and the address stays off the black list.
pub allow_first_contact :
    (clock : ℕ → ℕ) (req : RequestData) (addr : GoString) (l : BotFilter)
    → is_status req.type ≡ false
    → IsFree (filter_ip_from_addr addr) l
    → limits clock l ≡ true
    → lookup (filter_ip_from_addr addr) l.names_list ≡ none
    → ((allow clock req addr l).0 ≡ false)
      × (lookup (filter_ip_from_addr addr) (allow clock req addr l).1.names_list
          ≡ some req.username)
      × IsFree (filter_ip_from_addr addr) (allow clock req addr l).1
unfolding verify check_name
allow_first_contact clock req addr l login free high fresh =
    let ip : GoString = filter_ip_from_addr addr in
    rw (allow_free clock req addr l login free) (
      ground (
        arith,
        new_window_keeps clock l,
        high,
        lookup-insert ip ip req.username (new_window clock l).names_list,
        str_eq_self ip,
        lookup-cleared clock ip (new_window clock l) (new_window-IsFree clock ip l free),
      ))

-- A client that comes back under the remembered name is let through, whether or not verification
-- is still going on.
pub allow_verified :
    (clock : ℕ → ℕ) (req : RequestData) (addr : GoString) (l : BotFilter)
    → is_status req.type ≡ false
    → IsFree (filter_ip_from_addr addr) l
    → lookup (filter_ip_from_addr addr) l.names_list ≡ some req.username
    → (allow clock req addr l).0 ≡ true
unfolding verify check_name
allow_verified clock req addr l login free known =
    rw (allow_free clock req addr l login free)
      (ground (arith, new_window_keeps clock l, str_eq_self req.username))

-- A client that comes back under another name while verification is going on is refused, and its
-- address is blocked from the time of the call.
pub allow_impostor :
    (clock : ℕ → ℕ) (req : RequestData) (addr : GoString) (l : BotFilter) (name : GoString)
    → is_status req.type ≡ false
    → IsFree (filter_ip_from_addr addr) l
    → limits clock l ≡ true
    → lookup (filter_ip_from_addr addr) l.names_list ≡ some name
    → name ≢ req.username
    → ((allow clock req addr l).0 ≡ false)
      × (lookup (filter_ip_from_addr addr) (allow clock req addr l).1.black_list ≡ some (clock 4))
unfolding verify check_name
allow_impostor clock req addr l name login free high known other =
    let ip : GoString = filter_ip_from_addr addr in
    rw (allow_free clock req addr l login free) (
      ground (
        arith,
        new_window_keeps clock l,
        high,
        str_eq_iff name req.username,
        lookup-insert ip ip (clock 4) (cleared clock ip (new_window clock l)),
        str_eq_self ip,
      ))

-- Two logins of one address under one name, the first of them while the limit is reached, from an
-- address that is not on the black list and for which no name is remembered yet: the first is refused
-- and the second is let through, whatever the times of the calls are.
pub reconnect_verifies :
    (clock clock' : ℕ → ℕ) (req : RequestData) (addr : GoString) (l : BotFilter)
    → is_status req.type ≡ false
    → IsFree (filter_ip_from_addr addr) l
    → limits clock l ≡ true
    → lookup (filter_ip_from_addr addr) l.names_list ≡ none
    → ((allow clock req addr l).0 ≡ false)
      × ((allow clock' req addr (allow clock req addr l).1).0 ≡ true)
reconnect_verifies clock clock' req addr l login free high fresh =
    let (refused, named, free') = allow_first_contact clock req addr l login free high fresh in
    (refused, allow_verified clock' req addr (allow clock req addr l).1 login free' named)

-- Everything behind the first colon of an address is dropped: for "host:port" this leaves the host,
-- and for the text of an IPv6 address, "[2001:db8::1]:25565", it leaves "[2001", so that all
-- addresses that begin so are one client to the filter.
pub filter_ip_from_addr-append :
    (h r : GoString) → All (λ c. c ≢ b':') h → filter_ip_from_addr (h ++ (b':' ∷ r)) ≡ h
unfolding filter_ip_from_addr
filter_ip_from_addr-append h r lacks =
    first-split (bytes_of ":") _ ∙ before_present _ _ (cut-append b':' [] h r lacks)
