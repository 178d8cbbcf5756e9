-- ===== src/Limiter.antt =====
-- module/conn_limiter.go. A time is a number of nanoseconds since Go's zero time; a duration is one
-- too. `clock k` is the reading that the k-th call of time.Since or time.Now in the text of the
-- function gives, whether or not the calls before it are made.
pub mod Window
pub mod Verification
use Prim.Native.Nat.{min}
use ipojknm.Prelude.{
  Bool, true, false, ℕ, Option, none, some, ◌+◌, ◌-◌, ◌^◌, List, [], ◌∷◌, ltb, leb, if◌then◌else◌,
  ◌||◌, ◌&&◌, not,
}
use ipojknm.Prelude.Text.{GoString, bytes_of, str_eq}
use ipojknm.Prelude.Split.{split, first}
use ipojknm.Prelude.Table.{Table, lookup, insert, delete}
use ipojknm.Mc.Handshake.{HandshakeState, status}
use ipojknm.Mc.Packet.{Packet}
use ipojknm.Errors.{Outcome, ok, fault}
use ipojknm.Core.{RequestData}

-- time.Since(t) at the reading `now`: the largest Duration is about 292 years.
abbrev pub since : ℕ → ℕ → ℕ
since now t = min (now - t) (2 ^ 63 - 1)

-- req.Type == mc.Status
abbrev pub is_status : HandshakeState → Bool
is_status status = true
is_status _ = false

-- FilterIpFromAddr
unfoldable pub filter_ip_from_addr : GoString → GoString
filter_ip_from_addr addr = first (split (bytes_of ":") addr)

-- absoluteConnlimiter
pub record AbsConnLimiter : Type 0 where
  pub rate_counter : ℕ
  pub rate_start_time : ℕ
  pub rate_limit : ℕ
  pub rate_cooldown : ℕ
  pub limit_status : Bool

-- NewAbsConnLimiter
unfoldable pub new_abs_conn_limiter : ℕ → ℕ → Bool → AbsConnLimiter
new_abs_conn_limiter ratelimit cooldown limit_status = record {
  rate_counter = 0;
  rate_start_time = 0;
  rate_limit = ratelimit;
  rate_cooldown = cooldown;
  limit_status = limit_status;
}

-- The first statement of its Allow: a new window starts once the old one is over.
restart : (ℕ → ℕ) → AbsConnLimiter → AbsConnLimiter
restart clock r =
    if leb r.rate_cooldown (since (clock 0) r.rate_start_time)
    then record r { rate_counter = 0; rate_start_time = clock 1 }
    else r

-- absoluteConnlimiter.Allow
unfoldable pub allow_abs : (ℕ → ℕ) → RequestData → AbsConnLimiter → Bool × AbsConnLimiter
unfolding restart
allow_abs clock req r =
    let r' = restart clock r in
    if not r'.limit_status
    then (true, r')
    else if ltb r'.rate_counter r'.rate_limit
    then (true, record r' { rate_counter = r'.rate_counter + 1 })
    else (false, r')

-- botFilterConnLimiter
pub record BotFilter : Type 0 where
  pub limiting : Bool
  pub unverify_cooldown : ℕ
  pub rate_counter : ℕ
  pub rate_start_time : ℕ
  pub last_time_above_limit : ℕ
  pub rate_limit : ℕ
  pub rate_cooldown : ℕ
  pub disconn_packet : Packet
  pub list_clear_time : ℕ
  pub black_list : Table ℕ
  pub names_list : Table GoString

-- NewBotFilterConnLimiter; `now` is its reading of the clock.
unfoldable pub new_bot_filter : ℕ → ℕ → ℕ → ℕ → ℕ → Packet → BotFilter
new_bot_filter now ratelimit cooldown clear_time unverify disconn_pk = record {
  limiting = false;
  unverify_cooldown = unverify;
  rate_counter = 0;
  rate_start_time = 0;
  last_time_above_limit = now;
  rate_limit = ratelimit;
  rate_cooldown = cooldown;
  disconn_packet = disconn_pk;
  list_clear_time = clear_time;
  black_list = [];
  names_list = [];
}

-- The three statements inside `if time.Since(l.rateStartTime) >= l.rateCooldown`.
mark_above : BotFilter → BotFilter
mark_above l =
    if ltb l.rate_limit l.rate_counter
    then record l { last_time_above_limit = l.rate_start_time }
    else l

stop_limiting : ℕ → BotFilter → BotFilter
stop_limiting now l =
    if l.limiting && leb l.unverify_cooldown (since now l.last_time_above_limit)
    then record l { limiting = false }
    else l

unfoldable pub new_window : (ℕ → ℕ) → BotFilter → BotFilter
unfolding mark_above stop_limiting
new_window clock l =
    if leb l.rate_cooldown (since (clock 0) l.rate_start_time)
    then record (stop_limiting (clock 1) (mark_above l)) {
      rate_counter = 0;
      rate_start_time = clock 2;
    }
    else l

-- What is done with a client that is not on the black list: `ip` and the username it gives.
unfoldable pub check_name : ℕ → GoString → GoString → BotFilter → Bool × BotFilter
check_name now ip username l = elim (lookup ip l.names_list) [
  | none ↦ (false, record l { names_list = insert ip username l.names_list })
  | some known ↦
      if str_eq known username
      then (true, l)
      else (false, record l { black_list = insert ip now l.black_list })
]

unfoldable pub verify : ℕ → GoString → GoString → BotFilter → Bool × BotFilter
unfolding check_name
verify now ip username l =
    let l' = record l { limiting = l.limiting || ltb l.rate_limit l.rate_counter } in
    if l'.limiting then check_name now ip username l' else (true, l')

-- blockTime, ok := l.blackList[ip]: the zero time where there is none
abbrev pub block_time : Option ℕ → ℕ
block_time none = 0
block_time (some t) = t

abbrev pub is_some {ℓ} : {A : Type ℓ} → Option A → Bool
is_some none = false
is_some (some a) = true

-- botFilterConnLimiter.Allow for a request whose address has the text `addr`.
unfoldable pub allow : (ℕ → ℕ) → RequestData → GoString → BotFilter → Bool × BotFilter
unfolding new_window verify
allow clock req addr l0 =
    let l1 = new_window clock l0 in
    let l = record l1 { rate_counter = l1.rate_counter + 1 } in
    let ip = filter_ip_from_addr addr in
    let blocked = lookup ip l.black_list in
    if is_status req.type
    then (true, l0)
    else if leb l.list_clear_time (since (clock 3) (block_time blocked))
    then verify (clock 4) ip req.username (record l { black_list = delete ip l.black_list })
    else if is_some blocked
    then (false, l)
    else verify (clock 4) ip req.username l

-- The ConnectionLimiters: AlwaysAllowConnection and the two above.
pub data ConnLimiter : Type 0 where
  always_allow : ConnLimiter
  absolute : AbsConnLimiter → ConnLimiter
  bot_filter : BotFilter → ConnLimiter

-- Allow of the bot filter: a request that is no status request needs an address.
allow_bot : (ℕ → ℕ) → RequestData → Option GoString → BotFilter → Outcome (Bool × ConnLimiter)
allow_bot clock req none l = if is_status req.type then ok (true, bot_filter l) else fault
allow_bot clock req (some addr) l =
    let (ok', l') = allow clock req addr l in ok (ok', bot_filter l')

-- ConnectionLimiter.Allow
unfoldable pub allow_conn : (ℕ → ℕ) → RequestData → ConnLimiter → Outcome (Bool × ConnLimiter)
unfolding allow_bot
allow_conn clock req always_allow = ok (true, always_allow)
allow_conn clock req (absolute r) = let (ok', r') = allow_abs clock req r in ok (ok', absolute r')
allow_conn clock req (bot_filter l) = allow_bot clock req req.addr l
