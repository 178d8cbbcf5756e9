-- ===== src/Tests/Filter.antt =====
-- The limiters, the state agent and the status cache at concrete calls.
use Prim.Native.Nat.{min}
use ipojknm.Prelude.{true, false, ℕ, none, some, ◌-◌, ◌≡◌, refl, [], ◌∷◌, arith}
use ipojknm.Prelude.Text.{GoString, bytes_of}
use ipojknm.Prelude.Table.{lookup}
use ipojknm.Mc.Packet.{no_packet}
use ipojknm.Mc.Handshake.{login, no_handshake}
use ipojknm.Core.{RequestData}
use ipojknm.Limiter.{filter_ip_from_addr, AbsConnLimiter, BotFilter, new_window, allow}
use ipojknm.Limiter.Window.{Calls, serve_abs, serve_abs-count}
use ipojknm.Limiter.Verification.{IsFree, limits, reconnect_verifies}

abbrev at : ℕ → ℕ → ℕ
at now k = now

abbrev address : GoString
address = bytes_of "10.0.0.7:40000"

abbrev a_login_of : GoString → RequestData
a_login_of name = record {
  type = login;
  handshake = no_handshake;
  server_addr = [];
  addr = some address;
  username = name;
}

abbrev steve : RequestData
steve = a_login_of (bytes_of "Steve")

abbrev alex : RequestData
alex = a_login_of (bytes_of "Alex")

abbrev three_calls : Calls
three_calls = (at 5, steve) ∷ (at 6, alex) ∷ (at 7, steve) ∷ []

abbrev two_a_window : AbsConnLimiter
two_a_window = record {
  rate_counter = 0;
  rate_start_time = 1;
  rate_limit = 2;
  rate_cooldown = 10;
  limit_status = true;
}

serve_abs-count_example : (serve_abs three_calls two_a_window).0 ≡ min 3 (2 - 0)
serve_abs-count_example = serve_abs-count three_calls two_a_window refl (omega arith)

-- A filter that has just begun to demand verification.
abbrev strict : BotFilter
strict = record {
  limiting = true;
  unverify_cooldown = 1_000;
  rate_counter = 9;
  rate_start_time = 1;
  last_time_above_limit = 1;
  rate_limit = 3;
  rate_cooldown = 10;
  disconn_packet = no_packet;
  list_clear_time = 500;
  black_list = [];
  names_list = [];
}

strict-IsFree : IsFree (filter_ip_from_addr address) strict
unfolding lookup
strict-IsFree = refl

no_names : lookup (filter_ip_from_addr address) strict.names_list ≡ none
unfolding lookup
no_names = refl

strict-limits : limits (at 5) strict ≡ true
unfolding new_window
strict-limits = refl

reconnect_verifies_example :
    ((allow (at 5) steve address strict).0 ≡ false)
    × ((allow (at 8) steve address (allow (at 5) steve address strict).1).0 ≡ true)
reconnect_verifies_example =
    reconnect_verifies (at 5) (at 8) steve address strict refl strict-IsFree strict-limits no_names
