-- ===== src/Agents/Cache.antt =====
-- The status cache: when it asks the server, what it sends, and what an error leaves behind.
use ipojknm.Prelude.{true, ℕ, none, ◌<◌, ◌≤◌, ◌≡◌, ◌≢◌, List, arith}
use ipojknm.Errors.{ok, fault, is_ok}
use ipojknm.Mc.Packet.{Packet, read_packet}
use ipojknm.Mc.Packet.Failures.{read_packet-ne-fault}
use ipojknm.Limiter.{since}
use ipojknm.Agents.{StatusCache, Exchange, new_status, cached_status}

new_status-ne-fault : (x : Exchange) (cache : StatusCache) → (new_status x cache).0 ≢ fault
unfolding new_status
new_status-ne-fault x cache h = ground (arith, read_packet-ne-fault x.at_end x.answer)

-- Status always returns a packet, beside an error or without one: it never panics, whatever the
-- server answers.
pub cached_status-is_ok :
    (clock : ℕ → ℕ) (x : Exchange) (cache : StatusCache)
    → is_ok (cached_status clock x cache) ≡ true
unfolding cached_status
cached_status-is_ok clock x cache = ground (arith, new_status-ne-fault x cache)

-- A server that answers with the frame of a packet: the packet is returned and cached, and every
-- later call within the cooldown returns it again, whatever the server would do then.
pub cached_status_serves :
    (clock clock' : ℕ → ℕ) (x x' : Exchange) (cache : StatusCache) (pk : Packet) (rest : List ℕ)
    → cache.cooldown ≤ since (clock 0) cache.cache_time
    → x.dial ≡ none
    → x.write_handshake ≡ none
    → x.write_request ≡ none
    → read_packet x.at_end x.answer ≡ ok (pk, rest)
    → since (clock' 0) (clock 1) < cache.cooldown
    → (cache' : StatusCache) × (cached_status clock x cache ≡ ok ((pk, none), cache'))
      × (cached_status clock' x' cache' ≡ ok ((pk, none), cache'))
unfolding cached_status new_status
cached_status_serves clock clock' x x' cache pk rest old d w1 w2 r fresh = (
  record cache { cache_time = clock 1; status = pk },
  rw (d, w1, w2, r) (ground arith),
  ground arith,
)

-- A connection that newStatus opened is closed exactly if a packet was read: every error behind the
-- dial leaves it open.
pub new_status_closes :
    (x : Exchange) (cache : StatusCache)
    → (new_status x cache).1.opened ≡ true
    → (new_status x cache).1.closed ≡ is_ok (new_status x cache).0
unfolding new_status
new_status_closes x cache o = ground (arith, read_packet-ne-fault x.at_end x.answer)
