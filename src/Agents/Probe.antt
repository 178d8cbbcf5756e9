-- ===== src/Agents/Probe.antt =====
-- The server's state is asked for at most once in a cooldown.
use ipojknm.Prelude.{ℕ, ◌<◌, ◌≤◌, ◌≡◌, refl, List, [], ◌∷◌, arith, All}
use ipojknm.Core.{ServerState}
use ipojknm.Limiter.{since}
use ipojknm.Agents.{McServerState, Dial, state_of_dial, probe}

-- The answers to a row of calls, each with its clock and what a dial would give.
unfoldable pub probes : List ((ℕ → ℕ) × Dial) → McServerState → List ServerState × McServerState
probes [] server = ([], server)
probes ((clock, dial) ∷ calls) server =
    let (s, server') = probe clock dial server in
    let (ss, server'') = probes calls server' in (s ∷ ss, server'')

-- The call falls into the cooldown that began at `start`.
abbrev pub IsRecent : ℕ → ℕ → (ℕ → ℕ) × Dial → Type 0
IsRecent start cooldown call = since (call.0 0) start ≤ cooldown

abbrev pub repeat : ServerState → List ((ℕ → ℕ) × Dial) → List ServerState
repeat s [] = []
repeat s (c ∷ calls) = s ∷ repeat s calls

probe_recent :
    (clock : ℕ → ℕ) (dial : Dial) (server : McServerState)
    → since (clock 0) server.start_time ≤ server.cooldown
    → probe clock dial server ≡ (server.state, server)
unfolding probe
probe_recent clock dial server h = ground arith

probes_recent :
    (calls : List ((ℕ → ℕ) × Dial)) (server : McServerState)
    → All (IsRecent server.start_time server.cooldown) calls
    → probes calls server ≡ (repeat server.state calls, server)
unfolding probes
probes_recent [] server h = refl
probes_recent ((clock, dial) ∷ calls) server h =
    rw (probe_recent clock dial server h.0, probes_recent calls server h.1)

-- A call once the cooldown is over answers by a new dial, and every call in the cooldown that
-- follows repeats that answer, whatever a dial of its own would give.
pub probe_then_repeat :
    (clock : ℕ → ℕ) (dial : Dial) (calls : List ((ℕ → ℕ) × Dial)) (server : McServerState)
    → server.cooldown < since (clock 0) server.start_time
    → All (IsRecent (clock 1) server.cooldown) calls
    → (probes ((clock, dial) ∷ calls) server).0
      ≡ state_of_dial dial ∷ repeat (state_of_dial dial) calls
unfolding probes
probe_then_repeat clock dial calls server over h = rw (probed) (
    rw (probes_recent calls (record server { start_time = clock 1; state = state_of_dial dial }) h))
  where
    probed :
        probe clock dial server
        ≡ (state_of_dial dial, record server { start_time = clock 1; state = state_of_dial dial })
    probed = unfold probe in ground arith
