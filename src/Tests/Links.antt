-- ===== src/Tests/Links.antt =====
-- The two pipes of a proxied connection in one order of their steps.
use ipojknm.Prelude.{ℕ, true, false, ◌≡◌, refl, some, [], ◌∷◌, arith}
use ipojknm.Errors.{ok}
use ipojknm.Root.Link.{Link, Stage, new_pipe, proxy_connection, Round, Move, Moves}
use ipojknm.Root.Link.Copies.{IsSound, Moves-IsSound}

abbrev server_conn : ℕ
server_conn = 4

abbrev opened : Link
opened = record { down = new_pipe; up = new_pipe; client_open = true; server_open = true }

opens : proxy_connection (ok server_conn) ≡ some opened
unfolding proxy_connection
opens = refl

-- The client has sent two bytes.
abbrev heard : Link
heard = record opened {
  up = record { stage = Stage.writing (7 ∷ 8 ∷ []); taken = 7 ∷ 8 ∷ []; given = [] };
}

hears : Move opened heard
hears = Move.up_round heard.up (Round.was_read (7 ∷ 8 ∷ []) refl refl (omega arith) refl) refl

Moves-IsSound_example : IsSound heard
Moves-IsSound_example =
    Moves-IsSound server_conn opened heard opens (Moves.then_move Moves.no_move hears)

-- The server has gone and the client is closed, between the Read and the Write.
abbrev shut : Link
shut = record heard { down = record new_pipe { stage = Stage.gone }; client_open = false }

abbrev spoken : Link
spoken = record shut {
  up = record { stage = Stage.copying; taken = 7 ∷ 8 ∷ []; given = 7 ∷ 8 ∷ [] };
}
