-- ===== src/V2/Server/Bedrock.antt =====
-- src/server.go: what becomes of the datagrams of Bedrock clients.
use ipojknm.Prelude.{
  Bool-cases, ℕ, ◌⊎◌, Bool, false, Option, none, some, ◌≡◌, refl, ◌∙◌, List, [], ◌∷◌, ◌==◌, ◌||◌,
  inl, inr,
}
use ipojknm.Prelude.Text.{GoString, str_eq_iff, str_eq}
use ipojknm.Prelude.Table.{lookup, insert, lookup-insert}
use ipojknm.Errors.{GoError, ok}
use ipojknm.V2.Config.{BedrockServerConfig, status}
use ipojknm.V2.Raknet.{
  UnconnectedPing, UnconnectedPong, id_unconnected_ping, id_unconnected_ping_open_connections,
  empty_ping, unconnected_message_sequence, read_ping,
}
use ipojknm.V2.Server.{
  Connections, Effect, sent, serve, handle_unconnected_ping, answer, forward, send, behind,
  start_bedrock_server, Datagram,
}

-- The pong that answers a ping.
abbrev pub pong_for : BedrockServerConfig → UnconnectedPing → UnconnectedPong
pong_for cfg pk = record {
  send_timestamp = pk.send_timestamp;
  magic = unconnected_message_sequence;
  server_guid = cfg.id;
  text = status cfg;
}

-- The packet IDs that `serve` answers itself.
abbrev pub is_ping : List ℕ → Bool
is_ping [] = false
is_ping (b ∷ bb) = b == id_unconnected_ping || b == id_unconnected_ping_open_connections

answer_keeps :
    (cfg : BedrockServerConfig) (m : Connections) (r : UnconnectedPing × Option GoError)
    → behind (answer cfg m r) m ≡ m
unfolding answer behind
answer_keeps cfg m (pk, none) = refl
answer_keeps cfg m (pk, some e) = refl

send_keeps :
    (effects : List Effect) (m m' : Connections) (conn : Option ℕ) (bb : List ℕ)
    → (behind (send effects m' conn bb) m ≡ m) ⊎ (behind (send effects m' conn bb) m ≡ m')
unfolding send behind
send_keeps effects m m' none bb = inl refl
send_keeps effects m m' (some conn) bb = inr refl

module _ (k : GoString) (conn : Option ℕ) where
  abbrev Has : Connections → Type 0
  Has m = lookup k m ≡ some conn

  other_entry :
      (ip : GoString) (dialed : Option ℕ) (m : Connections)
      → lookup ip m ≡ none
      → Has m
      → Has (insert ip dialed m)
  other_entry ip dialed m absent h = lookup-insert ip k dialed m ∙ elim (Bool-cases (str_eq ip k)) [
    | inl same ↦
        absurd (let gone : lookup k m ≡ none = rw (← (str_eq_iff ip k).0 same) absent in cc)
    | inr other ↦ rw other h
  ]

  send-Has :
      (effects : List Effect) (m m' : Connections) (c : Option ℕ) (bb : List ℕ)
      → Has m
      → Has m'
      → Has (behind (send effects m' c bb) m)
  send-Has effects m m' c bb h h' = elim (send_keeps effects m m' c bb) [
    | inl e ↦ rw e h
    | inr e ↦ rw e h'
  ]

  forward-Has :
      (m : Connections) (o : Option (Option ℕ)) (ip : GoString) (dialed : Option ℕ) (bb : List ℕ)
      → lookup ip m ≡ o
      → Has m
      → Has (behind (forward m o ip dialed bb) m)
  unfolding forward
  forward-Has m (some c) ip dialed bb e h = send-Has [] m m c bb h h
  forward-Has m none ip dialed bb e h = send-Has _ m _ dialed bb h (other_entry ip dialed m e h)

  serve-Has :
      (cfg : BedrockServerConfig) (ip : GoString) (dialed : Option ℕ) (bb : List ℕ)
      (m : Connections)
      → Has m
      → Has (behind (serve cfg ip dialed bb m) m)
  unfolding serve handle_unconnected_ping
  serve-Has cfg ip dialed [] m h = forward-Has m (lookup ip m) ip dialed [] refl h
  serve-Has cfg ip dialed (b ∷ bb) m h = elim (Bool-cases (is_ping (b ∷ bb))) [
    | inl e ↦ rw (e, answer_keeps cfg m (read_ping empty_ping bb)) h
    | inr e ↦ rw e (forward-Has m (lookup ip m) ip dialed (b ∷ bb) refl h)
  ]

  start_bedrock_server-Has :
      (cfg : BedrockServerConfig) (ds : List Datagram) (m : Connections)
      → Has m
      → Has (start_bedrock_server cfg ds m)
  unfolding start_bedrock_server
  start_bedrock_server-Has cfg [] m h = h
  start_bedrock_server-Has cfg (d ∷ ds) m h =
      start_bedrock_server-Has cfg ds _ (serve-Has cfg d.ip d.dialed d.bytes m h)

-- A client that has a connection to the server keeps it, whatever datagrams come in between and
-- whatever Dial would give: what it sends goes to that connection, and nothing is dialed.
pub start_bedrock_server_keeps :
    (cfg : BedrockServerConfig) (ip : GoString) (conn : ℕ) (ds : List Datagram) (m : Connections)
    (dialed : Option ℕ) (bb : List ℕ)
    → lookup ip m ≡ some (some conn)
    → is_ping bb ≡ false
    → serve cfg ip dialed bb (start_bedrock_server cfg ds m)
      ≡ ok (sent conn bb ∷ [], start_bedrock_server cfg ds m)
unfolding serve
start_bedrock_server_keeps cfg ip conn ds m dialed bb h plain =
    to_server bb (start_bedrock_server cfg ds m)
      (start_bedrock_server-Has ip (some conn) cfg ds m h) plain
  where
    to_server :
        (bb : List ℕ) (m : Connections)
        → lookup ip m ≡ some (some conn)
        → is_ping bb ≡ false
        → serve cfg ip dialed bb m ≡ ok (sent conn bb ∷ [], m)
    to_server [] m h e = rw (h, serve, forward, send) refl
    to_server (b ∷ bb) m h e = rw (serve, e, h, forward, send) refl
