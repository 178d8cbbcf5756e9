-- ===== src/Tests/Workers.antt =====
-- The configs, the worker manager and the backend workers at concrete settings.
use ipojknm.Root.Link.{Link, leaving, gone, new_pipe, unread, up_round, close_server}
use ipojknm.Ingress.Sessions.{
  Session, fresh, proxying, over, Traffic, set, proxy_connection, start, begin, copy, finish,
  other_event, Reach, unmoved, moved,
}
use ipojknm.Ingress.Sessions.Counted.{running, Reach-work}
use ipojknm.Prelude.{
  ℕ, true, false, none, some, ◌≡◌, ◌≢◌, ◌↔◌, refl, List, [], ◌∷◌, ltb, arith, All, inl, inr,
}
use ipojknm.Prelude.Text.{GoString, bytes_of}
use ipojknm.Errors.{eof, ok, fault, is_ok}
use ipojknm.Mc.Handshake.{login, no_handshake}
use ipojknm.Core.{RequestData, ServerState}
use ipojknm.Limiter.{always_allow, allow_conn}
use ipojknm.Agents.{real_ip_2_4, Exchange, always_online, agent_state}
use ipojknm.Config.{ServerConfig, BackendWorkerConfig, no_config}
use ipojknm.Config.Verify.{verify_configs, verify_configs_iff, NoRepeat, all_domains, IsUsable}
use ipojknm.Config.Convert.{
  Outside, not_exist, converted, server_to_backend_config, verified-server_to_backend_config,
}
use ipojknm.Backend.{
  BackendWorker, new_empty_backend_worker, Env, handle_request, proxy_open, proxy_close,
}
use ipojknm.Backend.Requests.{Answered, handle_request-Answered, agent_says}
use ipojknm.Backend.Server.{server_handle, status_request, server_handle_panics}
use ipojknm.Backend.Settings.{proxied, request, update, new_backend_config, work, has_active_conn}
use ipojknm.Backend.Life.{IsPlain}

abbrev target : GoString
target = bytes_of "192.168.0.2:25566"

abbrev config_of : GoString → List GoString → ServerConfig
config_of path domains = record no_config { file_path = path; domains = domains; proxy_to = target }

abbrev lobby : ServerConfig
lobby = config_of (bytes_of "lobby.json") (bytes_of "play.example.com" ∷ [])

abbrev creative : ServerConfig
creative = config_of (bytes_of "creative.json") (bytes_of "creative.example.com" ∷ [])

verify_configs_iff_example :
    (verify_configs (lobby ∷ creative ∷ []) ≡ [])
    ↔ (NoRepeat (all_domains (lobby ∷ creative ∷ [])) × All IsUsable (lobby ∷ creative ∷ []))
verify_configs_iff_example = verify_configs_iff (lobby ∷ creative ∷ [])

abbrev outside : Outside
outside = record {
  parse_duration = λ s. none;
  json_marshal = λ r. [];
  read_private_key = λ path. not_exist;
  existing_key = λ cfg. ok none;
  generate_keys = λ cfg. ok none;
}

both_accepted : verify_configs (lobby ∷ creative ∷ []) ≡ []
both_accepted =
    verify_configs_iff_example.1
      (((λ e. cc, tt), (tt, tt)), ((λ e. cc, λ e. cc), ((λ e. cc, λ e. cc), tt)))

verified-server_to_backend_config_example : is_ok (server_to_backend_config outside creative) ≡ true
verified-server_to_backend_config_example =
    verified-server_to_backend_config outside (lobby ∷ []) creative [] both_accepted refl

abbrev worker : BackendWorker
worker = record new_empty_backend_worker { conn_creator = some target }

abbrev quiet : Exchange
quiet = record {
  dial = none;
  write_handshake = none;
  write_request = none;
  answer = [];
  at_end = eof;
}

abbrev env : Env
env = record {
  agent_clock = λ k. 100;
  agent_dial = none;
  cache_clock = λ k. 100;
  exchange = quiet;
  limiter_clock = λ k. 100;
  stamp = 1625000000;
}

abbrev a_login : RequestData
a_login = record {
  type = login;
  handshake = no_handshake;
  server_addr = bytes_of "play.example.com";
  addr = some (bytes_of "10.0.0.7:40000");
  username = bytes_of "Steve";
}

handle_request-Answered_example : Answered worker a_login (handle_request env a_login worker)
handle_request-Answered_example =
    handle_request-Answered env a_login worker target (inl (bytes_of "10.0.0.7:40000", refl, tt))
      refl

abbrev real_ip : BackendWorker
real_ip = record worker {
  hs_modifier = some real_ip_2_4;
  conn_limiter = some always_allow;
  server_state = some always_online;
}

always_lets : allow_conn env.limiter_clock status_request always_allow ≡ ok (true, always_allow)
unfolding allow_conn
always_lets = refl

is_online : agent_says env real_ip.server_state ≢ ServerState.offline
unfolding agent_state
is_online e = cc

server_handle_panics_example : server_handle env a_login real_ip ≡ fault
server_handle_panics_example =
    server_handle_panics env a_login real_ip real_ip_2_4 target always_allow always_allow
      always_lets is_online refl refl refl refl

abbrev half_left : Link
half_left = record proxy_connection { up = record new_pipe { stage = leaving } }

abbrev ended : Link
ended = record half_left { up = record new_pipe { stage = gone }; server_open = false }

abbrev two_sessions : ℕ → Session
two_sessions = set 1 (proxying proxy_connection) (set 0 (proxying proxy_connection) (λ i. fresh))

abbrev worker_config : BackendWorkerConfig
worker_config = converted outside creative (bytes_of "creative.example.com") none

-- A status request without an address comes in between, and an update.
abbrev one_left : Traffic
one_left = record {
  sessions = set 0 over (set 0 (proxying ended) (set 0 (proxying half_left) two_sessions));
  events =
      proxied proxy_open
      ∷ proxied proxy_open
      ∷ request env status_request
      ∷ update (new_backend_config 100 worker_config)
      ∷ proxied proxy_close
      ∷ [];
}

one_has_ended : Reach 2 start one_left
one_has_ended =
    moved
      (moved
        (moved
          (moved
            (moved
              (moved (moved unmoved (begin 0 (omega arith) refl refl))
                (begin 1 (omega arith) refl refl))
              (copy 0 proxy_connection half_left (omega arith) refl
                (up_round (record new_pipe { stage = leaving }) (unread refl refl) refl) refl))
            (other_event (request env status_request) tt refl))
          (other_event (update (new_backend_config 100 worker_config)) tt refl))
        (copy 0 half_left ended (omega arith) refl (close_server refl refl) refl))
      (finish 0 ended (omega arith) refl refl refl)

one_left-IsPlain : All IsPlain one_left.events
unfolding new_backend_config converted
one_left-IsPlain = (tt, (tt, (inr refl, (refl, (tt, tt)))))

Reach-work_example :
    (w' : BackendWorker) × (work one_left.events worker ≡ ok w')
    × (w'.active_conns ≡ running 2 one_left.sessions)
    × (has_active_conn w' ≡ ltb 0 (running 2 one_left.sessions))
Reach-work_example =
    Reach-work 2 one_left worker target one_has_ended one_left-IsPlain refl refl refl (omega arith)
