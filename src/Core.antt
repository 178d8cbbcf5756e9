-- ===== src/Core.antt =====
-- Package core: what the packages share. A net.Addr is the text that its String method gives, or
-- none for a nil interface, on which a call of String panics.
use ipojknm.Prelude.{[], Option, none, some, ◌≡◌, ◌⊎◌, inl, inr, Option-cases, ap, ◌∙◌}
use ipojknm.Prelude.Text.{GoString, to_lower}
use ipojknm.Prelude.Table.{Table, lookup}
use ipojknm.Errors.{ok_inj, no_server_found, Outcome, ok, err}
use ipojknm.Mc.Packet.{Packet}
use ipojknm.Mc.Handshake.{HandshakeState, ServerBoundHandshake}

pub record RequestData : Type 0 where
  pub type : HandshakeState
  pub handshake : ServerBoundHandshake
  pub server_addr : GoString
  pub addr : Option GoString
  pub username : GoString

pub data ServerAction : Type 0 where
  close default_status send_status verify_conn disconnect : ServerAction
  proxy proxy_realip_2_4 proxy_realip_2_5 : ServerAction

pub data ServerState : Type 0 where
  unknown online offline : ServerState

-- BasicServerCatalog over any kind of server.
pub record ServerCatalog (V : Type 0) : Type 0 where
  pub server_dict : Table V
  pub default_status_pk : Packet
  pub verify_conn_pk : Packet

module _ {V : Type 0} where
  -- NewEmptyServerCatalog
  unfoldable pub new_empty_server_catalog : Packet → Packet → ServerCatalog V
  new_empty_server_catalog d v = record {
    server_dict = [];
    default_status_pk = d;
    verify_conn_pk = v;
  }

  -- NewServerCatalog
  unfoldable pub new_server_catalog : Table V → Packet → Packet → ServerCatalog V
  new_server_catalog servers d v = record {
    server_dict = servers;
    default_status_pk = d;
    verify_conn_pk = v;
  }

  -- `server, ok := dict[k]` with the error of Find
  found_or_error : Option V → Outcome V
  found_or_error none = err no_server_found
  found_or_error (some server) = ok server

  -- BasicServerCatalog.Find
  unfoldable pub find : GoString → ServerCatalog V → Outcome V
  unfolding found_or_error
  find addr catalog = found_or_error (lookup (to_lower addr) catalog.server_dict)

  -- The only error of Find.
  pub find-cases :
      (addr : GoString) (catalog : ServerCatalog V)
      → (find addr catalog ≡ err no_server_found) ⊎ ((server : V) × (find addr catalog ≡ ok server))
  unfolding find found_or_error
  find-cases addr catalog = elim (Option-cases (lookup (to_lower addr) catalog.server_dict)) [
    | inl absent ↦ inl (rw absent)
    | inr (server, there) ↦ inr (server, rw there)
  ]

  -- A server that Find gives is the one under the address in lower case.
  pub find-ok :
      (addr : GoString) (catalog : ServerCatalog V) (server : V)
      → find addr catalog ≡ ok server
      → lookup (to_lower addr) catalog.server_dict ≡ some server
  unfolding find found_or_error
  find-ok addr catalog server e = elim (Option-cases (lookup (to_lower addr) catalog.server_dict)) [
    | inl absent ↦ cc (rw absent at e)
    | inr (server', there) ↦ there ∙ ap some (ok_inj (rw there at e))
  ]

  pub find-none :
      (addr : GoString) (catalog : ServerCatalog V)
      → lookup (to_lower addr) catalog.server_dict ≡ none
      → find addr catalog ≡ err no_server_found
  unfolding find found_or_error
  find-none addr catalog absent = rw (absent, found_or_error)
