-- ===== src/Mc/Login.antt =====
-- mc/packet_login.go and mc/packet_status.go: the other packets. JSON text comes from
-- encoding/json, so SimpleStatus.Marshal takes `json.Marshal` as an argument.
use ipojknm.Prelude.{ℕ, ◌^◌, ◌/◌, ◌<◌, ◌≡◌, List, [], ◌∷◌, ◌++◌, length, ◌==◌, if◌then◌else◌}
use ipojknm.Prelude.Text.{GoString, bytes_of}
use ipojknm.Errors.{eof, invalid_packet_id, Outcome, ok, err, continue}
use ipojknm.Mc.Field.{encode_string, decode_string, encode_long}
use ipojknm.Mc.Field.RoundTrip.{decode_string-encode_string}
use ipojknm.Mc.Packet.{Packet, marshal_packet, scan}

-- ServerLoginStart, ClientBoundDisconnect and ClientBoundResponse have one String each.
pub record ServerLoginStart : Type 0 where
  pub name : GoString

pub record ClientBoundDisconnect : Type 0 where
  pub reason : GoString

pub record ClientBoundResponse : Type 0 where
  pub json_response : GoString

unfoldable pub marshal_login_start : ServerLoginStart → Packet
marshal_login_start pk = marshal_packet 0x00 (encode_string pk.name ∷ [])

unfoldable pub unmarshal_login_start : Packet → Outcome ServerLoginStart
unmarshal_login_start packet =
    if packet.id == 0x00
    then continue (scan packet decode_string) (λ s. ok (record { name = s }))
    else err invalid_packet_id

unfoldable pub marshal_disconnect : ClientBoundDisconnect → Packet
marshal_disconnect pk = marshal_packet 0x00 (encode_string pk.reason ∷ [])

unfoldable pub unmarshal_disconnect : Packet → Outcome ClientBoundDisconnect
unmarshal_disconnect packet =
    if packet.id == 0x00
    then continue (scan packet decode_string) (λ s. ok (record { reason = s }))
    else err invalid_packet_id

unfoldable pub marshal_response : ClientBoundResponse → Packet
marshal_response pk = marshal_packet 0x00 (encode_string pk.json_response ∷ [])

unfoldable pub unmarshal_response : Packet → Outcome ClientBoundResponse
unmarshal_response packet =
    if packet.id == 0x00
    then continue (scan packet decode_string) (λ s. ok (record { json_response = s }))
    else err invalid_packet_id

-- DisconnectClient.Marshal: its Reason is a Go string, converted to a Chat.
pub record DisconnectClient : Type 0 where
  pub reason : GoString

unfoldable pub marshal_disconnect_client : DisconnectClient → Packet
marshal_disconnect_client pk = marshal_packet 0x00 (encode_string pk.reason ∷ [])

-- ServerBoundRequestPacket
unfoldable pub server_bound_request_packet : Packet
server_bound_request_packet = record { id = 0x00; content = [] }

-- NewServerBoundPing: `now` is what time.Now().UnixNano() gives.
unfoldable pub new_server_bound_ping : ℕ → ℕ
new_server_bound_ping now = now / 1_000_000

-- ServerBoundRequest.Marshal and ServerBoundPing.Marshal
unfoldable pub marshal_request : Packet
marshal_request = marshal_packet 0x00 []

unfoldable pub marshal_ping : ℕ → Packet
marshal_ping time = marshal_packet 0x01 (encode_long time ∷ [])

pub record VersionJson : Type 0 where
  pub name : GoString
  pub protocol : ℕ

pub record PlayersJson : Type 0 where
  pub max : ℕ
  pub online : ℕ
  pub sample : List (GoString × GoString)

pub record ResponseJson : Type 0 where
  pub version : VersionJson
  pub players : PlayersJson
  pub description : GoString
  pub favicon : GoString

pub record SimpleStatus : Type 0 where
  pub name : GoString
  pub protocol : ℕ
  pub description : GoString
  pub favicon : GoString

abbrev pub no_status : SimpleStatus
no_status = record { name = []; protocol = 0; description = []; favicon = [] }

-- An empty favicon stays empty.
data_url : GoString → GoString
data_url [] = []
data_url (c ∷ s) = bytes_of "data:image/png;base64," ++ (c ∷ s)

-- The value that SimpleStatus.Marshal hands to json.Marshal.
unfoldable pub status_json : SimpleStatus → ResponseJson
unfolding data_url
status_json pk = record {
  version = record { name = pk.name; protocol = pk.protocol };
  players = record { max = 0; online = 0; sample = [] };
  description = pk.description;
  favicon = data_url pk.favicon;
}

-- SimpleStatus.Marshal
unfoldable pub marshal_status : (ResponseJson → GoString) → SimpleStatus → Packet
marshal_status json_marshal pk =
    marshal_response (record { json_response = json_marshal (status_json pk) })

scan_string :
    (s : GoString) → length s < 2 ^ 31 → decode_string eof (encode_string s ++ []) ≡ ok (s, [])
scan_string s h = decode_string-encode_string s eof [] h

-- A login start is read back from its packet.
pub unmarshal_login_start-marshal_login_start :
    (pk : ServerLoginStart)
    → length pk.name < 2 ^ 31
    → unmarshal_login_start (marshal_login_start pk) ≡ ok pk
unfolding unmarshal_login_start marshal_login_start marshal_packet scan
unmarshal_login_start-marshal_login_start pk h = rw (scan_string pk.name h)

-- A disconnect and a status response of the same text have the same packet, and each parser reads
-- back its text.
pub unmarshal-marshal_text :
    (s : GoString)
    → length s < 2 ^ 31
    → (unmarshal_disconnect (marshal_disconnect (record { reason = s }))
        ≡ ok (record { reason = s }))
      × (unmarshal_response (marshal_response (record { json_response = s }))
          ≡ ok (record { json_response = s }))
unfolding unmarshal_disconnect marshal_disconnect unmarshal_response marshal_response marshal_packet
    scan
unmarshal-marshal_text s h = (rw (scan_string s h), rw (scan_string s h))

-- DifferentStatusResponse: the status of a server as it is, without the one for its players.
pub record DifferentStatusResponse : Type 0 where
  pub version : VersionJson
  pub description : GoString
  pub favicon : GoString

-- DifferentStatusResponse.Marshal: no prefix is put before the favicon.
unfoldable pub marshal_different_status :
    (ResponseJson → GoString) → DifferentStatusResponse → Packet
marshal_different_status json_marshal pk = marshal_response (record {
  json_response = json_marshal (record {
    version = pk.version;
    players = record { max = 0; online = 0; sample = [] };
    description = pk.description;
    favicon = pk.favicon;
  });
})
