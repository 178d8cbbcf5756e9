-- ===== src/Mc/Handshake/Panics.antt =====
-- Which handshake parsers panic, and where.
use ipojknm.Prelude.{ℕ, ◌^◌, ◌≤◌, ◌≡◌, List, ◌++◌}
use ipojknm.Errors.{eof, fault}
use ipojknm.Mc.VarInt.{IsU32, encode}
use ipojknm.Mc.VarInt.RoundTrip.{decode-encode}
use ipojknm.Mc.Field.RoundTrip.{decode_string_negative}
use ipojknm.Mc.Packet.{scan}
use ipojknm.Mc.Handshake.{unmarshal_handshake, scan_handshake}

-- A handshake packet whose address length is a negative int32 makes UnmarshalServerBoundHandshake
-- panic, whatever its version is and whatever follows.
pub unmarshal_handshake_panics :
    (version l : ℕ) (rest : List ℕ)
    → IsU32 version
    → 2 ^ 31 ≤ l
    → IsU32 l
    → unmarshal_handshake (record { id = 0; content = encode version ++ (encode l ++ rest) })
      ≡ fault
unfolding unmarshal_handshake scan scan_handshake
unmarshal_handshake_panics version l rest hv h u =
    rw (decode-encode version eof (encode l ++ rest) hv, decode_string_negative l eof rest h u)
