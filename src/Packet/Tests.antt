-- ===== src/Packet/Tests.antt =====
-- The packets of util/echoProtocol.go at concrete bytes.
use touch_go_core.Prelude.{[], ◌∷◌, some, none, ◌≡◌, refl, arith}
use touch_go_core.Packet.{
  slice, uint32, get_length, get_protocol1, get_protocol2, get_body, new_echo_packet,
}
use touch_go_core.Packet.RoundTrip.{new_echo_packet-get_body}

-- A body length near 2^32 wraps, and the slice ends in front of its start.
wrapped :
    get_body (record { buff = 255 ∷ 255 ∷ 255 ∷ 255 ∷ 0 ∷ 0 ∷ 0 ∷ 0 ∷ 0 ∷ 0 ∷ 0 ∷ 0 ∷ [] }) ≡ none
unfolding get_body get_length slice uint32
wrapped = refl

new_echo_packet-get_body_example :
    (get_length (new_echo_packet 7 4294967295 (1 ∷ 2 ∷ []) 3) ≡ some 3)
    × (get_protocol1 (new_echo_packet 7 4294967295 (1 ∷ 2 ∷ []) 3) ≡ some 7)
    × (get_protocol2 (new_echo_packet 7 4294967295 (1 ∷ 2 ∷ []) 3) ≡ some 4294967295)
    × (get_body (new_echo_packet 7 4294967295 (1 ∷ 2 ∷ []) 3) ≡ some (1 ∷ 2 ∷ 0 ∷ []))
new_echo_packet-get_body_example =
    new_echo_packet-get_body 7 4294967295 (1 ∷ 2 ∷ []) 3 (omega arith) (omega arith) (omega arith)
