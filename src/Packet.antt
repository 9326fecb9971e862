-- ===== src/Packet.antt =====
-- Packets of util/echoProtocol.go: a head of twelve bytes, big endian, and a body. A 32-bit number is
-- its bit pattern. A panic, which a read or a slice out of range is, gives none; a buffer has no
-- capacity behind its length.
mod RoundTrip
mod Tests
use touch_go_core.Prelude.{
  ℕ, zero, suc, ◌+◌, ◌-◌, ◌*◌, ◌/◌, ◌%◌, ◌^◌, ◌&&◌, Bytes, List, [], ◌∷◌, Option, none, some, ◌>>=◌,
  if◌then◌else◌, leb, length, take, drop, replicate,
}

pub record EchoPacket : Type 0 where
  buff : Bytes

-- xs[lo:hi]
unfoldable pub slice : ℕ → ℕ → Bytes → Option Bytes
slice lo hi xs =
    if leb lo hi && leb hi (length xs) then some (take (hi - lo) (drop lo xs)) else none

-- binary.BigEndian.Uint32
unfoldable pub uint32 : Bytes → Option ℕ
uint32 (a ∷ b ∷ c ∷ d ∷ xs) = some (a * 2 ^ 24 + b * 2 ^ 16 + c * 2 ^ 8 + d)
uint32 _ = none

unfoldable pub get_length : EchoPacket → Option ℕ
get_length p = slice 0 4 p.buff >>= uint32

unfoldable pub get_protocol2 : EchoPacket → Option ℕ
get_protocol2 p = slice 4 8 p.buff >>= uint32

unfoldable pub get_protocol1 : EchoPacket → Option ℕ
get_protocol1 p = slice 8 12 p.buff >>= uint32

-- The end of the body is a sum of 32 bits.
unfoldable pub get_body : EchoPacket → Option Bytes
get_body p = get_length p >>= (λ n. slice 12 ((12 + n) % 2 ^ 32) p.buff)

-- What `copy` of the source leaves in the destination.
unfoldable pub copy : Bytes → Bytes → Bytes
copy [] src = []
copy (x ∷ dst) [] = x ∷ dst
copy (x ∷ dst) (y ∷ src) = y ∷ copy dst src

-- A write of bytes behind the first n.
unfoldable pub copy_at : ℕ → Bytes → Bytes → Bytes
copy_at zero dst src = copy dst src
copy_at (suc n) [] src = []
copy_at (suc n) (x ∷ dst) src = x ∷ copy_at n dst src

-- The four bytes that binary.BigEndian.PutUint32 writes.
unfoldable pub bytes_of : ℕ → Bytes
bytes_of v = v / 2 ^ 24 % 256 ∷ v / 2 ^ 16 % 256 ∷ v / 2 ^ 8 % 256 ∷ v % 256 ∷ []

-- A body's length that is not negative.
unfoldable pub new_echo_packet : ℕ → ℕ → Bytes → ℕ → EchoPacket
new_echo_packet protocol1 protocol2 body bufflen =
    let zeros = replicate (12 + bufflen) 0 in
    let sized = copy_at 0 zeros (bytes_of (bufflen % 2 ^ 32)) in
    let second = copy_at 4 sized (bytes_of protocol2) in
    let first = copy_at 8 second (bytes_of protocol1) in record { buff = copy_at 12 first body }
