-- ===== src/Packet/RoundTrip.antt =====
-- What the getters read from a packet that NewEchoPacket made.
use touch_go_core.Prelude.{
  ℕ, zero, suc, ◌+◌, ◌-◌, ◌%◌, ◌^◌, ◌<◌, ◌≤◌, Bytes, [], ◌∷◌, ◌++◌, some, ◌≡◌, refl, ap, ◌∙◌, true,
  leb, length-drop, length-replicate, arith, length, take, drop, replicate,
}
use touch_go_core.Packet.{
  slice, uint32, get_length, get_protocol1, get_protocol2, get_body, copy, copy_at, bytes_of,
  new_echo_packet,
}

uint32-bytes_of : (v : ℕ) (xs : Bytes) → v < 2 ^ 32 → uint32 (bytes_of v ++ xs) ≡ some v
unfolding uint32 bytes_of
uint32-bytes_of v xs h = ap some (omega arith)

-- A copy into zeros keeps what fits and leaves zeros behind it.
copy-zeros :
    (n : ℕ) (src : Bytes) → copy (replicate n 0) src ≡ take n src ++ replicate (n - length src) 0
unfolding copy
copy-zeros zero src = let e : 0 ≡ 0 - length src = omega arith in ap (λ (k : ℕ). replicate k 0) e
copy-zeros (suc n) [] = let e : suc n ≡ suc n - 0 = omega arith in ap (λ (k : ℕ). replicate k 0) e
copy-zeros (suc n) (x ∷ src) =
    let e : n - length src ≡ suc n - suc (length src) = omega arith in
    ap (λ (t : Bytes). x ∷ t) (copy-zeros n src ∙ ap (λ (k : ℕ). take n src ++ replicate k 0) e)

length-copy : (dst src : Bytes) → length (copy dst src) ≡ length dst
unfolding copy
length-copy [] src = refl
length-copy (x ∷ dst) [] = refl
length-copy (x ∷ dst) (y ∷ src) = ap suc (length-copy dst src)

copy_empty : (dst : Bytes) → copy dst [] ≡ dst
unfolding copy
copy_empty [] = refl
copy_empty (x ∷ dst) = refl

take_all : (n : ℕ) (xs : Bytes) → length xs ≤ n → take n xs ≡ xs
take_all zero [] h = refl
take_all zero (x ∷ xs) h = absurd (omega arith)
take_all (suc n) [] h = refl
take_all (suc n) (x ∷ xs) h = ap (λ (t : Bytes). x ∷ t) (take_all n xs (omega arith))

slice_rest :
    (lo hi : ℕ) (xs : Bytes) → lo ≤ hi → length xs ≡ hi → slice lo hi xs ≡ some (drop lo xs)
unfolding slice
slice_rest lo hi xs h e =
    let fits : leb lo hi ≡ true = ground arith in
    let ends : leb hi (length xs) ≡ true = ground arith in
    let short : length (drop lo xs) ≤ hi - lo = omega (arith, length-drop lo xs) in
    rw (fits, ends) (ap some (take_all (hi - lo) (drop lo xs) short))

-- The bytes that a packet consists of.
abbrev layout : ℕ → ℕ → ℕ → Bytes → Bytes
layout n p2 p1 rest = bytes_of n ++ (bytes_of p2 ++ (bytes_of p1 ++ rest))

new_echo_packet-layout :
    (p1 p2 : ℕ) (body : Bytes) (n : ℕ)
    → n < 2 ^ 32
    → (new_echo_packet p1 p2 body n).buff ≡ layout n p2 p1 (copy (replicate n 0) body)
unfolding new_echo_packet copy_at copy bytes_of
new_echo_packet-layout p1 p2 body n h =
    let e : 12 + n ≡ suc (suc (suc (suc (suc (suc (suc (suc (suc (suc (suc (suc n))))))))))) =
      omega arith in
    let m : n % 2 ^ 32 ≡ n = omega arith in
    rw (e, m) (ap (λ (t : Bytes). layout n p2 p1 (copy t body)) (copy_empty (replicate n 0)))

length-layout : (n p2 p1 : ℕ) (rest : Bytes) → length (layout n p2 p1 rest) ≡ 12 + length rest
unfolding bytes_of
length-layout n p2 p1 rest = omega arith

-- The getters on a buffer of that layout.
module _ (n p2 p1 : ℕ) (rest : Bytes) where
  layout-fits : (k : ℕ) → k ≤ 12 → leb k (length (layout n p2 p1 rest)) ≡ true
  layout-fits k h =
      let e : length (layout n p2 p1 rest) ≡ 12 + length rest = length-layout n p2 p1 rest in
      ground arith

  length_field : take 4 (layout n p2 p1 rest) ≡ bytes_of n ++ []
  unfolding bytes_of
  length_field = refl

  protocol2_field : take 4 (drop 4 (layout n p2 p1 rest)) ≡ bytes_of p2 ++ []
  unfolding bytes_of
  protocol2_field = refl

  protocol1_field : take 4 (drop 8 (layout n p2 p1 rest)) ≡ bytes_of p1 ++ []
  unfolding bytes_of
  protocol1_field = refl

  body_field : drop 12 (layout n p2 p1 rest) ≡ rest
  unfolding bytes_of
  body_field = refl

  length_run : n < 2 ^ 32 → get_length (record { buff = layout n p2 p1 rest }) ≡ some n
  unfolding get_length slice
  length_run h =
      let long : leb 4 (length (layout n p2 p1 rest)) ≡ true = layout-fits 4 (omega arith) in
      rw long (ap uint32 length_field ∙ uint32-bytes_of n [] h)

  protocol2_run : p2 < 2 ^ 32 → get_protocol2 (record { buff = layout n p2 p1 rest }) ≡ some p2
  unfolding get_protocol2 slice
  protocol2_run h =
      let long : leb 8 (length (layout n p2 p1 rest)) ≡ true = layout-fits 8 (omega arith) in
      rw long (ap uint32 protocol2_field ∙ uint32-bytes_of p2 [] h)

  protocol1_run : p1 < 2 ^ 32 → get_protocol1 (record { buff = layout n p2 p1 rest }) ≡ some p1
  unfolding get_protocol1 slice
  protocol1_run h =
      let long : leb 12 (length (layout n p2 p1 rest)) ≡ true = layout-fits 12 (omega arith) in
      rw long (ap uint32 protocol1_field ∙ uint32-bytes_of p1 [] h)

  body_run :
      12 + n < 2 ^ 32
      → length rest ≡ n
      → get_body (record { buff = layout n p2 p1 rest }) ≡ some rest
  unfolding get_body
  body_run h e =
      let m : (12 + n) % 2 ^ 32 ≡ 12 + n = omega arith in
      let long : length (layout n p2 p1 rest) ≡ 12 + n =
        omega (arith, length-layout n p2 p1 rest, e) in
      rw
        (
          length_run (omega arith),
          m,
          slice_rest 12 (12 + n) (layout n p2 p1 rest) (omega arith) long,
        )
        (ap some body_field)

new_echo_packet_lem :
    (p1 p2 : ℕ) (body : Bytes) (n : ℕ)
    → n < 2 ^ 32
    → new_echo_packet p1 p2 body n ≡ record { buff = layout n p2 p1 (copy (replicate n 0) body) }
new_echo_packet_lem p1 p2 body n h =
    ap (λ (t : Bytes). record { buff = t }) (new_echo_packet-layout p1 p2 body n h)

-- For numbers of 32 bits and a body length that leaves room for the head in 32 bits, the getters of a
-- packet that NewEchoPacket made give back the length, both protocol numbers and, as the body, that
-- many bytes of the source: its first ones, and zeros when it has fewer.
pub new_echo_packet-get_body :
    (protocol1 protocol2 : ℕ) (body : Bytes) (bufflen : ℕ)
    → protocol1 < 2 ^ 32
    → protocol2 < 2 ^ 32
    → 12 + bufflen < 2 ^ 32
    → (get_length (new_echo_packet protocol1 protocol2 body bufflen) ≡ some bufflen)
      × (get_protocol1 (new_echo_packet protocol1 protocol2 body bufflen) ≡ some protocol1)
      × (get_protocol2 (new_echo_packet protocol1 protocol2 body bufflen) ≡ some protocol2)
      × (get_body (new_echo_packet protocol1 protocol2 body bufflen)
          ≡ some (take bufflen body ++ replicate (bufflen - length body) 0))
new_echo_packet-get_body p1 p2 body n h1 h2 h =
    let short : n < 2 ^ 32 = omega arith in
    let rest : Bytes = copy (replicate n 0) body in
    let sized : length rest ≡ n = length-copy (replicate n 0) body ∙ length-replicate n 0 in
    rw (new_echo_packet_lem p1 p2 body n short) (
      length_run n p2 p1 rest short,
      protocol1_run n p2 p1 rest h1,
      protocol2_run n p2 p1 rest h2,
      body_run n p2 p1 rest h sized ∙ ap some (copy-zeros n body),
    )
