-- ===== src/Sniffer/Prints.antt =====
-- What tools/phy-sniffer/tinyhan-sniffer.c makes of the frames of lib/tinymac.c.
use tinyhan.Mac.Client.{contains}
use tinyhan.Sniffer.Waiting.{
  read_text, read_text-pending_text, Waits, contains-pending_addrs, pending_addrs-contains,
}
use tinyhan.Base.{
  ap, sym, ℕ, zero, suc, ◌+◌, ◌-◌, ◌*◌, ◌^◌, ◌<◌, ◌≤◌, ◌≡◌, refl, ◌∙◌, inl, inr, Bool, true, false,
  ◌&&◌, not, none, some, List, [], ◌∷◌, ◌++◌, arith, ltb, leb, ◌==◌, length, length-append,
  length-drop, take, drop, has_bit, is_some, bit_or, if_ind, Bool-cases, if◌then◌else◌,
}
use tinyhan.Base.Bytes.{le_bytes}
use tinyhan.Mac.Types.{Header, Node, Mac, is_send_pending}
use tinyhan.Mac.Wire.PacketType
use tinyhan.Mac.Wire.{
  max_nodes, header_bytes, header_size, beacon_size, beacon_bytes, permit_attach_bit,
}
use tinyhan.Mac.Wire.RoundTrip.{read_header-header_bytes, payload_uuid-beacon_bytes}
use tinyhan.Mac.Transmit.{pending_addrs, beacon_payload, beacon_header}
use tinyhan.Mac.Receive.{packet_type}
use tinyhan.Mac.Handshake.Parts.{length-frame}
use tinyhan.Sniffer.{
  short_beacon, Line, beacon, hex_list, pending_text, print_beacon, print_frame, rx_func,
}

length-header_bytes : (h : Header) → length (header_bytes h) ≡ 6
unfolding header_bytes le_bytes
length-header_bytes h = refl

length-hex_list : (addresses : List ℕ) → length (hex_list addresses) ≡ 3 * length addresses
length-hex_list [] = omega arith
length-hex_list (a ∷ addresses) = omega (arith, length-hex_list addresses)

length-pending_text :
    (addresses : List ℕ) → length (pending_text addresses) ≡ 3 * length addresses + 2
length-pending_text addresses =
    omega (arith, length-append (hex_list addresses) (0x7d ∷ []), length-hex_list addresses)

take_all : (xs : List ℕ) → take (length xs) xs ≡ xs
take_all [] = refl
take_all (x ∷ xs) = ap (◌∷◌ x) (take_all xs)

-- The text of a beacon fits up to 84 addresses.
too_long :
    (text size : ℕ) → text ≡ 3 * (size - 12) + 2 → 12 ≤ size → ltb 256 (text + 1) ≡ leb 97 size
too_long text size e h = ground arith

some_unless : (b : Bool) (l : Line) → is_some (if b then none else some l) ≡ not b
some_unless true l = refl
some_unless false l = refl

print_beacon_fits :
    (hdr : Header) (p : List ℕ)
    → beacon_size ≤ length p
    → is_some (print_beacon hdr p (length p + header_size)) ≡ not (leb 97 (length p))
unfolding print_beacon
print_beacon_fits hdr p h =
    let rest = drop beacon_size p in
    let size : length p + header_size - header_size - beacon_size ≡ length rest =
      omega (arith, length-drop beacon_size p) in
    let long =
      too_long (length (pending_text rest)) (length p)
        (omega (arith, length-pending_text rest, length-drop beacon_size p)) h in
    rw (print_beacon, size, take_all rest) (some_unless _ _ ∙ ap not long)

beacon_arm :
    (h : Header) (p : List ℕ)
    → is_some (
        if ltb (length p + header_size) 18
        then some (short_beacon h)
        else print_beacon h p (length p + header_size))
      ≡ not (leb 97 (length p))
beacon_arm h p = elim (Bool-cases (ltb (length p + header_size) 18)) [
  | inl b ↦ let small : leb 97 (length p) ≡ false = ground arith in rw (b, small) refl
  | inr b ↦ rw b (print_beacon_fits h p (ground arith))
]

-- Of all frames with a header, exactly the beacons with 85 addresses or more are not printed: their text
-- overruns the 256 bytes of `pending`. Beacons are the frames of type 0, and one with 85 addresses has
-- 97 bytes behind its header. The flags fit 16 bits; whatever number `tinymacType_Data` is.
pub rx_func-fits :
    (type_data : ℕ) (h : Header) (p : List ℕ)
    → h.flags < 2 ^ 16
    → is_some (rx_func type_data (header_bytes h ++ p))
      ≡ not (packet_type h == PacketType.beacon && leb 97 (length p))
unfolding rx_func print_frame
rx_func-fits type_data h p hf =
    let (back, payload) = read_header-header_bytes h p hf in
    let size : length (header_bytes h ++ p) ≡ length p + header_size =
      omega (arith, length-append (header_bytes h) p, length-header_bytes h) in
    rw (rx_func, length-frame h p, back, payload, size, print_frame)
      (elim (Bool-cases (packet_type h == PacketType.beacon)) [
        | inl b ↦ rw b (beacon_arm h p)
        | inr b ↦ rw b refl
      ])

length-pending_addrs : (nodes : ℕ → Node) (k n : ℕ) → length (pending_addrs nodes k n) ≤ k
unfolding pending_addrs
length-pending_addrs nodes zero n = omega arith
length-pending_addrs nodes (suc k) n =
    let shorter = length-pending_addrs nodes k (n + 1) in
    if_ind (λ (l : List ℕ). length l ≤ suc k) (is_send_pending (nodes n).state) _ _
      (λ _. omega (arith, shorter)) (λ _. omega (arith, shorter))

-- The addresses in a beacon.
abbrev listed : Mac → Bool → List ℕ
listed k periodic = if periodic then pending_addrs k.nodes max_nodes 0 else []

length-listed : (k : Mac) (periodic : Bool) → length (listed k periodic) ≤ 32
length-listed k true = length-pending_addrs k.nodes max_nodes 0
length-listed k false = omega arith

-- The payload of a beacon in front of its addresses.
length-beacon_bytes :
    (u t f n : ℕ) (addresses : List ℕ)
    → length (beacon_bytes u t f n addresses) ≡ 12 + length addresses
unfolding beacon_bytes le_bytes
length-beacon_bytes u t f n addresses = omega arith

too_short : (text n : ℕ) → text ≡ 3 * n + 2 → n ≤ 84 → ltb 256 (text + 1) ≡ false
too_short text n e h = ground arith

print_beacon-written :
    (hdr : Header) (u t f n : ℕ) (addresses : List ℕ)
    → u < 2 ^ 64
    → length addresses ≤ 84
    → print_beacon hdr (beacon_bytes u t f n addresses) (18 + length addresses)
      ≡ some (beacon hdr (has_bit f 0) (has_bit f permit_attach_bit) u (pending_text addresses))
unfolding print_beacon
print_beacon-written hdr u t f n addresses hu hl =
    let (eu, ef, ea) = payload_uuid-beacon_bytes u t f n addresses hu in
    let size : 18 + length addresses - header_size - beacon_size ≡ length addresses = omega arith in
    let fits : ltb 256 (length (pending_text addresses) + 1) ≡ false =
      too_short (length (pending_text addresses)) (length addresses) (length-pending_text addresses)
        hl in
    rw (print_beacon, size, ea, take_all addresses, fits, eu, ef) refl

flag_bits :
    (a b : Bool)
    → let flags = bit_or (if a then 1 else 0) (if b then 2 else 0) in
      (has_bit flags 0 ≡ a) × (has_bit flags permit_attach_bit ≡ b)
flag_bits true true = (refl, refl)
flag_bits true false = (refl, refl)
flag_bits false true = (refl, refl)
flag_bits false false = (refl, refl)

-- A beacon that a coordinator sends is printed with its fields.
rx_func-beacon_frame :
    (type_data : ℕ) (k : Mac) (periodic : Bool)
    → k.params.uuid < 2 ^ 64
    → rx_func type_data (header_bytes (beacon_header k) ++ beacon_payload k periodic)
      ≡ some (
          beacon
            (beacon_header k)
            periodic
            k.permit_attach
            k.params.uuid
            (pending_text (listed k periodic)))
unfolding rx_func print_frame
rx_func-beacon_frame type_data k periodic hu =
    let h = beacon_header k in
    let p = beacon_payload k periodic in
    let flags = bit_or (if periodic then 1 else 0) (if k.permit_attach then 2 else 0) in
    let (back, payload) = read_header-header_bytes h p (omega arith) in
    let size : length (header_bytes h ++ p) ≡ 18 + length (listed k periodic) = omega (
      arith,
      length-append (header_bytes h) p,
      length-header_bytes h,
      length-beacon_bytes k.params.uuid k.slot flags 15 (listed k periodic),
    ) in
    let (sync, permit) = flag_bits periodic k.permit_attach in
    let text = pending_text (listed k periodic) in
    let long : ltb (18 + length (listed k periodic)) 18 ≡ false = ground arith in
    rw (rx_func, length-frame h p, back, payload, size, print_frame, long)
      (print_beacon-written h k.params.uuid k.slot flags 15 (listed k periodic) hu
          (omega (arith, length-listed k periodic))
        ∙ (λ i. some (beacon h (sync i) (permit i) k.params.uuid text)))

-- What a coordinator with data for some of its 32 nodes announces: the sniffer prints its beacon with its
-- header, as a synchronous one, with whether attachment is permitted and the coordinator's UUID (which
-- fits 64 bits), and with a text in braces. Read back as pairs of hexadecimal digits, this text has the
-- addresses (which are bytes) of exactly the nodes for which data waits. An answer to a beacon request
-- is printed with the empty braces.
pub rx_func-beacon :
    (type_data : ℕ) (k : Mac) (a : ℕ)
    → k.params.uuid < 2 ^ 64
    → ((i : ℕ) → i < max_nodes → (k.nodes i).addr < 256)
    → let frame =
        λ (periodic : Bool). header_bytes (beacon_header k) ++ beacon_payload k periodic in
      let h = beacon_header k in
      (text : List ℕ) × (rx_func type_data (frame true)
        ≡ some (beacon h true k.permit_attach k.params.uuid text))
      × (contains a (read_text text) ≡ true → Waits k.nodes max_nodes 0 a)
      × (Waits k.nodes max_nodes 0 a → contains a (read_text text) ≡ true)
      × (rx_func type_data (frame false)
          ≡ some (beacon h false k.permit_attach k.params.uuid (0x7b ∷ (0x7d ∷ []))))
rx_func-beacon type_data k a hu ha =
    let addrs = pending_addrs k.nodes max_nodes 0 in
    let back : read_text (pending_text addrs) ≡ addrs =
      read_text-pending_text k.nodes max_nodes 0 (λ i q. ha i (omega (arith, q))) in
    (
      pending_text addrs,
      rx_func-beacon_frame type_data k true hu,
      λ h. contains-pending_addrs k.nodes max_nodes 0 a (ap (contains a) (sym back) ∙ h),
      λ w. ap (contains a) back ∙ pending_addrs-contains k.nodes max_nodes 0 a w,
      rx_func-beacon_frame type_data k false hu,
    )
