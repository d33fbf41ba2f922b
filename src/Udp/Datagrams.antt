-- ===== src/Udp/Datagrams.antt =====
-- What lib/phy-udp.c sends as a datagram and accepts as one.
use tinyhan.Base.{
  ap, ℕ, zero, suc, ◌+◌, ◌-◌, ◌^◌, ◌≤◌, ◌<◌, ◌≡◌, ◌≢◌, refl, sym, ◌∙◌, true, false, ◌&&◌, not, some,
  List, [], ◌∷◌, ◌++◌, arith, length, length-append, ◌==◌, ltb, take, drop, take-length-append,
  if◌then◌else◌,
}
use tinyhan.Base.Bytes.{le_bytes, read_le, length-le_bytes}
use tinyhan.Udp.Crc.{update_crc}
use tinyhan.Udp.Phy.{
  Phy, datagram, received, max_packet, phy_event_handler, crc_of, concat, phy_send,
}

update_crc-append :
    (xs ys : List ℕ) (c : ℕ) → update_crc c (xs ++ ys) ≡ update_crc (update_crc c xs) ys
unfolding update_crc
update_crc-append [] ys c = refl
update_crc-append (x ∷ xs) ys c = update_crc-append xs ys _

-- The checksum over fragments is that of the bytes in a row.
crc_of-concat : (bufs : List (List ℕ)) (c : ℕ) → crc_of c bufs ≡ update_crc c (concat bufs)
unfolding crc_of concat update_crc
crc_of-concat [] c = refl
crc_of-concat (b ∷ bufs) c =
    crc_of-concat bufs (update_crc c b) ∙ sym (update_crc-append b (concat bufs) c)

update_crc_bound : (bs : List ℕ) (c : ℕ) → c < 2 ^ 16 → update_crc c bs < 2 ^ 16
unfolding update_crc
update_crc_bound [] c h = h
update_crc_bound (b ∷ bs) c h = update_crc_bound bs _ (omega arith)

take_all : (n : ℕ) (xs : List ℕ) → length xs ≤ n → take n xs ≡ xs
take_all zero [] h = refl
take_all zero (x ∷ xs) h = absurd (omega arith)
take_all (suc n) [] h = refl
take_all (suc n) (x ∷ xs) h = ap (◌∷◌ x) (take_all n xs (omega arith))

drop-length-append : (xs ys : List ℕ) → drop (length xs) (xs ++ ys) ≡ ys
drop-length-append [] ys = refl
drop-length-append (x ∷ xs) ys = drop-length-append xs ys

read_crc : (c : ℕ) → c < 2 ^ 16 → read_le 2 (le_bytes 2 c) ≡ c
unfolding read_le le_bytes
read_crc c h = omega arith

-- The packet is passed on when there is a callback and the receiver is on.
abbrev pub pass_on : Phy → List ℕ → Phy
pass_on k body = if k.recv_cb && k.listening then record k { log = received body ∷ k.log } else k

handler-le_bytes :
    (k : Phy) (body : List ℕ) (c : ℕ)
    → length body ≤ 254
    → c < 2 ^ 16
    → phy_event_handler k (some (body ++ le_bytes 2 c))
      ≡ (if not (update_crc 0 body == c) then k else pass_on k body)
unfolding phy_event_handler
handler-le_bytes k body c hl hc =
    let frame = body ++ le_bytes 2 c in
    let n : length frame ≡ length body + 2 =
      omega (arith, length-append body (le_bytes 2 c), length-le_bytes 2 c) in
    let whole : take max_packet frame ≡ frame = take_all max_packet frame (omega (arith, n)) in
    let cut : length body + 2 - 2 ≡ length body = omega arith in
    let long : ltb (length body + 2) 2 ≡ false = ground arith in
    rw
      (
        whole,
        n,
        cut,
        long,
        take-length-append body (le_bytes 2 c),
        drop-length-append body (le_bytes 2 c),
        read_crc c hc,
      )
      refl

-- Fragments of at most 254 bytes in all go out as one datagram, which any receiver accepts: it passes
-- their bytes in a row to its callback, if it has one and listens. With any other checksum behind the
-- same bytes the datagram is dropped.
pub phy_event_handler-phy_send :
    (m k : Phy) (bufs : List (List ℕ)) (other : ℕ)
    → length (concat bufs) ≤ 254
    → other < 2 ^ 16
    → let crc = update_crc 0 (concat bufs) in
      ((phy_send m bufs).log ≡ datagram (concat bufs ++ le_bytes 2 crc) ∷ m.log)
      × (phy_event_handler k (some (concat bufs ++ le_bytes 2 crc)) ≡ pass_on k (concat bufs))
      × (other ≢ crc → phy_event_handler k (some (concat bufs ++ le_bytes 2 other)) ≡ k)
unfolding phy_send
phy_event_handler-phy_send m k bufs other hl ho =
    let crc = update_crc 0 (concat bufs) in
    let bound = update_crc_bound (concat bufs) 0 (omega arith) in
    let same : (crc == crc) ≡ true = ground arith in
    (
      ap (λ c. datagram (concat bufs ++ le_bytes 2 c) ∷ m.log) (crc_of-concat bufs 0),
      rw same at (handler-le_bytes k (concat bufs) crc hl bound),
      λ h.
          let differ : (crc == other) ≡ false = ground arith in
          rw differ at (handler-le_bytes k (concat bufs) other hl ho),
    )
