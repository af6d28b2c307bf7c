-- ===== src/Driver/Recv/Sound/Rounds.antt =====
-- Each round of `h5_recv` in hci_rtk_h5.c keeps the buffer sound.
use br_external.Prelude.{
  ℕ, ◌+◌, ◌*◌, ◌/◌, ◌-◌, ◌%◌, ◌<◌, ◌≡◌, ◌⊎◌, inl, inr, refl, subst, arith, Bool-cases, true, false,
  not, ◌&&◌, ◌==◌, option_cases, List, length, take, get_or, get_or-All,
}
use br_external.Coex.Hci.{Hci}
use br_external.H5.State.{
  RxEscState, w4_pkt_delimiter, w4_pkt_start, w4_hdr, w4_data, w4_crc, noesc, esc,
}
use br_external.Driver.State.{H5Struct, no_skb}
use br_external.Driver.Queues.{
  is_reliable, acknowledged, h5_pkt_cull, passed_up, h5_complete_rx_pkt,
}
use br_external.Driver.Recv.{
  data_of, is_buffer, used, has_crc, put_byte, freed_to, h5_unslip_one_byte, in_packet, in_hdr,
  in_data, in_crc, bscp_get_crc,
}
use br_external.Driver.Recv.Sound.{
  Fits, IsByte, Sound, put_byte-Sound, buffer_there, freed_to-Sound,
}

pub moved : (g h : H5Struct) → g ≡ h → Sound g → Sound h
moved g h e s = subst (λ x. Sound x) e s

escaped-Sound : (e : RxEscState) (h5 : H5Struct) → Sound h5 → Sound (record h5 { rx_esc_state = e })
escaped-Sound e h5 s = record { unmisused = s.unmisused; bytes = s.bytes; fits = s.fits }

dropped-Sound :
    (h5 : H5Struct)
    → h5.misused ≡ false
    → is_buffer h5.rx_skb ≡ true
    → Sound (record (used h5) { rx_skb = no_skb; rx_state = w4_pkt_delimiter; rx_count = 0 })
dropped-Sound h5 u buffer = record {
  unmisused = ground (arith, u, buffer);
  bytes = tt;
  fits = refl;
}

after_esc :
    (byte : ℕ) (h5 : H5Struct)
    → 0 < h5.rx_count
    → h5.rx_esc_state ≡ esc
    → Sound h5
    → Sound (h5_unslip_one_byte byte h5)
unfolding h5_unslip_one_byte
after_esc byte h5 left e s =
    let plain : H5Struct = record h5 { rx_esc_state = noesc } in
    let to : (b : ℕ) → b < 256 → Sound (put_byte b plain) =
      λ b small. put_byte-Sound b plain small left (escaped-Sound noesc h5 s) in
    elim (Bool-cases (byte == 0xdc)) [
      | inl y ↦ moved _ _ (ground (arith, e, y)) (to 0xc0 (omega arith))
      | inr n1 ↦ elim (Bool-cases (byte == 0xdd)) [
        | inl y ↦ moved _ _ (ground (arith, e, n1, y)) (to 0xdb (omega arith))
        | inr n2 ↦ elim (Bool-cases (byte == 0xde)) [
          | inl y ↦ moved _ _ (ground (arith, e, n1, n2, y)) (to 0x11 (omega arith))
          | inr n3 ↦ elim (Bool-cases (byte == 0xdf)) [
            | inl y ↦ moved _ _ (ground (arith, e, n1, n2, n3, y)) (to 0x13 (omega arith))
            | inr n4 ↦ moved _ _ (ground (arith, e, n1, n2, n3, n4)) (
                dropped-Sound h5 s.unmisused
                  (buffer_there h5.rx_count h5.rx_state h5.rx_skb left s.fits))
          ]
        ]
      ]
    ]

without_esc :
    (byte : ℕ) (h5 : H5Struct)
    → byte < 256
    → 0 < h5.rx_count
    → h5.rx_esc_state ≡ noesc
    → Sound h5
    → Sound (h5_unslip_one_byte byte h5)
unfolding h5_unslip_one_byte
without_esc byte h5 small left e s = elim (Bool-cases (byte == 0xdb)) [
  | inl y ↦
      moved (record h5 { rx_esc_state = esc }) _ (ground (arith, e, y)) (escaped-Sound esc h5 s)
  | inr n ↦ moved (put_byte byte h5) _ (ground (arith, e, n)) (put_byte-Sound byte h5 small left s)
]

esc_cases : (e : RxEscState) → (e ≡ noesc) ⊎ (e ≡ esc)
esc_cases noesc = inl refl
esc_cases esc = inr refl

pub in_packet-Sound :
    (byte : ℕ) (h5 : H5Struct) → byte < 256 → 0 < h5.rx_count → Sound h5 → Sound (in_packet byte h5)
unfolding in_packet
in_packet-Sound byte h5 small left s = elim (Bool-cases (byte == 0xc0)) [
  | inl y ↦
      moved (freed_to w4_pkt_start h5) _ (ground (arith, y))
        (freed_to-Sound h5 s.unmisused
          (buffer_there h5.rx_count h5.rx_state h5.rx_skb left s.fits)).1
  | inr n ↦ elim (esc_cases h5.rx_esc_state) [
    | inl e ↦
        moved (h5_unslip_one_byte byte h5) _ (ground (arith, n))
          (without_esc byte h5 small left e s)
    | inr e ↦ moved (h5_unslip_one_byte byte h5) _ (ground (arith, n)) (after_esc byte h5 left e s)
  ]
]

complete-Sound :
    (hci : Hci) (skb : List ℕ) (h5 : H5Struct)
    → h5.misused ≡ false
    → h5.rx_count ≡ 0
    → Sound (h5_complete_rx_pkt hci skb h5)
unfolding h5_complete_rx_pkt acknowledged h5_pkt_cull
complete-Sound hci skb h5 u z =
    option_cases (λ (x : H5Struct). Sound x) (passed_up skb) _ _
      (λ _. record { unmisused = u; bytes = tt; fits = z })
      (λ t _. record { unmisused = u; bytes = tt; fits = z })

-- The length in a header is of 12 bits.
pub in_hdr-Sound :
    (h5 : H5Struct) → h5.rx_count ≡ 0 → h5.rx_state ≡ w4_hdr → Sound h5 → Sound (in_hdr h5)
unfolding in_hdr
in_hdr-Sound h5 z e s =
    let skb = data_of h5.rx_skb in
    let fits = subst (λ t. Fits t h5.rx_count h5.rx_skb) e s.fits in
    let freed = (freed_to-Sound h5 s.unmisused fits.0).0 in
    let one = get_or-All IsByte skb 1 0 (omega arith) s.bytes in
    let two = get_or-All IsByte skb 2 0 (omega arith) s.bytes in
    let bad =
      not (255 - (get_or skb 0 0 + get_or skb 1 0 + get_or skb 2 0) % 256 == get_or skb 3 0) in
    let late = is_reliable skb && not (get_or skb 0 0 % 8 == h5.rxseq_txack) in
    elim (Bool-cases bad) [
      | inl y ↦ moved (freed_to w4_pkt_delimiter h5) _ (ground (arith, y)) freed
      | inr n ↦ elim (Bool-cases late) [
        | inl y ↦
            moved (record (freed_to w4_pkt_delimiter h5) { txack_req = true; woken = true }) _
              (ground (arith, n, y))
              (record { unmisused = freed.unmisused; bytes = tt; fits = refl })
        | inr m ↦
            moved
              (record (used h5) {
                rx_state = w4_data;
                rx_count = get_or skb 1 0 / 16 + get_or skb 2 0 * 16;
              })
              _ (ground (arith, n, m))
              (record {
                unmisused = ground (arith, s.unmisused, fits.0);
                bytes = s.bytes;
                fits = (fits.0, omega (arith, fits.1, one, two));
              })
      ]
    ]

pub in_data-Sound :
    (hci : Hci) (h5 : H5Struct)
    → h5.rx_count ≡ 0
    → h5.rx_state ≡ w4_data
    → Sound h5
    → Sound (in_data hci h5)
unfolding in_data
in_data-Sound hci h5 z e s =
    let fits = subst (λ t. Fits t h5.rx_count h5.rx_skb) e s.fits in
    let u : (used h5).misused ≡ false = ground (arith, s.unmisused, fits.0) in
    elim (Bool-cases (has_crc (data_of h5.rx_skb))) [
      | inl crc ↦
          moved (record (used h5) { rx_state = w4_crc; rx_count = 2 }) _ (ground (arith, crc))
            (record { unmisused = u; bytes = s.bytes; fits = (fits.0, omega (arith, fits.1)) })
      | inr plain ↦
          moved (h5_complete_rx_pkt hci (data_of h5.rx_skb) (used h5)) _ (ground (arith, plain))
            (complete-Sound hci (data_of h5.rx_skb) (used h5) u z)
    ]

pub in_crc-Sound :
    (b : ℕ → ℕ) (hci : Hci) (h5 : H5Struct)
    → h5.rx_count ≡ 0
    → h5.rx_state ≡ w4_crc
    → Sound h5
    → Sound (in_crc b hci h5)
unfolding in_crc
in_crc-Sound b hci h5 z e s =
    let skb = data_of h5.rx_skb in
    let fits = subst (λ t. Fits t h5.rx_count h5.rx_skb) e s.fits in
    let u : (used h5).misused ≡ false = ground (arith, s.unmisused, fits.0) in
    elim (Bool-cases (b h5.message_crc == bscp_get_crc skb)) [
      | inl right ↦
          moved (h5_complete_rx_pkt hci (take (length skb - 2) skb) (used h5)) _
            (ground (arith, right)) (complete-Sound hci (take (length skb - 2) skb) (used h5) u z)
      | inr wrong ↦
          moved (freed_to w4_pkt_delimiter h5) _ (ground (arith, wrong))
            (freed_to-Sound h5 s.unmisused fits.0).0
    ]
