-- ===== src/H5/Recv/Safety.antt =====
-- Whatever bytes come in, `h5_recv` ends, and touches no memory that is not its own.
use br_external.Prelude.{
  ℕ, zero, suc, ◌+◌, ◌*◌, ◌<◌, ◌≡◌, refl, sym, subst, arith, ◌==◌, List, [], ◌∷◌, length, All,
  Outcome, ok, exited, fault, looping, Safe, if_cases,
}
use br_external.H5.Frame.Due.{malloc-given}
use br_external.H5.Prepare.{is_set}
use br_external.H5.Skb.{SkbPtr, null, live, freed, skb_alloc, fresh}
use br_external.H5.Skb.Laws.{fresh-IsBlock, fresh_sizes, contents-fresh}
use br_external.H5.State.{Rtb, RxState, w4_pkt_delimiter, w4_pkt_start, w4_hdr, w4_data, w4_crc}
use br_external.H5.State.Valid.{IsByte, IsPacket, Holding, IsValid}
use br_external.H5.Recv.{
  Round, next, again, stop, recv_delimiter, alloc_packet, recv_start, recv_in, round, turn,
  recv_loop, h5_recv,
}
use br_external.H5.Recv.Progress.{rank, rank-le, Progress, recv_byte-Safe, is_set→lt, is_set→eq}
use br_external.H5.Recv.Packet.{recv_hdr-Safe, recv_data-Safe, recv_crc-Safe}

-- Between packets the delimiter is waited for, or awaited to end.
idle_at :
    (st st' : RxState) (n : ℕ) (p : SkbPtr)
    → st ≡ w4_pkt_delimiter
    → Holding st n p
    → Holding w4_pkt_start n p
idle_at st st' n null e h = subst (λ st. Holding st n null) e h
idle_at st st' n freed e h = subst (λ st. Holding st n freed) e h
idle_at st st' n (live s) e h = subst (λ st. Holding st n (live s)) e h

recv_delimiter-Safe :
    (s : Rtb) (byte r : ℕ)
    → IsValid s
    → s.h5.rx_state ≡ w4_pkt_delimiter
    → Safe (Progress r) (recv_delimiter s byte)
unfolding recv_delimiter
recv_delimiter-Safe s byte r v st =
    let w = v.h5_valid in
    if_cases (Safe (Progress r)) (byte == 0xc0) _ _
      (λ _. record {
        h5_valid = record {
          holding = idle_at s.h5.rx_state w4_pkt_start s.h5.rx_count s.h5.rx_skb st w.holding;
          crc = w.crc;
          rxseq = w.rxseq;
          txseq = w.txseq;
        };
        given = v.given;
      })
      (λ _. v)

fresh-IsPacket : IsPacket (fresh 0x1005)
fresh-IsPacket = record {
  block = fresh-IsBlock 0x1005 (omega arith);
  base = (fresh_sizes 0x1005).0;
  size = (fresh_sizes 0x1005).2;
  bytes = subst (All IsByte) (sym (contents-fresh 0x1005)) tt;
}

recv_start-Safe : (s : Rtb) (byte : ℕ) → IsValid s → Safe (Progress 1) (recv_start s byte)
unfolding recv_start skb_alloc alloc_packet
recv_start-Safe s byte v =
    let w = v.h5_valid in
    let (heap', e, a) = malloc-given s.heap v.given in
    if_cases (Safe (Progress 1)) (byte == 0xc0) _ _ (λ _. v)
      (λ _. rw e (
        record {
          h5_valid = record {
            holding = (fresh-IsPacket, omega (arith, fresh_sizes 0x1005));
            crc = omega arith;
            rxseq = w.rxseq;
            txseq = w.txseq;
          };
          given = a;
        },
        omega arith,
      ))

-- A round where no byte of a packet is to come, by the state.
recv_in-Safe :
    (st : RxState) (s : Rtb) (byte : ℕ) (p : SkbPtr)
    → IsValid s
    → s.h5.rx_count ≡ 0
    → s.h5.rx_state ≡ st
    → s.h5.rx_skb ≡ p
    → Holding st 0 p
    → Safe (Progress (rank 0 st)) (recv_in st s byte)
unfolding recv_in
recv_in-Safe w4_pkt_delimiter s byte p v z es ep h = recv_delimiter-Safe s byte 0 v es
recv_in-Safe w4_pkt_start s byte p v z es ep h = recv_start-Safe s byte v
recv_in-Safe w4_hdr s byte null v z es ep h = absurd h
recv_in-Safe w4_hdr s byte freed v z es ep h = absurd h
recv_in-Safe w4_hdr s byte (live skb) v z es ep h = recv_hdr-Safe s v skb ep h.0 (omega arith)
recv_in-Safe w4_data s byte null v z es ep h = absurd h
recv_in-Safe w4_data s byte freed v z es ep h = absurd h
recv_in-Safe w4_data s byte (live skb) v z es ep h =
    recv_data-Safe s v skb ep h.0 h.1 (omega arith) z
recv_in-Safe w4_crc s byte null v z es ep h = absurd h
recv_in-Safe w4_crc s byte freed v z es ep h = absurd h
recv_in-Safe w4_crc s byte (live skb) v z es ep h = recv_crc-Safe s v skb ep h.0 (omega arith) z

round-Safe :
    (s : Rtb) (byte : ℕ)
    → IsValid s
    → IsByte byte
    → Safe (Progress (rank s.h5.rx_count s.h5.rx_state)) (round s byte)
unfolding round
round-Safe s byte v b =
    let n = s.h5.rx_count in
    let st = s.h5.rx_state in
    if_cases (Safe (Progress (rank n st))) (is_set n) _ _
      (λ e. recv_byte-Safe s byte (rank n st) v b (is_set→lt n e))
      (λ e.
        let z = is_set→eq n e in
        subst (λ k. Safe (Progress (rank k st)) (recv_in st s byte)) (sym z)
          (recv_in-Safe st s byte s.h5.rx_skb v z refl refl
            (subst (λ k. Holding st k s.h5.rx_skb) z v.h5_valid.holding)))

turn-Safe :
    (r : ℕ) (on back : Rtb → Outcome Rtb) (m : Outcome Round)
    → Safe (Progress r) m
    → ((t : Rtb) → IsValid t → Safe IsValid (on t))
    → ((t : Rtb) → IsValid t → rank t.h5.rx_count t.h5.rx_state < r → Safe IsValid (back t))
    → Safe IsValid (turn on back m)
unfolding turn
turn-Safe r on back (ok (next t)) h f g = f t h
turn-Safe r on back (ok (again t)) h f g = g t h.0 h.1
turn-Safe r on back (ok (stop t)) h f g = h
turn-Safe r on back exited h f g = tt
turn-Safe r on back fault h f g = h
turn-Safe r on back looping h f g = h

recv_loop-Safe :
    (fuel : ℕ) (s : Rtb) (bytes : List ℕ)
    → IsValid s
    → All IsByte bytes
    → 3 * length bytes + rank s.h5.rx_count s.h5.rx_state < fuel
    → Safe IsValid (recv_loop fuel s bytes)
unfolding recv_loop
recv_loop-Safe zero s bytes v b m = absurd (omega arith)
recv_loop-Safe (suc fuel) s [] v b m = v
recv_loop-Safe (suc fuel) s (byte ∷ bytes) v b m =
    turn-Safe (rank s.h5.rx_count s.h5.rx_state) _ _ (round s byte) (round-Safe s byte v b.0)
      (λ t w.
        recv_loop-Safe fuel t bytes w b.1 (omega (arith, rank-le t.h5.rx_count t.h5.rx_state)))
      (λ t w less. recv_loop-Safe fuel t (byte ∷ bytes) w b (omega arith))

-- From every valid state, in which `malloc` does not fail, and for every sequence of bytes: the loop
-- of `h5_recv` ends within three rounds for each byte and three more, no null or freed buffer is
-- used, no buffer is freed twice, nothing outside a block is read or written, and
-- where the function returns (instead of exiting on a short event), the state is valid again.
pub h5_recv-Safe :
    (s : Rtb) (bytes : List ℕ) → IsValid s → All IsByte bytes → Safe IsValid (h5_recv s bytes)
unfolding h5_recv
h5_recv-Safe s bytes v b =
    recv_loop-Safe (3 * length bytes + 3) s bytes v b
      (omega (arith, rank-le s.h5.rx_count s.h5.rx_state))
