-- ===== src/H5/Recv/Arrival.antt =====
-- A whole packet on its way through `h5_recv`, up to the call of `h5_complete_rx_pkt`.
use br_external.Prelude.{
  ℕ, zero, suc, ◌+◌, ◌-◌, ◌*◌, ◌/◌, ◌<◌, ◌^◌, ◌≡◌, refl, ap, subst, ◌∙◌, arith, bit_and, Bool, true,
  false, not, ◌==◌, ==_refl, if◌then◌else◌, List, [], ◌∷◌, ◌++◌, length, length-append, get_or,
  take, take-length_append, Outcome, ok, exited, fault, looping, ◌>>=◌, Safe,
}
use br_external.Prelude.Bits.{bit_and_255}
use br_external.H5.Crc.{h5_crc_update, bit_rev16}
use br_external.H5.Crc.Reversal.{h5_crc_update-lt, bit_rev16-lt}
use br_external.H5.Frame.{h5_complete_rx_pkt}
use br_external.H5.Frame.Settled.{Waiting}
use br_external.H5.Prepare.{is_set, crc_bytes}
use br_external.H5.Prepare.Encoding.{crc_run}
use br_external.H5.Skb.{Skb, SkbPtr, null, freed, live, contents, read, deref, skb_trim}
use br_external.H5.Skb.Laws.{read_lem, contents-skb_trim}
use br_external.H5.State.{Rtb, w4_pkt_delimiter, w4_data, w4_crc}
use br_external.H5.State.Valid.{Holding}
use br_external.H5.Recv.{
  Round, again, recv_data, recv_crc, give_up, h5_get_crc, recv_in, round, turn, recv_loop,
}
use br_external.H5.Recv.Steps.{Steps-trans, step_again}
use br_external.H5.Recv.Phases.{round_idle, started, step_delimiter, HasBytes}

none_waiting : (n : ℕ) (p : SkbPtr) → Holding w4_pkt_delimiter n p → n ≡ 0
none_waiting n null h = h
none_waiting n freed h = h
none_waiting n (live skb) h = absurd h

pub Waiting-count : (u : Rtb) → Waiting u → u.h5.rx_count ≡ 0
Waiting-count u w =
    none_waiting u.h5.rx_count u.h5.rx_skb
      (subst (λ st. Holding st u.h5.rx_count u.h5.rx_skb) w.1 w.0.h5_valid.holding)

loop_end : (f : ℕ) (s : Rtb) → recv_loop (suc f) s [] ≡ ok s
unfolding recv_loop
loop_end f s = refl

-- The closing delimiter, with the round that completes a packet before it.
pub closing :
    (f g : ℕ) (t : Rtb) (m : Outcome Rtb)
    → g ≡ 3 + f
    → round t 0xc0 ≡ (m >>= λ u. ok (again u))
    → Safe Waiting m
    → recv_loop g t (0xc0 ∷ []) ≡ (m >>= λ u. ok (started u))
closing f g t (ok u) e r w =
    Steps-trans 1 1 2 t u (started u) (0xc0 ∷ []) (0xc0 ∷ []) [] refl (step_again t u 0xc0 [] r)
      (step_delimiter u [] (Waiting-count u w) w.1) (suc f) g (omega arith)
    ∙ loop_end f (started u)
closing f g t exited e r w =
    unfold recv_loop turn in let e' : g ≡ suc (2 + f) = omega arith in rw (e', r)
closing f g t fault e r w = absurd w
closing f g t looping e r w = absurd w

pub crc_run-lt : (crc : Bool) (cs : List ℕ) (reg : ℕ) → reg < 2 ^ 16 → crc_run crc reg cs < 2 ^ 16
unfolding crc_run
crc_run-lt crc [] reg h = h
crc_run-lt true (c ∷ cs) reg h = crc_run-lt true cs (h5_crc_update reg c) (h5_crc_update-lt reg c h)
crc_run-lt false (c ∷ cs) reg h = crc_run-lt false cs reg h

pub crc_run_off : (reg : ℕ) (cs : List ℕ) → crc_run false reg cs ≡ reg
unfolding crc_run
crc_run_off reg [] = refl
crc_run_off reg (c ∷ cs) = crc_run_off reg cs

-- `recv_data` behind the pointer, where the first byte says that a CRC follows.
abbrev data_of : Rtb → Skb → Outcome Round
data_of s skb = do
  d0 ← read skb 0
  if is_set (bit_and d0 0x40)
      then ok (again (record s { h5 = record (s.h5) { rx_state = w4_crc; rx_count = 2 } }))
      else (do s' ← h5_complete_rx_pkt s; ok (again s'))

-- All of the payload is in.
module _ (s : Rtb) (skb : Skb) (d0 : ℕ) (bytes : List ℕ) (h : HasBytes s skb (d0 ∷ bytes))
    (st : s.h5.rx_state ≡ w4_data) (b : ℕ) where
  data_round : round s b ≡ data_of s skb
  data_round =
      round_idle s b h.none_left
      ∙ ap (λ x. recv_in x s b) st
      ∙ (unfold recv_in recv_data in ap (λ p. deref p >>= data_of s) h.held)

  first : read skb 0 ≡ ok d0
  first = read_lem skb 0 h.block (omega (arith, h.size)) ∙ ap (λ l. ok (get_or l 0 0)) h.holds

  pub data_without_crc :
      is_set (bit_and d0 0x40) ≡ false → round s b ≡ (h5_complete_rx_pkt s >>= λ u. ok (again u))
  data_without_crc e = data_round ∙ rw (first, e)

  pub data_with_crc :
      is_set (bit_and d0 0x40) ≡ true
      → round s b ≡ ok (again (record s { h5 = record (s.h5) { rx_state = w4_crc; rx_count = 2 } }))
  data_with_crc e = data_round ∙ rw (first, e)

get_or_past : (xs ys : List ℕ) (i n : ℕ) → n ≡ length xs + i → get_or (xs ++ ys) n 0 ≡ get_or ys i 0
get_or_past [] ys i n e = let e' : n ≡ i = omega (arith, e) in ap (λ k. get_or ys k 0) e'
get_or_past (x ∷ xs) ys i zero e = absurd (omega arith)
get_or_past (x ∷ xs) ys i (suc n) e = get_or_past xs ys i n (omega arith)

take_all : (xs ys : List ℕ) (n : ℕ) → n ≡ length xs → take n (xs ++ ys) ≡ xs
take_all xs ys n e = ap (λ k. take k (xs ++ ys)) e ∙ take-length_append xs ys

crc_value :
    (reg : ℕ)
    → reg < 2 ^ 16
    → get_or (crc_bytes reg) 1 0 + get_or (crc_bytes reg) 0 0 * 256 ≡ bit_rev16 reg
crc_value reg h =
    rw (bit_and_255 (bit_rev16 reg / 256), bit_and_255 (bit_rev16 reg))
      (omega (arith, bit_rev16-lt reg h))

-- `recv_crc` behind the pointer.
abbrev crc_of : Rtb → Skb → Outcome Round
crc_of s skb = do
  crc ← h5_get_crc skb
  if not (bit_rev16 s.h5.message_crc == crc) then give_up s else (do
    s' ←
        h5_complete_rx_pkt
          (record s { h5 = record (s.h5) { rx_skb = live (skb_trim skb (skb.data_len - 2)) } })
    ok (again s'))

-- All of the CRC is in.
module _ (s : Rtb) (skb : Skb) (bytes : List ℕ)
    (h : HasBytes s skb (bytes ++ crc_bytes s.h5.message_crc)) (reg16 : s.h5.message_crc < 2 ^ 16)
    (st : s.h5.rx_state ≡ w4_crc) (b : ℕ) where
  sizes : skb.data_len ≡ length bytes + 2
  sizes = h.size ∙ length-append bytes (crc_bytes s.h5.message_crc)

  byte_at :
      (i n : ℕ)
      → i < 2
      → n ≡ length bytes + i
      → read skb n ≡ ok (get_or (crc_bytes s.h5.message_crc) i 0)
  byte_at i n less e =
      read_lem skb n h.block (omega (arith, sizes))
      ∙ ap (λ l. ok (get_or l n 0)) h.holds
      ∙ ap ok (get_or_past bytes (crc_bytes s.h5.message_crc) i n e)

  pub trimmed : contents (skb_trim skb (skb.data_len - 2)) ≡ bytes
  trimmed =
      contents-skb_trim skb (skb.data_len - 2) (omega (arith, sizes))
      ∙ ap (take (skb.data_len - 2)) h.holds
      ∙ take_all bytes (crc_bytes s.h5.message_crc) (skb.data_len - 2) (omega (arith, sizes))

  get_crc : h5_get_crc skb ≡ ok (bit_rev16 s.h5.message_crc)
  unfolding h5_get_crc
  get_crc =
      rw
        (
          byte_at 0 (skb.data_len - 2) (omega arith) (omega (arith, sizes)),
          byte_at 1 (skb.data_len - 2 + 1) (omega arith) (omega (arith, sizes)),
        )
        (ap ok (crc_value s.h5.message_crc reg16))

  behind : recv_in w4_crc s b ≡ crc_of s skb
  unfolding recv_in recv_crc
  behind = ap (λ p. deref p >>= crc_of s) h.held

  pub crc_round : round s b ≡ (
      h5_complete_rx_pkt
        (record s { h5 = record (s.h5) { rx_skb = live (skb_trim skb (skb.data_len - 2)) } })
      >>= λ u. ok (again u))
  crc_round =
      round_idle s b h.none_left
      ∙ ap (λ x. recv_in x s b) st
      ∙ behind
      ∙ rw (get_crc, ==_refl (bit_rev16 s.h5.message_crc))
