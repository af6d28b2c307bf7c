-- ===== src/H5/Recv/Steps.antt =====
-- Runs of the loop of `h5_recv` over a known part of its bytes.
use br_external.Prelude.{
  ℕ, suc, ◌+◌, ◌-◌, ◌≤◌, ◌<◌, ◌^◌, ◌≡◌, ◌≢◌, refl, sym, ap, ap₂, subst, ◌∙◌, arith, bit_and, Bool,
  not, ◌&&◌, if◌then◌else◌, inl, inr, List, [], ◌∷◌, ◌++◌, length, length-append, append_assoc,
  get_or, ok,
}
use br_external.H5.Crc.{h5_crc_update}
use br_external.H5.Prepare.{is_set}
use br_external.H5.Prepare.Encoding.{slip_all, crc_run, Appended-refl, Appended-trans}
use br_external.H5.Skb.{Skb, live, contents}
use br_external.H5.Skb.Laws.{IsBlock, Appended, appended, append-Appended}
use br_external.H5.Slip.{slip_bytes, is_w4_crc, h5_unslip_one_byte}
use br_external.H5.Slip.Laws.{received, counted, enter_escape, unslip-slip_bytes}
use br_external.H5.State.{H5, Rtb, RxState, noesc, esc}
use br_external.H5.Recv.{next, again, recv_byte, round, recv_loop}

-- `n` rounds take the loop from one state and rest of the bytes to another.
abbrev pub Steps : ℕ → Rtb → List ℕ → Rtb → List ℕ → Type 0
Steps n s xs t ys = (f g : ℕ) → g ≡ n + f → recv_loop g s xs ≡ recv_loop f t ys

pub Steps-refl : (s : Rtb) (xs : List ℕ) → Steps 0 s xs s xs
Steps-refl s xs f g e = let e' : g ≡ f = omega arith in rw e'

pub Steps-trans :
    (n m k : ℕ) (s t u : Rtb) (xs ys zs : List ℕ)
    → k ≡ n + m
    → Steps n s xs t ys
    → Steps m t ys u zs
    → Steps k s xs u zs
Steps-trans n m k s t u xs ys zs e p q f g eg = p (m + f) g (omega arith) ∙ q f (m + f) refl

-- A round that uses its byte up.
pub step_next :
    (s t : Rtb) (byte : ℕ) (bytes : List ℕ)
    → round s byte ≡ ok (next t)
    → Steps 1 s (byte ∷ bytes) t bytes
unfolding recv_loop
step_next s t byte bytes h f g e = let e' : g ≡ suc f = omega arith in rw (e', h)

-- A round that comes back to its byte.
pub step_again :
    (s t : Rtb) (byte : ℕ) (bytes : List ℕ)
    → round s byte ≡ ok (again t)
    → Steps 1 s (byte ∷ bytes) t (byte ∷ bytes)
unfolding recv_loop
step_again s t byte bytes h f g e = let e' : g ≡ suc f = omega arith in rw (e', h)

-- A byte of a packet, where decoding goes well.
pub round_byte :
    (s : Rtb) (byte : ℕ) (h : H5)
    → 0 < s.h5.rx_count
    → byte ≢ 0xc0
    → h5_unslip_one_byte s.h5 byte ≡ ok h
    → round s byte ≡ ok (next (record s { h5 = h }))
unfolding round recv_byte
round_byte s byte h more ne e = ground arith

-- The receiver in a packet, ready for its next bytes.
pub record Ready (s : Rtb) (skb : Skb) : Type 0 where
  pub held : s.h5.rx_skb ≡ live skb
  pub block : IsBlock skb
  pub plain : s.h5.rx_esc_state ≡ noesc
  pub count : s.h5.rx_count < 2 ^ 32

-- The state after `n` bytes more.
abbrev pub filled : Rtb → Skb → ℕ → ℕ → Rtb
filled s t n crc = record s {
  h5 = record (s.h5) { rx_skb = live t; message_crc = crc; rx_count = s.h5.rx_count - n };
}

abbrev escaped : Rtb → Rtb
escaped s = record s { h5 = record (s.h5) { rx_esc_state = esc } }

Steps-byte :
    (s : Rtb) (skb : Skb) (c : ℕ) (rest : List ℕ)
    → Ready s skb
    → skb.off + skb.data_len + 1 ≤ skb.max_len
    → 0 < s.h5.rx_count
    → Steps
        (length (slip_bytes c))
        s
        (slip_bytes c ++ rest)
        (record s { h5 = received s.h5 skb c })
        rest
Steps-byte s skb c rest r room more =
    elim (unslip-slip_bytes s.h5 skb c r.held r.block room more r.count r.plain) [
      | inl p ↦ rw p.0 (step_next s _ c rest (round_byte s c _ more p.1 p.2))
      | inr p ↦ rw p.1 (
          Steps-trans 1 1 2 s (escaped s) (record s { h5 = received s.h5 skb c })
            (0xdb ∷ p.0 ∷ rest) (p.0 ∷ rest) rest refl
            (step_next s (escaped s) 0xdb (p.0 ∷ rest) (
              round_byte s 0xdb (escaped s).h5 more (omega arith)
                (enter_escape s.h5 skb c r.held r.block room more r.count r.plain)))
            (step_next (escaped s) _ p.0 rest (round_byte (escaped s) p.0 _ more p.2 p.3)))
    ]

get_or-first : (xs ys : List ℕ) (c : ℕ) → get_or (xs ++ c ∷ ys) 0 0 ≡ get_or (xs ++ c ∷ []) 0 0
get_or-first [] ys c = refl
get_or-first (x ∷ xs) ys c = refl

-- Whether a packet's bytes are counted into the CRC, by its first byte and the state.
abbrev pub counting : ℕ → RxState → Bool
counting hdr0 st = is_set (bit_and hdr0 0x40) && not (is_w4_crc st)

counted-first :
    (st : RxState) (held cs : List ℕ) (hdr0 crc c : ℕ)
    → get_or (held ++ c ∷ cs) 0 0 ≡ hdr0
    → counted st held crc c ≡ (if counting hdr0 st then h5_crc_update crc c else crc)
counted-first st held cs hdr0 crc c e =
    let e' : get_or (held ++ c ∷ []) 0 0 ≡ hdr0 = sym (get_or-first held cs c) ∙ e in rw e'

filled_next :
    (s : Rtb) (skb : Skb) (c : ℕ) (t : Skb) (n crc crc' : ℕ)
    → crc ≡ crc'
    → filled (record s { h5 = received s.h5 skb c }) t n crc ≡ filled s t (suc n) crc'
filled_next s skb c t n crc crc' e =
    let left_path : s.h5.rx_count - 1 - n ≡ s.h5.rx_count - suc n = omega arith in
    ap₂ (λ x k. record s { h5 = record (s.h5) { rx_skb = live t; message_crc = x; rx_count = k } })
      e left_path

-- A byte, and then the rest of a part.
Steps-then :
    (c : ℕ) (cs rest : List ℕ) (s s1 u v : Rtb)
    → u ≡ v
    → Steps
        (length (slip_bytes c))
        s
        (slip_bytes c ++ (slip_all cs ++ rest))
        s1
        (slip_all cs ++ rest)
    → Steps (length (slip_all cs)) s1 (slip_all cs ++ rest) u rest
    → Steps (length (slip_all (c ∷ cs))) s (slip_all (c ∷ cs) ++ rest) v rest
unfolding slip_all
Steps-then c cs rest s s1 u v e p q =
    rw (← e, append_assoc)
      (Steps-trans (length (slip_bytes c)) (length (slip_all cs)) _ s s1 u _ _ rest
        (length-append (slip_bytes c) (slip_all cs)) p q)

abbrev Filled : Rtb → Skb → ℕ → List ℕ → List ℕ → Type 0
Filled s skb hdr0 cs rest =
    (t : Skb) × Appended skb cs t
    × Steps (length (slip_all cs)) s (slip_all cs ++ rest)
        (filled s t (length cs) (crc_run (counting hdr0 s.h5.rx_state) s.h5.message_crc cs)) rest

-- The escaped bytes of a part of a packet are decoded into the buffer and counted into the CRC.
pub Steps-bytes :
    (cs : List ℕ) (s : Rtb) (skb : Skb) (hdr0 : ℕ) (rest : List ℕ)
    → Ready s skb
    → skb.off + skb.data_len + length cs ≤ skb.max_len
    → length cs ≤ s.h5.rx_count
    → get_or (contents skb ++ cs) 0 0 ≡ hdr0
    → Filled s skb hdr0 cs rest
unfolding slip_all crc_run
Steps-bytes [] s skb hdr0 rest r room more first =
    (skb, Appended-refl skb r.block, subst (λ t. Steps 0 s rest t rest) here (Steps-refl s rest))
  where
    here : s ≡ filled s skb 0 s.h5.message_crc
    here = ground (arith, r.held)
Steps-bytes (c ∷ cs) s skb hdr0 rest r room more first =
    let a = append-Appended skb (c ∷ []) r.block (omega arith) in
    let s1 : Rtb = record s { h5 = received s.h5 skb c } in
    let skb1 = appended skb (c ∷ []) in
    let st = s.h5.rx_state in
    let reg = if counting hdr0 st then h5_crc_update s.h5.message_crc c else s.h5.message_crc in
    let first1 : get_or (contents skb1 ++ cs) 0 0 ≡ hdr0 =
      rw a.holds (ap (λ l. get_or l 0 0) (append_assoc (contents skb) (c ∷ []) cs) ∙ first) in
    let (t, b, q) =
      Steps-bytes cs s1 skb1 hdr0 rest
        (record { held = refl; block = a.valid; plain = r.plain; count = omega (arith, r.count) })
        (omega arith) (omega arith) first1 in
    let crc_path = counted-first st (contents skb) cs hdr0 s.h5.message_crc c first in
    let end =
      filled_next s skb c t (length cs) _ _ (ap (λ x. crc_run (counting hdr0 st) x cs) crc_path) in
    (
      t,
      Appended-trans (c ∷ []) cs a b,
      Steps-then c cs rest s s1 _ _ end
          (Steps-byte s skb c (slip_all cs ++ rest) r (omega arith) (omega arith)) q,
    )
