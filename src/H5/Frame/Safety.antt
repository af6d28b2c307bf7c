-- ===== src/H5/Frame/Safety.antt =====
-- A received packet is handled without undefined behaviour, and the receiver's fields are kept.
use br_external.Prelude.{
  ℕ, ◌+◌, ◌-◌, ◌*◌, ◌≤◌, ◌<◌, ◌≡◌, refl, arith, bit_or, bit_and, not, ◌==◌, Outcome, ◌>>=◌, Safe,
  Safe-bind, if_cases, get_or,
}
use br_external.H5.Skb.{Skb, read, skb_pull}
use br_external.H5.State.{Rtb, Chip, LinkState, sync, config, init, patch, hci_reset, active}
use br_external.H5.Frame.{
  le16_at, read_cmd_answer, init_answer, command_complete, h5_init_hci_cc, h5_post_hci_cc,
  recv_patch_answer, recv_frame_in, hci_recv_frame,
}

-- A read inside the block goes on with some byte.
pub read_then {ℓ} :
    {B : Type ℓ} (Q : B → Type 0) (s : Skb) (i : ℕ) (f : ℕ → Outcome B)
    → s.off + i < s.max_len
    → ((x : ℕ) → Safe Q (f x))
    → Safe Q (read s i >>= f)
unfolding read
read_then Q s i f h k = ground (arith, k (get_or s.mem (s.off + i) 0))

le16_then {ℓ} :
    {B : Type ℓ} (Q : B → Type 0) (s : Skb) (i : ℕ) (f : ℕ → Outcome B)
    → s.off + i + 1 < s.max_len
    → ((x : ℕ) → Safe Q (f x))
    → Safe Q (le16_at s i >>= f)
unfolding read
le16_then Q s i f h k =
    ground (arith, k (bit_or (get_or s.mem (s.off + i) 0) (get_or s.mem (s.off + (i + 1)) 0 * 256)))

-- A cut at the start exits or moves the offset.
pub pull_then {ℓ} :
    {B : Type ℓ} (Q : B → Type 0) (s : Skb) (n : ℕ) (f : Skb → Outcome B)
    → ((t : Skb) → t.max_len ≡ s.max_len → t.off ≡ s.off + n → Safe Q (f t))
    → Safe Q (skb_pull s n >>= f)
unfolding skb_pull
pull_then Q s n f k =
    ground (arith, k (record s { data_len = s.data_len - n; off = s.off + n }) refl refl)

abbrev Any : Chip → Type 0
Any _ = Unit

-- The buffer of a packet, with `data` at most 16 bytes into its block.
abbrev pub Near : Skb → Type 0
Near s = (s.max_len ≡ 0x1005) × (s.off ≤ 16)

read_cmd_answer-Safe :
    (sub : ℕ) (chip : Chip) (s : Skb) → Near s → Safe Any (read_cmd_answer sub chip s)
unfolding read_cmd_answer
read_cmd_answer-Safe sub chip s n =
    if_cases (Safe Any) (sub == 1) _ _
      (λ _. read_then Any s 1 _ (omega arith) (λ a. read_then Any s 2 _ (omega arith) (λ b. tt)))
      λ _.
        if_cases (Safe Any) (sub == 2) _ _ (λ _. le16_then Any s 1 _ (omega arith) (λ a. tt))
          λ _.
            if_cases (Safe Any) (sub == 3) _ _ (λ _. le16_then Any s 1 _ (omega arith) (λ a. tt))
              λ _.
                if_cases (Safe Any) (sub == 4) _ _
                  (λ _. read_then Any s 1 _ (omega arith) (λ a. tt)) λ _. tt

init_answer-Safe :
    (op sub : ℕ) (chip : Chip) (s : Skb) → Near s → Safe Any (init_answer op sub chip s)
unfolding init_answer
init_answer-Safe op sub chip s n =
    if_cases (Safe Any) (op == 0xfc17) _ _ (λ _. tt)
      λ _.
        if_cases (Safe Any) (op == 0x1009) _ _ (λ _. read_then Any s 5 _ (omega arith) (λ a. tt))
          λ _.
            if_cases (Safe Any) (op == 0x1001) _ _
              (λ _. read_then Any s 1 _ (omega arith) (λ a.
                le16_then Any s 2 _ (omega arith)
                  (λ b. le16_then Any s 7 _ (omega arith) (λ c. tt))))
              λ _.
                if_cases (Safe Any) (op == 0xfc6d) _ _
                  (λ _. read_then Any s 1 _ (omega arith) (λ a. tt))
                  λ _.
                    if_cases (Safe Any) (op == 0xfc61) _ _
                      (λ _.
                        Safe-bind Any Any (read_cmd_answer sub chip s) _
                          (read_cmd_answer-Safe sub chip s n) (λ a _. tt))
                      λ _. tt

-- What a handler of a received packet leaves alone.
pub record Kept (s : Rtb) (r : Rtb × Skb) : Type 0 where
  pub h5_same : r.0.h5 ≡ s.h5
  pub heap_same : r.0.heap ≡ s.heap
  pub sent_same : r.0.sent ≡ s.sent

same : (s : Rtb) (skb : Skb) → Kept s (s, skb)
same s skb = record { h5_same = refl; heap_same = refl; sent_same = refl }

abbrev Answered : ℕ × ℕ × Skb → Type 0
Answered r = Near r.2

command_complete-Safe :
    (s : Skb) → s.max_len ≡ 0x1005 → s.off ≡ 4 → Safe Answered (command_complete s)
unfolding command_complete
command_complete-Safe s m o = pull_then Answered s 2 _ λ a ma oa.
    le16_then Answered a 1 _ (omega arith) λ op.
      pull_then Answered a 3 _ λ b mb ob. read_then Answered b 0 _ (omega arith) λ st. omega arith

h5_init_hci_cc-Kept :
    (s : Rtb) (skb : Skb)
    → skb.max_len ≡ 0x1005
    → skb.off ≡ 4
    → Safe (Kept s) (h5_init_hci_cc s skb)
unfolding h5_init_hci_cc
h5_init_hci_cc-Kept s skb m o =
    Safe-bind Answered (Kept s) (command_complete skb) _ (command_complete-Safe skb m o) λ r n.
      if_cases (Safe (Kept s)) (not (r.0 == 0)) _ _ (λ _. same s r.2)
        λ _.
          if_cases (Safe (Kept s)) (not (s.cmd_state.opcode == r.1)) _ _ (λ _. same s r.2)
            λ _.
              Safe-bind Any (Kept s) (init_answer r.1 s.cmd_state.subopcode s.chip r.2) _
                (init_answer-Safe r.1 s.cmd_state.subopcode s.chip r.2 n)
                (λ chip _. record { h5_same = refl; heap_same = refl; sent_same = refl })

h5_post_hci_cc-Kept :
    (s : Rtb) (skb : Skb)
    → skb.max_len ≡ 0x1005
    → skb.off ≡ 4
    → Safe (Kept s) (h5_post_hci_cc s skb)
unfolding h5_post_hci_cc
h5_post_hci_cc-Kept s skb m o =
    Safe-bind Answered (Kept s) (command_complete skb) _ (command_complete-Safe skb m o) λ r n.
      if_cases (Safe (Kept s)) (not (r.0 == 0)) _ _ (λ _. same s r.2)
        λ _.
          if_cases (Safe (Kept s)) (not (s.cmd_state.opcode == r.1)) _ _ (λ _. same s r.2)
            λ _. record { h5_same = refl; heap_same = refl; sent_same = refl }

recv_patch_answer-Kept : (s : Rtb) (skb : Skb) → Near skb → Safe (Kept s) (recv_patch_answer s skb)
unfolding recv_patch_answer
recv_patch_answer-Kept s skb n = read_then (Kept s) skb 0 _ (omega arith) λ code.
    if_cases (Safe (Kept s)) (not (code == 0x0e)) _ _ (λ _. same s skb)
      λ _. read_then (Kept s) skb 6 _ (omega arith) λ index.
        if_cases (Safe (Kept s)) (not (bit_and index 0x80 == 0)) _ _
          (λ _. record { h5_same = refl; heap_same = refl; sent_same = refl })
          (λ _. record { h5_same = refl; heap_same = refl; sent_same = refl })

recv_frame_in-Kept :
    (st : LinkState) (s : Rtb) (skb : Skb)
    → skb.max_len ≡ 0x1005
    → skb.off ≡ 4
    → Safe (Kept s) (recv_frame_in st s skb)
unfolding recv_frame_in
recv_frame_in-Kept init s skb m o = read_then (Kept s) skb 0 _ (omega arith) λ code.
    if_cases (Safe (Kept s)) (code == 0x0e) _ _ (λ _. h5_init_hci_cc-Kept s skb m o)
      (λ _. same s skb)
recv_frame_in-Kept patch s skb m o = recv_patch_answer-Kept s skb (omega arith)
recv_frame_in-Kept hci_reset s skb m o = read_then (Kept s) skb 0 _ (omega arith) λ code.
    if_cases (Safe (Kept s)) (code == 0x0e) _ _ (λ _. h5_post_hci_cc-Kept s skb m o)
      (λ _. same s skb)
recv_frame_in-Kept sync s skb m o = same s skb
recv_frame_in-Kept config s skb m o = same s skb
recv_frame_in-Kept active s skb m o = same s skb

-- A packet that is passed up is read within its block only, and neither the receiver's fields nor
-- what was sent change; the process may exit.
pub hci_recv_frame-Kept :
    (s : Rtb) (skb : Skb)
    → skb.max_len ≡ 0x1005
    → skb.off ≡ 4
    → Safe (Kept s) (hci_recv_frame s skb)
unfolding hci_recv_frame
hci_recv_frame-Kept s skb m o = recv_frame_in-Kept s.link_estab_state s skb m o
