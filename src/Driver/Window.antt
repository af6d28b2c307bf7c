-- ===== src/Driver/Window.antt =====
-- The transmit window of hci_rtk_h5.c: the stream of all reliable packets, of which the first ones
-- are acknowledged, the next ones sent and the last ones still to be sent.
pub mod Cull
pub mod Complete
pub mod Received
pub mod Made
pub mod Send
pub mod Numbered
pub mod Steps
pub mod Run
use br_external.Prelude.{
  ℕ, ◌+◌, ◌%◌, ◌≤◌, ◌≡◌, Bool, true, false, some, List, [], ◌∷◌, ◌++◌, length, All,
}
use br_external.Coex.Hci.{Hci}
use br_external.Driver.State.{H5Struct, Pkt, h5_txwinsize}
use br_external.Driver.Recv.{h5_recv}
use br_external.Driver.Queues.{queue_of, h5_enqueue, h5_dequeue, h5_timed_event}

abbrev pub IsRel : Pkt → Type 0
IsRel p = queue_of p.pkt_type ≡ some true

abbrev pub IsUnrel : Pkt → Type 0
IsUnrel p = queue_of p.pkt_type ≡ some false

-- The stream is what was acknowledged, then both queues; the next number is the place in the stream
-- of the next packet to be sent, modulo 8; at most four packets wait for an acknowledgement.
pub record Window (stream acked : List Pkt) (h5 : H5Struct) : Type 0 where
  pub split : stream ≡ acked ++ (h5.unack ++ h5.rel)
  pub number : h5.msgq_txseq ≡ (length acked + length h5.unack) % 8
  pub small : length h5.unack ≤ h5_txwinsize
  pub rel_fit : All IsRel h5.rel
  pub unack_fit : All IsRel h5.unack
  pub unrel_fit : All IsUnrel h5.unrel

-- The calls of the driver, with the bytes that come in, and its timer.
pub data Step : Type 0 where
  enqueues : Pkt → Step
  dequeues times_out : Step
  receives : List ℕ → Step

unfoldable pub step : (ℕ → ℕ) → Hci → Step → H5Struct → H5Struct
unfolding h5_enqueue h5_dequeue h5_recv h5_timed_event
step bitrev16 hci (enqueues skb) h5 = h5_enqueue skb h5
step bitrev16 hci dequeues h5 = (h5_dequeue bitrev16 h5).1
step bitrev16 hci times_out h5 = h5_timed_event h5
step bitrev16 hci (receives bytes) h5 = (h5_recv bitrev16 hci bytes h5).1

unfoldable pub run : (ℕ → ℕ) → Hci → List Step → H5Struct → H5Struct
unfolding step
run bitrev16 hci [] h5 = h5
run bitrev16 hci (m ∷ ms) h5 = run bitrev16 hci ms (step bitrev16 hci m h5)
