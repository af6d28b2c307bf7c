-- ===== src/H5/Prepare/Failure.antt =====
-- `h5_prepare_pkt` and `rtb_send_ack` where `malloc` fails.
use br_external.Prelude.{◌≡◌, refl, ℕ, Bool, false, List, [], some, ok, fault}
use br_external.H5.Skb.{null, malloc}
use br_external.H5.State.{Rtb}
use br_external.H5.Prepare.{pkt_rel, h5_prepare_pkt, h5_ack_pkt, rtb_send_ack}

prepare-null :
    (s : Rtb) (payload : List ℕ) (pkt_type : ℕ) (rel : Bool) (heap' : List Bool)
    → pkt_rel pkt_type ≡ some rel
    → malloc s.heap ≡ (false, heap')
    → h5_prepare_pkt s payload pkt_type ≡ ok (null, record s { heap = heap' })
unfolding h5_prepare_pkt
prepare-null s payload pkt_type rel heap' known refused = rw (known, refused)

-- Where `malloc` fails, `h5_prepare_pkt` returns the null pointer for every known packet type and
-- changes no field, so that neither a sequence number nor a pending acknowledgement is lost; but
-- `rtb_send_ack` reads through that pointer, which is undefined.
pub rtb_send_ack-malloc :
    (s : Rtb) (heap' : List Bool) (payload : List ℕ) (pkt_type : ℕ) (rel : Bool)
    → malloc s.heap ≡ (false, heap')
    → pkt_rel pkt_type ≡ some rel
    → (h5_prepare_pkt s payload pkt_type ≡ ok (null, record s { heap = heap' }))
      × (rtb_send_ack s ≡ fault)
unfolding rtb_send_ack
rtb_send_ack-malloc s heap' payload pkt_type rel refused known = (
  prepare-null s payload pkt_type rel heap' known refused,
  rw (prepare-null s [] h5_ack_pkt false heap' (unfold pkt_rel in refl) refused),
)
