-- ===== src/Driver/Window/Run.antt =====
-- Runs of the driver in hci_rtk_h5.c: no reliable packet is lost or overtaken.
use br_external.Prelude.{List, [], ◌∷◌, ◌++◌}
use br_external.Coex.Hci.{Hci}
use br_external.Driver.State.{Pkt}
use br_external.Driver.Window.{Window, Step, enqueues, dequeues, times_out, receives}
use br_external.Driver.Window.Steps.{accepted}

-- The reliable packets that the calls of a run accept, in their order.
unfoldable pub all_accepted : List Step → List Pkt
unfolding accepted
all_accepted [] = []
all_accepted (enqueues skb ∷ ms) = accepted skb ++ all_accepted ms
all_accepted (dequeues ∷ ms) = all_accepted ms
all_accepted (times_out ∷ ms) = all_accepted ms
all_accepted (receives bytes ∷ ms) = all_accepted ms
