-- ===== src/Driver/Recv/Sound/Whole.antt =====
-- `h5_recv` of hci_rtk_h5.c on any bytes.
use br_external.Coex.Hci.{Hci}
use br_external.Driver.Recv.Sound.{Sound}
