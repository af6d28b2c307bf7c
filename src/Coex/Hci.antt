-- ===== src/Coex/Hci.antt =====
-- The numbers that rtk_coex.c takes from the headers of the kernel, which are not part of the
-- repository: each is a field, and the functions that use them take them as an argument.
use br_external.Prelude.{ℕ, ◌≡◌}

pub record Hci : Type 0 where
  pub op_inquiry : ℕ
  pub op_inquiry_cancel : ℕ
  pub op_exit_periodic_inq : ℕ
  pub op_accept_conn_req : ℕ
  pub op_create_conn : ℕ
  pub op_read_local_version : ℕ
  pub ev_inquiry_complete : ℕ
  pub ev_pin_code_req : ℕ
  pub ev_io_capa_request : ℕ
  pub ev_auth_complete : ℕ
  pub ev_link_key_notify : ℕ
  pub ev_mode_change : ℕ
  pub ev_cmd_complete : ℕ
  pub ev_cmd_status : ℕ
  pub ev_conn_complete : ℕ
  pub ev_sync_conn_complete : ℕ
  pub ev_disconn_complete : ℕ
  pub l2cap_conn_req : ℕ
  pub l2cap_conn_rsp : ℕ
  pub l2cap_disconn_req : ℕ
  pub event_hdr_size : ℕ
  pub max_event_size : ℕ

-- The header of an event is its code and the length of its parameters, which is a byte; the largest
-- event has 260 bytes.
pub record HasSizes (hci : Hci) : Type 0 where
  pub header : hci.event_hdr_size ≡ 2
  pub largest : hci.max_event_size ≡ 260

-- What the headers of Linux say.
abbrev pub linux : Hci
linux = record {
  op_inquiry = 0x0401;
  op_inquiry_cancel = 0x0402;
  op_exit_periodic_inq = 0x0404;
  op_accept_conn_req = 0x0409;
  op_create_conn = 0x0405;
  op_read_local_version = 0x1001;
  ev_inquiry_complete = 0x01;
  ev_pin_code_req = 0x16;
  ev_io_capa_request = 0x31;
  ev_auth_complete = 0x06;
  ev_link_key_notify = 0x18;
  ev_mode_change = 0x14;
  ev_cmd_complete = 0x0e;
  ev_cmd_status = 0x0f;
  ev_conn_complete = 0x03;
  ev_sync_conn_complete = 0x2c;
  ev_disconn_complete = 0x05;
  l2cap_conn_req = 0x02;
  l2cap_conn_rsp = 0x03;
  l2cap_disconn_req = 0x06;
  event_hdr_size = 2;
  max_event_size = 260;
}
