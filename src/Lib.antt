-- ===== src/Lib.antt =====
-- The Bluetooth package of the repository, package/rtl8821cs-bluetooth: the three-wire (H5) UART
-- protocol in the program that attaches the controller,
-- package/rtl8821cs-bluetooth/src/rtk_hciattach/hciattach_rtk.c, and the firmware and configuration
-- files that it downloads, package/rtl8821cs-bluetooth/src/rtk_hciattach/rtb_fwc.c; the
-- same protocol in the kernel driver, package/rtl8821cs-bluetooth/src/hci_rtk_h5.c; and the part of
-- the driver that tells the controller which profiles its connections use, so that it shares the air
-- with Wi-Fi, package/rtl8821cs-bluetooth/src/rtk_coex.c.
--
-- How the parts work together. Bytes from the serial line come to `h5_recv`, a loop over a state
-- machine: it looks for a delimiter 0xc0, allocates a buffer, decodes the SLIP escapes of header,
-- payload and CRC into it and hands a complete packet to `h5_complete_rx_pkt`. That one notes the
-- acknowledgement numbers, passes events to `hci_recv_frame` and link-control messages to
-- `h5_handle_internal_rx`, sends an acknowledgement if one is due and frees the buffer. What is
-- sent is made by `h5_prepare_pkt`. All of it works on the one global `rtb_cfg`.
--
-- For the download, `get_patch_entry` picks the chip's entry in a table, `rtb_read_config` parses the
-- configuration file, merges it with extra items and writes it again, and `rtb_get_final_patch`
-- checks the firmware file, collects the chip's patches by priority (`rtb_get_patch_header`,
-- `insert_patch`, `insert_queue_sort`) or finds its single one (`rtb_get_patch_entry`), and puts
-- the image together.
--
-- The coexistence code watches what goes by. Bytes of events are put together by
-- `rtk_btcoex_parse_event` and copied into a node of a pool, L2CAP signals likewise by
-- `rtl_l2_data_process`; the works `rtl_ev_work` and `rtl_l2_work` take the nodes and follow
-- connections and channels. Each connection counts its channels per profile, and timers watch
-- its packets. Whatever changes a connection's two words of profiles sends the controller a report of
-- all connections.
--
-- In the kernel, package/rtl8821cs-bluetooth/src/hci_rtk_h5.c keeps reliable packets until they are
-- acknowledged: `h5_enqueue` puts them into a queue, `h5_dequeue` frames and numbers at most four
-- of them, `h5_pkt_cull` takes out those that a packet from the controller acknowledges, and the
-- timer `h5_timed_event` puts the others back. A packet that came goes up by `h5_complete_rx_pkt`,
-- which shows events and ACL data to the coexistence code first.
--
-- Which file models what:
--   Prelude         lists, tests on numbers, bit operations, and `Outcome`: how a C function ends
--   H5/Crc          crc_table, h5_crc_update, byte_rev_table, bit_rev8, bit_rev16
--   H5/Skb          struct sk_buff, skb_alloc, skb_free, skb_put, skb_trim, skb_pull
--   H5/State        the fields of struct rtb_struct that this code uses (hciattach.h)
--   H5/Slip         h5_slip_msgdelim, h5_slip_one_byte, h5_unslip_one_byte
--   H5/Prepare      h5_prepare_pkt, rtb_send_ack
--   H5/Frame        h5_init_hci_cc, h5_post_hci_cc, hci_recv_frame, h5_handle_internal_rx,
--                   h5_complete_rx_pkt
--   H5/Recv         h5_get_crc, h5_recv
--   Firmware/Chips    the constants of rtb_fwc.h, project_id, both tables, get_patch_entry
--   Firmware/Config   is_mac, get_mac_offset, merge_configs, rtb_parse_config, and what
--                     rtb_read_config writes
--   Firmware/Patches  insert_queue_sort, insert_patch
--   Firmware/Sections rtb_get_patch_header
--   Firmware/Image    rtb_get_patch_entry, rtb_get_fw_project_id, rtb_get_final_patch
--   Coex/State        struct rtl_coex_struct, rtl_hci_conn and rtk_prof_info (rtk_coex.h)
--   Coex/Hci          the numbers that come from the headers of the kernel
--   Coex/Counters     one connection's counters, bits and timers: rtk_check_setup_timer,
--                     rtk_check_del_timer, disconn_profile, what the update functions do to it
--   Coex/Notify       rtk_vendor_cmd_to_fw, rtk_notify_profileinfo_to_fw, update_profile_state,
--                     update_profile_connection, update_hid_active_state
--   Coex/Channels     find_profile_by_*, list_allocate_add, handle_l2cap_con_req, _con_rsp, _discon_req
--   Coex/Media        packets_count and the three works of the timers
--   Coex/Links        how connections come and go: rtk_handle_connection_complete_evt,
--                     rtk_handle_le_meta_evt, rtk_handle_disconnect_complete_evt
--   Coex/Events       rtk_btcoex_parse_cmd, rtk_parse_event_data and its other handlers
--   Coex/Pools        rtl_alloc_buff, rtl_free_buff, the nodes, the filters, rtk_btcoex_evt_enqueue
--   Coex/Parser       rtk_btcoex_parse_event
--   Coex/Signals      rtl_l2_data_process, rtl_process_l2_sig, rtl_l2_work, rtl_ev_work, open, close
--   Coex/Moves        the entries into rtk_coex.c as the moves of one machine
--   Driver/State      struct h5_struct of the kernel's three-wire driver (hci_rtk_h5.c)
--   Driver/Frame      h5_prepare_pkt there
--   Driver/Queues     h5_enqueue, h5_dequeue, h5_pkt_cull, h5_timed_event, h5_complete_rx_pkt, h5_open,
--                     h5_close
--   Driver/Recv       h5_recv, h5_unslip_one_byte there
--   Driver/Window     runs of the driver, and the stream of reliable packets
--   Speed             vendor_speed_to_std, std_speed_to_vendor (hciattach_rtk.c)
--
-- Correspondence. A pointer to a buffer is null, freed or live; a live buffer is the struct with its
-- block of bytes, and `off` says where in the block `data` points. A read or a write through another
-- pointer or outside the block, and a second free, is the outcome `fault`; a call of exit() is
-- `exited`. Every caller passes `&rtb_cfg`, so the parameter `h5` and the global are one state.
-- `malloc` answers by a list of Booleans in the state, and what write(2) is given is appended to
-- `sent`. A list of the kernel's kind is a list of its items; a firmware file is its list of bytes and
-- a pointer into it a place; the bytes of a fresh block are an argument. Numbers are natural numbers
-- with the wrap-around of the C types written out.
--
-- In Coex a pointer to a connection or a channel is its place in its list. A delayed work is a
-- Boolean, an `int8_t` counter its bit pattern, a word of profiles the list of its bits. `outside`
-- says whether a byte outside a block was read or written. What `kmalloc` gives is a script of blocks
-- with what they hold, or none; commands to the controller are appended to `cmd_q`. The code is
-- taken as it is compiled, without RTB_SOFTWARE_MAILBOX. Locks are not in it: an entry into the code,
-- or the handling of one node, is one step.
--
-- In Driver a queue of the kernel is the list of its packets, each with its type; `bitrev16` of the
-- kernel is an argument of the functions that use it. The buffer of what comes in is NULL, given
-- back, or its bytes, and `misused` says whether it was used while it was none, or overfilled.
--
-- Fuel. A round of the loop of `h5_recv` either uses a byte up or comes back to the same byte; three
-- rounds for each byte and three more are enough.
--
-- The loop of `h5_recv` in the kernel goes through header, payload and CRC without a byte at most;
-- four rounds for each byte and three more are enough.
--
-- A round of the loop of `rtk_btcoex_parse_event` uses a byte up, unless the event before it was
-- complete; twice the number of bytes is enough. The loops of the works take a node off with each
-- round, and nothing that handles a node adds one.
--
-- The loop of `rtb_parse_config` moves three bytes on at least for each round, the one of
-- `rtb_get_fw_project_id` two, so the length of the buffer and one more is enough. The other loops
-- count down. `rtb_get_patch_header` counts the sections in 16 bits: with 65536 sections or more a
-- run that is not over after as many rounds is taken for endless, and with 65535 one that goes
-- through the dummy headers for want of a key, whose counter wraps around.
--
-- Not modelled: log output; reading files, their text forms and the address file; the waiting part
-- of the transmission, which lives in epoll and timer descriptors; the drivers hci_h4.c and
-- hci_ldisc.c and the command hciattach.c; in rtk_coex.c the mailbox to the Wi-Fi driver, which is
-- not compiled, and the creation of work queues; what is no C code.
pub mod Prelude
pub mod H5
pub mod Firmware
pub mod Speed
pub mod Coex
pub mod Driver
