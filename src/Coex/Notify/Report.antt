-- ===== src/Coex/Notify/Report.antt =====
-- The report of `rtk_notify_profileinfo_to_fw` in rtk_coex.c, and what the controller reads in it.
use br_external.Prelude.{
  ℕ, suc, ◌+◌, ◌*◌, ◌/◌, ◌%◌, ◌≤◌, ◌<◌, ◌≡◌, refl, sym, ap, ◌∙◌, arith, Bool, true, false,
  if◌then◌else◌, ◌==◌, ◌||◌, ltb, List, [], ◌∷◌, ◌++◌, append-nil, length, take_self, word, All,
  Bool-cases, inl, inr,
}
use br_external.Coex.State.{Conn, Coex}
use br_external.Coex.Notify.{
  has_profile, handle_count, entry, entries, buffer_size, u16_bytes, rtk_vendor_cmd_to_fw,
  rtk_notify_profileinfo_to_fw,
}

-- What the controller is told of a connection: its handle, which profiles it has, which are busy.
pub record Told : Type 0 where
  pub handle : ℕ
  pub connected : ℕ
  pub busy : ℕ

unfoldable pub told : List Conn → List Told
unfolding has_profile
told [] = []
told (c ∷ cs) =
    let rest = told cs in
    let here : Told = record {
      handle = c.handle;
      connected = word c.profile_bitmap;
      busy = word c.profile_status;
    } in
    if has_profile c then here ∷ rest else rest

-- Six bytes for each connection.
unfoldable pub read_entries : ℕ → List ℕ → List Told
read_entries (suc n) (a ∷ b ∷ c ∷ d ∷ e ∷ f ∷ rest) =
    record { handle = a + b * 256; connected = c + d * 256; busy = e + f * 256 }
    ∷ read_entries n rest
read_entries n bytes = []

-- A command: its code, its length, a count and the connections.
unfoldable pub read_report : List ℕ → List Told
unfolding read_entries
read_report (a ∷ b ∷ len ∷ n ∷ rest) = read_entries n rest
read_report bytes = []

-- What a connection is made of fits into 16 bits.
abbrev pub IsWord : Conn → Type 0
IsWord c = (c.handle < 65536) × (word c.profile_bitmap < 65536) × (word c.profile_status < 65536)

unfoldable listing : List Conn → List ℕ
unfolding has_profile
listing [] = []
listing (c ∷ cs) = let rest = listing cs in if has_profile c then entry true c ++ rest else rest

none_listed : (cs : List Conn) → handle_count cs ≡ 0 → listing cs ≡ []
unfolding handle_count listing
none_listed [] e = refl
none_listed (c ∷ cs) e = ground (arith, none_listed cs)

entries-listing :
    (n : ℕ) (cs : List Conn) (st : List Bool)
    → handle_count cs ≡ n
    → n < 256
    → (entries true n cs st).0 ≡ listing cs
unfolding handle_count entries listing
entries-listing n [] st e small = refl
entries-listing n (c ∷ cs) st e small = elim (Bool-cases (has_profile c)) [
  | inl h ↦
      let m = handle_count cs in
      let e' : suc m ≡ n = rw h at e in
      let down : (n + 255) % 256 ≡ m = omega arith in
      elim (Bool-cases (m == 0)) [
        | inl z ↦ rw (h, down, z, none_listed cs (ground arith)) (sym (append-nil (entry true c)))
        | inr more ↦
            rw (h, down, more)
              (ap (λ t. entry true c ++ t) (entries-listing m cs st refl (omega arith)))
      ]
  | inr h ↦
      let e' : handle_count cs ≡ n = rw h at e in
      elim (Bool-cases (n == 0)) [
        | inl z ↦ rw (h, z) (sym (none_listed cs (ground arith)))
        | inr more ↦ rw (h, more) (entries-listing n cs st e' small)
      ]
]

u16-join : (n : ℕ) → n < 65536 → n % 256 + n / 256 % 256 * 256 ≡ n
u16-join n h = omega arith

read_entries-listing :
    (cs : List Conn) → All IsWord cs → read_entries (handle_count cs) (listing cs) ≡ told cs
unfolding handle_count listing read_entries told entry
read_entries-listing [] w = refl
read_entries-listing (c ∷ cs) w =
    let ih = read_entries-listing cs w.1 in
    elim (Bool-cases (has_profile c)) [
      | inl h ↦ rw (
        h,
        u16-join c.handle w.0.0,
        u16-join (word c.profile_bitmap) w.0.1,
        u16-join (word c.profile_status) w.0.2,
        ih,
      )
      | inr h ↦ rw h ih
    ]

length-listing : (cs : List Conn) → length (listing cs) ≡ handle_count cs * 6
unfolding handle_count listing entry
length-listing [] = refl
length-listing (c ∷ cs) = ground (arith, length-listing cs)

-- The command that reports a list of connections.
report : List Conn → List ℕ
report cs = 0x1B ∷ 0xfc ∷ (1 + handle_count cs * 6) ∷ handle_count cs ∷ listing cs

or-false : (b : Bool) → (b || false) ≡ b
or-false true = refl
or-false false = refl

vendor-queued :
    (op len : ℕ) (bytes : List ℕ) (s : Coex)
    → s.kernel.hdev ≡ true
    → s.kernel.hci_up ≡ true
    → s.kernel.given ≡ []
    → len < 256
    → length bytes ≡ len
    → ((rtk_vendor_cmd_to_fw op len bytes s).cmd_q ≡ s.cmd_q ++ (u16_bytes op ++ len ∷ bytes) ∷ [])
      × ((rtk_vendor_cmd_to_fw op len bytes s).outside ≡ s.outside)
unfolding rtk_vendor_cmd_to_fw
vendor-queued op len bytes s there up given small size =
    let l : len % 256 ≡ len = omega arith in
    let whole = take_self len bytes (omega arith) in
    let fits : ltb (length bytes) len ≡ false = ground arith in ground (arith, l, whole, fits)

-- What the notice hands to `rtk_vendor_cmd_to_fw`.
abbrev with_given : Coex → Coex
with_given s = record s { kernel = record s.kernel { given = [] } }

notice-eq :
    (s : Coex)
    → s.profileinfo_cmd ≡ true
    → s.kernel.given ≡ []
    → handle_count s.conn_hash ≤ 42
    → let n = handle_count s.conn_hash in
      rtk_notify_profileinfo_to_fw s
      ≡ rtk_vendor_cmd_to_fw 0xfc1B
          (1 + n * 6)
          (n ∷ listing s.conn_hash)
          (record (with_given s) { outside = s.outside || false })
unfolding rtk_notify_profileinfo_to_fw buffer_size
notice-eq s newer given few =
    let n = handle_count s.conn_hash in
    let count : n % 256 ≡ n = omega arith in
    let e = entries-listing n s.conn_hash s.profile_status refl (omega arith) in
    let fits : ltb (1 + n * 6) (suc (length (listing s.conn_hash))) ≡ false =
      ground (arith, length-listing s.conn_hash) in
    rw (given, newer, count, e, append-nil (listing s.conn_hash), fits)

queued-report :
    (s : Coex)
    → s.profileinfo_cmd ≡ true
    → s.kernel.hdev ≡ true
    → s.kernel.hci_up ≡ true
    → s.kernel.given ≡ []
    → handle_count s.conn_hash ≤ 42
    → ((rtk_notify_profileinfo_to_fw s).cmd_q ≡ s.cmd_q ++ report s.conn_hash ∷ [])
      × ((rtk_notify_profileinfo_to_fw s).outside ≡ s.outside)
unfolding report
queued-report s newer there up given few =
    let n = handle_count s.conn_hash in
    let s' : Coex = record (with_given s) { outside = s.outside || false } in
    let q =
      vendor-queued 0xfc1B (1 + n * 6) (n ∷ listing s.conn_hash) s' there up refl (omega arith)
        (omega (arith, length-listing s.conn_hash)) in
    rw (notice-eq s newer given few) (q.0, q.1 ∙ or-false s.outside)

-- Once the controller knows the six-byte form, with the device up and every allocation given, and
-- of at most 42 connections with a profile (more do not fit into the length byte of a command): a
-- notice queues one command; what the controller reads in it is every connection that has a
-- profile, in the list's order, with its handle and both of its words, and nothing else; nothing is
-- written or read outside the buffer.
pub rtk_notify_profileinfo_to_fw-told :
    (s : Coex)
    → s.profileinfo_cmd ≡ true
    → s.kernel.hdev ≡ true
    → s.kernel.hci_up ≡ true
    → s.kernel.given ≡ []
    → handle_count s.conn_hash ≤ 42
    → All IsWord s.conn_hash
    → (command : List ℕ) × ((rtk_notify_profileinfo_to_fw s).cmd_q ≡ s.cmd_q ++ command ∷ [])
      × (read_report command ≡ told s.conn_hash)
      × ((rtk_notify_profileinfo_to_fw s).outside ≡ s.outside)
unfolding read_report report
rtk_notify_profileinfo_to_fw-told s newer there up given few words =
    let q = queued-report s newer there up given few in
    (report s.conn_hash, q.0, read_entries-listing s.conn_hash words, q.1)
