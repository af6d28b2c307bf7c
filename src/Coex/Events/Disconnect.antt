-- ===== src/Coex/Events/Disconnect.antt =====
-- The end of a connection in rtk_coex.c: `rtk_handle_disconnect_complete_evt`.
use br_external.Prelude.{
  ℕ, zero, suc, ◌≡◌, refl, ap, ◌∙◌, arith, Bool, false, if◌then◌else◌, if_cases, ◌==◌, some, List,
  [], ◌∷◌, get_elem?, set, remove_at, option_cases,
}
use br_external.Coex.State.{Conn, ProfInfo, Coex, LinkType}
use br_external.Coex.State.LinkType.{l2cap, sco, le, other_type}
use br_external.Coex.Notify.{on_conn, find_connection_by_handle, update_profile_connection}
use br_external.Coex.Notify.Valid.{rtk_notify_profileinfo_to_fw-Same}
use br_external.Coex.Links.{
  u8_at, u16_at, drop_channel, drop_channels, disconn_acl, link_ends, disconnected,
  rtk_handle_disconnect_complete_evt,
}

-- The channels that are not of a handle.
unfoldable pub others : ℕ → List ProfInfo → List ProfInfo
others h [] = []
others h (d ∷ ds) = let rest = others h ds in if h == d.handle then rest else d ∷ rest

pub drop_channels-others :
    (h : ℕ) (ds : List ProfInfo) (c : Conn) → (drop_channels h ds c).0 ≡ others h ds
unfolding drop_channels others
drop_channels-others h [] c = refl
drop_channels-others h (d ∷ ds) c =
    let c' = if h == d.handle then (drop_channel d c).0 else c in
    ground (arith, drop_channels-others h ds c')

remove_at-set {ℓ} :
    {A : Type ℓ} (xs : List A) (i : ℕ) (v : A) → remove_at (set xs i v) i ≡ remove_at xs i
remove_at-set [] i v = refl
remove_at-set (x ∷ xs) zero v = refl
remove_at-set (x ∷ xs) (suc i) v = ap (λ t. x ∷ t) (remove_at-set xs i v)

-- What of a connection's place is kept: all other connections, and the channels.
abbrev Apart : ℕ → List ProfInfo → Coex → Coex → Type 0
Apart p ds s t = (remove_at t.conn_hash p ≡ remove_at s.conn_hash p) × (t.profile_list ≡ ds)

on_conn-Apart :
    (p : ℕ) (f : Conn → Conn × Bool) (s : Coex) → Apart p s.profile_list s (on_conn p f s)
unfolding on_conn
on_conn-Apart p f s =
    option_cases (Apart p s.profile_list s) (get_elem? s.conn_hash p) _ _ (λ _. (refl, refl))
      λ c _.
        let s' : Coex = record s { conn_hash = set s.conn_hash p (f c).0 } in
        let k = rtk_notify_profileinfo_to_fw-Same s' in
        let e = remove_at-set s.conn_hash p (f c).0 in
        if_cases (Apart p s.profile_list s) (f c).1 _ _
          (λ _. (ap (λ cs. remove_at cs p) k.0 ∙ e, k.1)) (λ _. (e, refl))

-- The channels that are left: those of other handles if the link was an ACL link, else all.
abbrev pub left_over : LinkType → ℕ → List ProfInfo → List ProfInfo
left_over l2cap h ds = others h ds
left_over sco h ds = ds
left_over le h ds = ds
left_over (other_type n) h ds = ds

disconn_acl-Apart :
    (h p : ℕ) (c : Conn) (s : Coex)
    → get_elem? s.conn_hash p ≡ some c
    → Apart p (others h s.profile_list) s (disconn_acl h p s)
unfolding disconn_acl
disconn_acl-Apart h p c s e =
    let P = Apart p (others h s.profile_list) s in
    let r = drop_channels h s.profile_list c in
    let s' : Coex = record s { profile_list = r.0; conn_hash = set s.conn_hash p r.1 } in
    let k = rtk_notify_profileinfo_to_fw-Same s' in
    let gone = drop_channels-others h s.profile_list c in
    let kept = remove_at-set s.conn_hash p r.1 in
    rw (e, disconn_acl)
      (if_cases P r.2 _ _ (λ _. (ap (λ cs. remove_at cs p) k.0 ∙ kept, k.1 ∙ gone))
        (λ _. (kept, gone)))

link_ends-Apart :
    (k : LinkType) (h p : ℕ) (c : Conn) (s : Coex)
    → get_elem? s.conn_hash p ≡ some c
    → Apart p (left_over k h s.profile_list) s (link_ends k h p s)
unfolding link_ends update_profile_connection
link_ends-Apart l2cap h p c s e = disconn_acl-Apart h p c s e
link_ends-Apart sco h p c s e = on_conn-Apart p _ s
link_ends-Apart le h p c s e = on_conn-Apart p _ s
link_ends-Apart (other_type n) h p c s e = (refl, refl)

-- A disconnection with status 0, for a handle of which there is a connection: this connection is
-- gone and all others stay in their order. With an ACL link all its channels go and those of other
-- handles stay in their order; with SCO and low energy the channels stay. A failed disconnection
-- changes neither list.
pub rtk_handle_disconnect_complete_evt-Gone :
    (bytes : List ℕ) (p : ℕ) (c : Conn) (s : Coex)
    → find_connection_by_handle s.conn_hash (u16_at bytes 3) ≡ some p
    → get_elem? s.conn_hash p ≡ some c
    → let t = rtk_handle_disconnect_complete_evt bytes s in
      let done = u8_at bytes 2 == 0 in
      (t.conn_hash ≡ (if done then remove_at s.conn_hash p else s.conn_hash))
      × (t.profile_list ≡ (
          if done then left_over c.link_type (u16_at bytes 3) s.profile_list else s.profile_list))
unfolding rtk_handle_disconnect_complete_evt disconnected
rtk_handle_disconnect_complete_evt-Gone bytes p c s found here =
    let s' : Coex = record s { ispairing = false } in
    let k = link_ends-Apart c.link_type (u16_at bytes 3) p c s' here in
    ground (arith, found, here, k.0, k.1)
