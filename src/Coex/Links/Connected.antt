-- ===== src/Coex/Links/Connected.antt =====
-- New connections in rtk_coex.c keep what holds of connections and channels.
use br_external.Prelude.{
  ℕ, suc, ◌≤◌, ◌<◌, ◌≡◌, refl, sym, arith, subst, Bool, false, if◌then◌else◌, if_cases, ◌==◌, ◌||◌,
  Option, none, some, List, [], ◌∷◌, ◌++◌, get_elem?, length, set, All, All-set, option_cases,
}
use br_external.Coex.State.{Conn, Coex, LinkType, kmalloc, zero_conn}
use br_external.Coex.State.LinkType.{l2cap, sco, le}
use br_external.Coex.Counters.{reset}
use br_external.Coex.Counters.Tracked.{Tracked, Tracked-le, reset-Tracked}
use br_external.Coex.Notify.{find_connection_by_handle}
use br_external.Coex.Notify.Valid.{
  IsKnown, Valid, Valid-le, update_profile_connection_up-Valid, update_hid_active_state-Valid,
}
use br_external.Coex.Links.{
  u8_at, u16_at, fresh_conn, add_connection, connection_for, reset_at, connected_as,
  rtk_handle_connection_complete_evt, le_connected, rtk_handle_le_connection_complete_evt,
}

-- All connections but the one at a place are tracked.
abbrev Apart : ℕ → ℕ → List Conn → Type 0
Apart n p cs =
    (get_elem? cs p ≡ none → All (Tracked n) cs)
    × ((k : LinkType) (c : Conn) → get_elem? cs p ≡ some c → All (Tracked n) (set cs p (reset k c)))

Tracked-Apart : (n p : ℕ) (cs : List Conn) → All (Tracked n) cs → Apart n p cs
Tracked-Apart n p cs a = (
  λ _. a,
  λ k c e.
      All-set (Tracked n) cs p (reset k c) a (Tracked-le 0 n _ (omega arith) (reset-Tracked k c)),
)

new-Apart :
    (n : ℕ) (cs : List Conn) (c : Conn) → All (Tracked n) cs → Apart n (length cs) (cs ++ c ∷ [])
new-Apart n [] c a = (λ e. cc, λ k d e. (Tracked-le 0 n _ (omega arith) (reset-Tracked k d), tt))
new-Apart n (x ∷ xs) c a =
    let ih = new-Apart n xs c a.1 in (λ e. (a.0, ih.0 e), λ k d e. (a.0, ih.1 k d e))

some-inj : {p q : ℕ} → ◌≡◌ {A = Option ℕ} (some p) (some q) → p ≡ q
some-inj e = cc

abbrev Ready : ℕ → Coex → Option ℕ × Coex → Type 0
Ready n s r =
    (r.1.profile_list ≡ s.profile_list)
    × (r.0 ≡ none → r.1.conn_hash ≡ s.conn_hash)
    × ((p : ℕ) → r.0 ≡ some p → Apart n p r.1.conn_hash)

connection_for-Ready : (n h : ℕ) (s : Coex) → Valid n s → Ready n s (connection_for h s)
unfolding connection_for add_connection
connection_for-Ready n h s v =
    option_cases (Ready n s) (find_connection_by_handle s.conn_hash h) _ _
      (λ _.
        option_cases (Ready n s) (kmalloc zero_conn s.kernel.conn_blocks).0 _ _
          (λ _. (refl, λ _. refl, λ p e. cc))
          (λ b _. (
            refl,
            λ e. cc,
            λ p e.
                subst (λ q. Apart n q (s.conn_hash ++ fresh_conn h b ∷ [])) (some-inj e)
                  (new-Apart n s.conn_hash (fresh_conn h b) v.tracked),
          )))
      (λ q _. (refl, λ e. cc, λ p e. Tracked-Apart n p s.conn_hash v.tracked))

reset_at-Valid :
    (n p : ℕ) (k : LinkType) (t : Coex)
    → Apart n p t.conn_hash
    → All IsKnown t.profile_list
    → Valid n (reset_at p k t)
unfolding reset_at
reset_at-Valid n p k t apart known =
    option_cases (Valid n) (get_elem? t.conn_hash p) _ _
      (λ e. record { tracked = apart.0 e; known = known })
      (λ c e. record { tracked = apart.1 k c e; known = known })

connected_as-Valid :
    (n p type : ℕ) (t : Coex)
    → n < 255
    → Apart n p t.conn_hash
    → All IsKnown t.profile_list
    → Valid (suc n) (connected_as type p t)
unfolding connected_as
connected_as-Valid n p type t room apart known =
    if_cases (Valid (suc n)) (type == 0 || type == 2) _ _
      (λ _.
        update_profile_connection_up-Valid n p 0 (reset_at p sco t) (omega arith)
          (λ q. ground arith) room (reset_at-Valid n p sco t apart known))
      (λ _. Valid-le n (suc n) _ (omega arith) (reset_at-Valid n p l2cap t apart known))

le_connected-Valid :
    (n h interval p : ℕ) (t : Coex)
    → n < 254
    → Apart n p t.conn_hash
    → All IsKnown t.profile_list
    → Valid (suc (suc n)) (le_connected h interval p t)
unfolding le_connected
le_connected-Valid n h interval p t room apart known =
    update_hid_active_state-Valid (suc n) h interval _ (omega arith) (
      update_profile_connection_up-Valid n p 1 (reset_at p le t) (omega arith) (λ q. ground arith)
        (omega arith) (reset_at-Valid n p le t apart known))

-- What is done with the connection for a handle, once there is one.
connection_then-Valid :
    (n m h : ℕ) (s : Coex) (f : ℕ → Coex → Coex)
    → n ≤ m
    → Valid n s
    → ((p : ℕ) (t : Coex) → Apart n p t.conn_hash → All IsKnown t.profile_list → Valid m (f p t))
    → Valid m (elim (connection_for h s).0 [
      | none ↦ (connection_for h s).1
      | some p ↦ f p (connection_for h s).1
    ])
connection_then-Valid n m h s f up v k =
    let t = (connection_for h s).1 in
    let r = connection_for-Ready n h s v in
    let known : All IsKnown t.profile_list = subst (All IsKnown) (sym r.0) v.known in
    option_cases (Valid m) (connection_for h s).0 _ _
      (λ e.
        Valid-le n m t up
          (record { tracked = subst (All (Tracked n)) (sym (r.1 e)) v.tracked; known = known }))
      (λ p e. k p t (r.2 p e) known)

unpaged-Valid : (n : ℕ) (b : Bool) (s : Coex) → Valid n s → Valid n (record s { ispaging = b })
unpaged-Valid n b s v = record { tracked = v.tracked; known = v.known }

pub rtk_handle_connection_complete_evt-Valid :
    (n : ℕ) (bytes : List ℕ) (s : Coex)
    → n < 255
    → Valid n s
    → Valid (suc n) (rtk_handle_connection_complete_evt bytes s)
unfolding rtk_handle_connection_complete_evt
rtk_handle_connection_complete_evt-Valid n bytes s room v =
    let s' : Coex = record s { ispaging = false } in
    let v' = unpaged-Valid n false s v in
    if_cases (Valid (suc n)) (u8_at bytes 2 == 0) _ _
      (λ _.
        connection_then-Valid n (suc n) (u16_at bytes 3) s' (connected_as (u8_at bytes 11))
          (omega arith) v' (λ p t. connected_as-Valid n p (u8_at bytes 11) t room))
      (λ _. Valid-le n (suc n) s' (omega arith) v')

pub rtk_handle_le_connection_complete_evt-Valid :
    (n : ℕ) (enhanced : Bool) (bytes : List ℕ) (s : Coex)
    → n < 254
    → Valid n s
    → Valid (suc (suc n)) (rtk_handle_le_connection_complete_evt enhanced bytes s)
unfolding rtk_handle_le_connection_complete_evt
rtk_handle_le_connection_complete_evt-Valid n enhanced bytes s room v =
    let s' : Coex = record s { ispaging = false } in
    let v' = unpaged-Valid n false s v in
    let h = u16_at bytes 4 in
    let interval = u16_at bytes (if enhanced then 26 else 14) in
    if_cases (Valid (suc (suc n))) (u8_at bytes 3 == 0) _ _
      (λ _.
        connection_then-Valid n (suc (suc n)) h s' (le_connected h interval) (omega arith) v'
          (λ p t. le_connected-Valid n h interval p t room))
      (λ _. Valid-le n (suc (suc n)) s' (omega arith) v')
