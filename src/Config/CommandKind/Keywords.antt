-- ===== src/Config/CommandKind/Keywords.antt =====
-- The keywords that decide the kind of a command, whatever stands behind them.
use fastiron_tofu.Prelude.{
  ==_iff, ap, ◌⊎◌, inl, inr, append_assoc, arith, subst, zero, suc, ℕ, ◌+◌, ◌≡◌, not, if◌then◌else◌,
  refl, Bool, true, false, ◌&&◌, List, [], ◌∷◌, ◌++◌, none, some, codes, Bytes, get_elem?, is_blank,
  has_byte, get_or, ltb, ◌==◌, same_place,
}
use fastiron_tofu.Ragel.{actions_at, transition}
use fastiron_tofu.Ragel.Sinks.{stepped, all_steps, run-stepped, stepped-append, stepped-sink}
use fastiron_tofu.Config.Command.{
  Kind, unknown, dns_servers, interface_vrf, ospf_router, ospf_area, ospf_binding, static_route,
  stp_edge, stp_root, stp_bpdu, inline_power_port, trust_dscp, protected_port, voice_vlan, lldp_run,
  lldp_med, lldp_ports, jumbo_mode, port_name, admin_disable, default_vlan, vlan_header, lag_header,
  lag_ports, interface_stanza, acl_header, multicast_config, storm_limit,
}
use fastiron_tofu.Config.CommandKind.{command_kind, command_machine, action_kinds, kind_action}
use fastiron_tofu.Config.CommandKind.States.{
  command_key_offsets, command_single_lengths, command_range_lengths, command_index_offsets,
}
use fastiron_tofu.Config.CommandKind.Keys.{command_trans_keys}
use fastiron_tofu.Config.CommandKind.Transitions.{command_trans_targs}

-- Keywords of command.rl that no longer alternative shares: blanks within them are single.
abbrev pub keywords : List (Bytes × Kind)
keywords =
    (codes "ip dns server-address", dns_servers)
    ∷ (codes "ipv6 dns server-address", dns_servers)
    ∷ (codes "vrf forwarding", interface_vrf)
    ∷ (codes "router ospf", ospf_router)
    ∷ (codes "area", ospf_area)
    ∷ (codes "ip ospf area", ospf_binding)
    ∷ (codes "ip route", static_route)
    ∷ (codes "spanning-tree 802-1w admin-edge-port", stp_edge)
    ∷ (codes "no spanning-tree 802-1w admin-edge-port", stp_edge)
    ∷ (codes "spanning-tree root-protect", stp_root)
    ∷ (codes "no spanning-tree root-protect", stp_root)
    ∷ (codes "stp-bpdu-guard", stp_bpdu)
    ∷ (codes "no stp-bpdu-guard", stp_bpdu)
    ∷ (codes "inline power ethernet", inline_power_port)
    ∷ (codes "inline power ethe", inline_power_port)
    ∷ (codes "no inline power ethernet", inline_power_port)
    ∷ (codes "no inline power ethe", inline_power_port)
    ∷ (codes "trust dscp", trust_dscp)
    ∷ (codes "protected-port", protected_port)
    ∷ (codes "voice-vlan", voice_vlan)
    ∷ (codes "lldp run", lldp_run)
    ∷ (codes "no lldp run", lldp_run)
    ∷ (codes "lldp med network-policy", lldp_med)
    ∷ (codes "no lldp med network-policy", lldp_med)
    ∷ (codes "lldp enable ports", lldp_ports)
    ∷ (codes "lldp enable receive ports", lldp_ports)
    ∷ (codes "lldp enable transmit ports", lldp_ports)
    ∷ (codes "no lldp enable ports", lldp_ports)
    ∷ (codes "jumbo", jumbo_mode)
    ∷ (codes "port-name", port_name)
    ∷ (codes "disable", admin_disable)
    ∷ (codes "default-vlan-id", default_vlan)
    ∷ (codes "vlan", vlan_header)
    ∷ (codes "lag", lag_header)
    ∷ (codes "ports", lag_ports)
    ∷ (codes "interface", interface_stanza)
    ∷ (codes "ip access-list", acl_header)
    ∷ (codes "ipv6 access-list", acl_header)
    ∷ (codes "mac access-list", acl_header)
    ∷ (codes "ip multicast", multicast_config)
    ∷ (codes "broadcast limit", storm_limit)
    ∷ (codes "multicast limit", storm_limit)
    ∷ (codes "unknown-unicast limit", storm_limit)
    ∷ []

abbrev set_kind : ℕ → Kind → Kind
set_kind a kind = get_or action_kinds a kind

-- In this state the machine accepts, has the kind, and every byte but a line feed leads back.
settled : Kind → ℕ × Kind → Bool
settled kind (cs, found) =
    let behind = get_or command_index_offsets cs 0 + 1 in
    not (ltb cs 295)
    && found == kind
    && get_or command_single_lengths cs 0 == 1
    && get_or command_range_lengths cs 0 == 0
    && get_or command_trans_keys (get_or command_key_offsets cs 0) 0 == b'\n'
    && get_or command_trans_targs behind 0 == cs
    && all_steps command_machine set_kind (actions_at command_machine behind) kind == kind

reached : Bytes → ℕ × Kind
reached text = stepped command_machine set_kind text 1 unknown

entry_settles : Kind → Bytes → Bool
entry_settles k w =
    command_kind w == k
    && settled k (reached (w ++ b' ' ∷ []))
    && settled k (reached (w ++ b'\t' ∷ []))

all_settle : List (Bytes × Kind) → Bool
all_settle [] = true
all_settle ((w, k) ∷ rest) = entry_settles k w && all_settle rest

keywords-settle : all_settle keywords ≡ true
unfolding actions_at transition command_kind all_settle entry_settles settled reached
keywords-settle = refl

and_parts : (a b : Bool) → (a && b) ≡ true → (a ≡ true) × (b ≡ true)
and_parts a b h = ground arith

all_settle-elem :
    (entries : List (Bytes × Kind)) (i : ℕ) {w : Bytes} {k : Kind}
    → all_settle entries ≡ true
    → get_elem? entries i ≡ some (w, k)
    → entry_settles k w ≡ true
unfolding all_settle
all_settle-elem [] i all at = ground arith
all_settle-elem ((v, l) ∷ rest) zero all at =
    let h = (and_parts (entry_settles l v) (all_settle rest) all).0 in
    subst (λ (e : Bytes × Kind). entry_settles e.1 e.0 ≡ true)
      (ap (λ o. elim o [ some e ↦ e | none ↦ (v, l) ]) at) h
all_settle-elem ((v, l) ∷ rest) (suc i) all at =
    all_settle-elem rest i (and_parts (entry_settles l v) (all_settle rest) all).1 at

command_kind-stepped :
    (text : Bytes)
    → command_kind text ≡ (let (cs, kind) = reached text in if ltb cs 295 then unknown else kind)
unfolding command_kind kind_action reached
command_kind-stepped text = rw (run-stepped command_machine set_kind text 0 1 unknown) refl

each_true :
    (a b c d e f g : Bool)
    → (a && b && c && d && e && f && g) ≡ true
    → (a ≡ true)
      × ((b ≡ true) × ((c ≡ true) × ((d ≡ true) × ((e ≡ true) × ((f ≡ true) × (g ≡ true))))))
each_true a b c d e f g h = ground arith

not-true : {b : Bool} → not b ≡ true → b ≡ false
not-true {b = false} h = refl
not-true {b = true} h = ground arith

parts :
    (k : Kind) (cs found : ℕ)
    → settled k (cs, found) ≡ true
    → (ltb cs 295 ≡ false)
      × ((found ≡ k)
          × ((get_or command_single_lengths cs 0 ≡ 1)
              × ((get_or command_range_lengths cs 0 ≡ 0)
                  × ((get_or command_trans_keys (get_or command_key_offsets cs 0) 0 ≡ b'\n')
                      × ((get_or command_trans_targs (get_or command_index_offsets cs 0 + 1) 0 ≡ cs)
                          × (all_steps command_machine set_kind
                                (actions_at command_machine (get_or command_index_offsets cs 0 + 1))
                                k
                              ≡ k))))))
unfolding settled
parts k cs found h =
    let (a, (b, (c, (d, (e, (f, g)))))) = each_true _ _ _ _ _ _ _ h in
    (
      not-true a,
      (
        (==_iff _ _).0 b,
        (
          (==_iff _ _).0 c,
          ((==_iff _ _).0 d, ((==_iff _ _).0 e, ((==_iff _ _).0 f, (==_iff _ _).0 g))),
        ),
      ),
    )

above : (cs : ℕ) → ltb cs 295 ≡ false → same_place (some cs) command_machine.error ≡ false
above cs low = ground arith

settled-tail :
    (k : Kind) (text tail : Bytes)
    → settled k (reached text) ≡ true
    → has_byte b'\n' tail ≡ false
    → command_kind (text ++ tail) ≡ k
unfolding reached
settled-tail k text tail h free =
    let cs = (reached text).0 in
    let (low, (kind, (single, (range, (key, (back, acts)))))) = parts k cs (reached text).1 h in
    let from_end : stepped command_machine set_kind tail cs k ≡ (cs, k) =
      stepped-sink command_machine set_kind cs b'\n' k refl single range key back acts tail free in
    let start : reached text ≡ (cs, k) = ap (λ x. (cs, x)) kind in
    let through =
      stepped-append command_machine set_kind text tail 1 unknown k cs start (above cs low) in
    rw (command_kind-stepped (text ++ tail), through, from_end, low) refl

is_blank-cases : (h : ℕ) → is_blank h ≡ true → (h ≡ b' ') ⊎ (h ≡ b'\t')
is_blank-cases h blank = ground arith

-- Each listed keyword alone, and the keyword with a blank or a tab and any text without a line
-- feed behind it, is recognised as a command of the kind that the grammar gives the keyword.
pub command_kind-keyword :
    (i h : ℕ) (word tail : Bytes) (kind : Kind)
    → get_elem? keywords i ≡ some (word, kind)
    → is_blank h ≡ true
    → has_byte b'\n' tail ≡ false
    → (command_kind word ≡ kind) × (command_kind (word ++ h ∷ tail) ≡ kind)
unfolding entry_settles
command_kind-keyword i h word tail kind at blank free =
    let entry = all_settle-elem keywords i keywords-settle at in
    let on_space = settled kind (reached (word ++ b' ' ∷ [])) in
    let on_tab = settled kind (reached (word ++ b'\t' ∷ [])) in
    let (before, tab) = and_parts (command_kind word == kind && on_space) on_tab entry in
    let (alone, space) = and_parts (command_kind word == kind) on_space before in
    let one = append_assoc word (h ∷ []) tail in
    (
      (==_iff _ _).0 alone,
      subst (λ t. command_kind t ≡ kind) one
          (elim (is_blank-cases h blank) [
            | inl e ↦ rw e (settled-tail kind (word ++ b' ' ∷ []) tail space free)
            | inr e ↦ rw e (settled-tail kind (word ++ b'\t' ∷ []) tail tab free)
          ]),
    )
