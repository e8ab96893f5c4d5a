-- ===== src/Vpn/TunDevice/Laws.antt =====
-- What the tunnels leave in the NAT table.
use ocserv_rs.Base.{
  ◌≡◌, ◌≢◌, refl, ap, ◌∙◌, Option, none, some, List, [], ◌∷◌, ◌++◌, map, arith, if◌then◌else◌,
}
use ocserv_rs.Base.Text.{Text, text, is_empty}
use ocserv_rs.Base.Eq.{◌==◌, bytes_eq, list_beq}
use ocserv_rs.Vpn.TunDevice.{
  Command, System, TunDevice, enable_forwarding, show_default_route, masquerade, wan_interface,
  configure_routing,
}

-- The commands that a number of tunnels run, one after the other.
unfoldable pub configure_all : System → List TunDevice → List Command
configure_all system [] = []
configure_all system (d ∷ devices) = configure_routing system d ++ configure_all system devices

-- What the calls of iptables ask for, in order.
unfoldable pub nat_changes : List Command → List (List Text)
nat_changes [] = []
nat_changes (c ∷ commands) =
    if c.program == text "iptables" then c.args ∷ nat_changes commands else nat_changes commands

nat_changes-append : (a b : List Command) → nat_changes (a ++ b) ≡ nat_changes a ++ nat_changes b
unfolding nat_changes
nat_changes-append [] b = refl
nat_changes-append (c ∷ a) b = ground (arith, nat_changes-append a b)

-- The rule of a tunnel.
abbrev pub rule_of : System → TunDevice → List Text
rule_of system d = (masquerade (wan_interface system d.config.nat_interface).0).args

one_rule_by :
    (system : System) (o : Option Text)
    → nat_changes (
        enable_forwarding
        ∷ ((wan_interface system o).1 ++ masquerade (wan_interface system o).0 ∷ []))
      ≡ (masquerade (wan_interface system o).0).args ∷ []
unfolding nat_changes enable_forwarding masquerade wan_interface show_default_route text list_beq
one_rule_by system none = refl
one_rule_by system (some iface) = refl

one_rule :
    (system : System) (d : TunDevice)
    → nat_changes (configure_routing system d) ≡ rule_of system d ∷ []
unfolding configure_routing
one_rule system d = one_rule_by system d.config.nat_interface

-- However many tunnels have set up their routing, each has appended one rule to the NAT table, for its
-- interface to the outside, and none has asked for a rule to be taken away.
pub configure_all-rules :
    (system : System) (devices : List TunDevice)
    → nat_changes (configure_all system devices) ≡ map (rule_of system) devices
unfolding configure_all nat_changes
configure_all-rules system [] = refl
configure_all-rules system (d ∷ devices) =
    nat_changes-append (configure_routing system d) (configure_all system devices)
    ∙ rw (one_rule system d) (ap (◌∷◌ (rule_of system d)) (configure_all-rules system devices))

-- The interface to the outside has a name, if the configured one has one.
pub wan_interface_named :
    (system : System) (o : Option Text) → o ≢ some [] → (wan_interface system o).0 ≢ []
unfolding wan_interface is_empty text
wan_interface_named system none h = ground arith
wan_interface_named system (some iface) h = ground arith
